-- ===== src/Orchestration/Acyclic.antt =====
-- What a search of orchestration/validator.py that finds no cycle says of the dependencies.
use fxfill_enterprise_bankin.Common.{
  ℕ, zero, suc, ◌≤◌, String, ◌≡◌, ◌≢◌, ◌⊎◌, refl, ◌∙◌, Bool, true, false, ◌&&◌, ◌||◌, Option, none,
  some, List, [], ◌∷◌, ◌++◌, ◌==◌, eq_iff, length, contains, arith, inl, inr, Bool-cases,
  text_cases,
}
use fxfill_enterprise_bankin.Orchestration.{PlanStep}
use fxfill_enterprise_bankin.Orchestration.Search.{
  Colour, Search, Cycles, paint, ids_of, set_of, deps_of, adjacency, visit, on_gray, from_index,
  dfs, after_root, search_from, detect_cycles, if_clear,
}
use fxfill_enterprise_bankin.Orchestration.Search.Colour.{white, gray, black}

pub contains-set_of : (x : String) (xs : List String) → contains x (set_of xs) ≡ contains x xs
contains-set_of x [] = refl
contains-set_of x (y ∷ ys) = ground (arith, contains-set_of x ys, contains-set_of y ys, eq_iff y x)

length-set_of : (xs : List String) → length (set_of xs) ≤ length xs
length-set_of [] = ground arith
length-set_of (x ∷ xs) = ground (arith, length-set_of xs)

abbrev pub has_duplicates : List String → Bool
has_duplicates [] = false
has_duplicates (x ∷ xs) = contains x xs || has_duplicates xs

pub set_of_duplicates :
    (xs : List String) → length xs ≡ length (set_of xs) → has_duplicates xs ≡ false
set_of_duplicates [] h = refl
set_of_duplicates (x ∷ xs) h =
    ground (arith, contains-set_of x xs, length-set_of xs, set_of_duplicates xs)

-- A step of the plan that has the first name lists the second one as a dependency.
abbrev pub depends : List PlanStep → String → String → Bool
depends [] x d = false
depends (s ∷ ss) x d = s.step_id == x && contains d s.dependencies || depends ss x d

adjacency-none :
    (x : String) (steps : List PlanStep)
    → contains x (ids_of steps) ≡ false
    → adjacency x steps ≡ none
unfolding adjacency
adjacency-none x [] h = refl
adjacency-none x (s ∷ ss) h = ground (arith, adjacency-none x ss)

pub depends-deps_of :
    (x d : String) (steps : List PlanStep)
    → has_duplicates (ids_of steps) ≡ false
    → depends steps x d ≡ true
    → contains d (deps_of x steps) ≡ true
unfolding adjacency
depends-deps_of x d [] u h = cc
depends-deps_of x d (s ∷ ss) u h =
    ground (arith, eq_iff s.step_id x, adjacency-none x ss, depends-deps_of x d ss)

pub Colour-cases : (c : Colour) → (c ≡ white) ⊎ (c ≡ gray) ⊎ (c ≡ black)
Colour-cases white = inl refl
Colour-cases gray = inr (inl refl)
Colour-cases black = inr (inr refl)

clear_inj : (c c' : String → Colour) → Search.clear c ≡ Search.clear c' → c ≡ c'
clear_inj c c' h = cc

pub if_clear-inv :
    (s : Search) (rest : (String → Colour) → Search) (c : String → Colour)
    → if_clear s rest ≡ Search.clear c
    → (c1 : String → Colour) × (s ≡ Search.clear c1) × (rest c1 ≡ Search.clear c)
if_clear-inv (Search.clear c1) rest c h = (c1, refl, h)
if_clear-inv (Search.cycle p c1) rest c h = absurd (cc)
if_clear-inv Search.value_error rest c h = absurd (cc)
if_clear-inv Search.out_of_fuel rest c h = absurd (cc)

pub after_root-inv :
    (s : Search) (errors out : List (List String))
    → (rest : (String → Colour) → List (List String) → Cycles)
    → after_root s errors rest ≡ Cycles.found out
    → ((c : String → Colour) × (s ≡ Search.clear c) × (rest c errors ≡ Cycles.found out))
      ⊎ ((c : String → Colour) × (p : List String) × (rest c (errors ++ p ∷ []) ≡ Cycles.found out))
after_root-inv (Search.clear c) errors out rest h = inl (c, refl, h)
after_root-inv (Search.cycle p c) errors out rest h = inr (c, p, h)
after_root-inv Search.value_error errors out rest h = absurd (cc)
after_root-inv Search.out_of_fuel errors out rest h = absurd (cc)

snoc_ne : (xs : List (List String)) (p : List String) → xs ++ p ∷ [] ≢ []
snoc_ne [] p h = cc
snoc_ne (x ∷ xs) p h = cc

on_gray-ne-clear :
    (d : String) (c c' : String → Colour) (o : Option (List String))
    → on_gray d c o ≢ Search.clear c'
on_gray-ne-clear d c c' none h = cc
on_gray-ne-clear d c c' (some p) h = cc

-- Every descent along known dependencies ends.
pub data Grounded (steps : List PlanStep) : String → Type 0 where
  grounded :
      (x : String)
      → ((d : String)
          → contains d (deps_of x steps) ≡ true
          → contains d (ids_of steps) ≡ true
          → Grounded steps d)
      → Grounded steps x

module _ (visited : List String → List String)
    (same : (x : String) (xs : List String) → contains x (visited xs) ≡ contains x xs)
    (steps : List PlanStep) where
  abbrev AllGrounded : (String → Colour) → Type 0
  AllGrounded c = (x : String) → c x ≡ black → Grounded steps x

  -- What a search without a cycle makes of the colours.
  record Cleared (c c' : String → Colour) : Type 0 where
    all : AllGrounded c'
    keeps : (x : String) → c x ≡ black → c' x ≡ black
    grays : (x : String) → c' x ≡ gray → c x ≡ gray

  Cleared_refl : (c : String → Colour) → AllGrounded c → Cleared c c
  Cleared_refl c a = record { all = a; keeps = λ x h. h; grays = λ x h. h }

  Cleared_trans : (c d e : String → Colour) → Cleared c d → Cleared d e → Cleared c e
  Cleared_trans c d e p q = record {
    all = q.all;
    keeps = λ x h. q.keeps x (p.keeps x h);
    grays = λ x h. p.grays x (q.grays x h);
  }

  abbrev Deepens : ((String → Colour) → String → Search) → Type 0
  Deepens deeper =
      (c c' : String → Colour) (d : String)
      → c d ≡ white
      → AllGrounded c
      → deeper c d ≡ Search.clear c'
      → Cleared c c' × (c' d ≡ black)

  -- After the loop, each known dependency of the list is black.
  record Visited (deps : List String) (c c' : String → Colour) : Type 0 where
    cleared : Cleared c c'
    blacks : (d : String) → contains d deps ≡ true → contains d (ids_of steps) ≡ true → c' d ≡ black

  Visited-cons :
      (d : String) (deps : List String) (c c1 c' : String → Colour)
      → Cleared c c1
      → (contains d (ids_of steps) ≡ true → c1 d ≡ black)
      → Visited deps c1 c'
      → Visited (d ∷ deps) c c'
  Visited-cons d deps c c1 c' p b v = record {
    cleared = Cleared_trans c c1 c' p v.cleared;
    blacks = λ x h k. elim (text_cases d x) [
      | inl (e, e') ↦ v.cleared.keeps x (ground (arith, b (rw e' k)))
      | inr (e, e') ↦ v.blacks x (ground arith) k
    ];
  }

  visit-Visited :
      (deeper : (String → Colour) → String → Search)
      → Deepens deeper
      → (path deps : List String) (c c' : String → Colour) → AllGrounded c
      → visit (ids_of steps) deeper path deps c ≡ Search.clear c'
      → Visited deps c c'
  unfolding visit
  visit-Visited deeper D path [] c c' a h =
      rw (clear_inj c c' h)
        (record { cleared = Cleared_refl c' (rw (← clear_inj c c' h) a); blacks = λ d k. cc })
  visit-Visited deeper D path (d ∷ deps) c c' a h = elim (Bool-cases (contains d (ids_of steps))) [
    | inr e ↦
        Visited-cons d deps c c c' (Cleared_refl c a) (cc)
          (visit-Visited deeper D path deps c c' a (ground arith))
    | inl e ↦ elim (Colour-cases (c d)) [
      | inl w ↦
          let (c1, s, r) =
            if_clear-inv (deeper c d) (λ k. visit (ids_of steps) deeper path deps k) c'
              (ground arith) in
          let (p, b) = D c c1 d w a s in
          Visited-cons d deps c c1 c' p (λ k. b) (visit-Visited deeper D path deps c1 c' p.all r)
      | inr (inl g) ↦ absurd (on_gray-ne-clear d c c' (from_index d path) (ground arith))
      | inr (inr b) ↦
          Visited-cons d deps c c c' (Cleared_refl c a) (λ k. b)
            (visit-Visited deeper D path deps c c' a (ground arith))
    ]
  ]

  paint_gray :
      (c : String → Colour) (x : String)
      → c x ≡ white
      → AllGrounded c
      → AllGrounded (paint x gray c)
  paint_gray c x w a y h = a y (ground (arith, eq_iff x y))

  -- A node whose dependencies are done is painted black.
  finish :
      (c c1 : String → Colour) (x : String)
      → c x ≡ white
      → Visited (visited (set_of (deps_of x steps))) (paint x gray c) c1
      → Cleared c (paint x black c1) × (paint x black c1 x ≡ black)
  finish c c1 x w v =
      let g : Grounded steps x = grounded x (λ d h k. v.cleared.all d (
        v.blacks d (same d (set_of (deps_of x steps)) ∙ contains-set_of d (deps_of x steps) ∙ h)
          k)) in
      (
        record {
          all = λ y h. elim (text_cases x y) [
            | inl (e, e') ↦ rw (← e') g
            | inr (e, e') ↦ v.cleared.all y (ground arith)
          ];
          keeps = λ y h. elim (text_cases x y) [
            | inl (e, e') ↦ ground arith
            | inr (e, e') ↦ rw e (v.cleared.keeps y (rw e h))
          ];
          grays = λ y h. elim (text_cases x y) [
            | inl (e, e') ↦ absurd (ground arith)
            | inr (e, e') ↦
                let k : c1 y ≡ gray = ground arith in let j = v.cleared.grays y k in ground arith
          ];
        },
        ground (arith, eq_iff x x),
      )

  dfs-Deepens : (n : ℕ) (path : List String) → Deepens (dfs visited steps n path)
  unfolding dfs
  dfs-Deepens zero path c c' x w a h = absurd (cc)
  dfs-Deepens (suc n) path c c' x w a h =
      let (c1, s, r) =
        if_clear-inv
          (visit (ids_of steps) (dfs visited steps n (path ++ x ∷ [])) (path ++ x ∷ [])
            (visited (set_of (deps_of x steps))) (paint x gray c))
          (λ k. Search.clear (paint x black k)) c' h in
      let v =
        visit-Visited (dfs visited steps n (path ++ x ∷ [])) (dfs-Deepens n (path ++ x ∷ []))
          (path ++ x ∷ []) (visited (set_of (deps_of x steps))) (paint x gray c) c1
          (paint_gray c x w a) s in
      rw (← clear_inj (paint x black c1) c' r) (finish c c1 x w v)

  -- Errors are only added.
  search_from-found :
      (n : ℕ) (sids : List String) (c : String → Colour) (errors : List (List String))
      → search_from visited steps n sids c errors ≡ Cycles.found []
      → errors ≡ []
  unfolding search_from
  search_from-found n [] c errors h = cc
  search_from-found n (x ∷ xs) c errors h = elim (Colour-cases (c x)) [
    | inl w ↦
        elim (after_root-inv (dfs visited steps n [] c x) errors []
          (λ k e. search_from visited steps n xs k e) (ground arith)) [
            | inl (c1, s, r) ↦ search_from-found n xs c1 errors r
            | inr (c1, p, r) ↦
                absurd (snoc_ne errors p (search_from-found n xs c1 (errors ++ p ∷ []) r))
          ]
    | inr (inl g) ↦ search_from-found n xs c errors (ground arith)
    | inr (inr b) ↦ search_from-found n xs c errors (ground arith)
  ]

  -- A search that finds nothing has grounded each root.
  search_from-Grounded :
      (n : ℕ) (sids : List String) (c : String → Colour)
      → AllGrounded c
      → ((x : String) → c x ≢ gray)
      → search_from visited steps n sids c [] ≡ Cycles.found []
      → (x : String) → contains x sids ≡ true
      → Grounded steps x
  unfolding search_from
  search_from-Grounded n [] c a g h x k = absurd (cc)
  search_from-Grounded n (s ∷ ss) c a g h x k = elim (Colour-cases (c s)) [
    | inl w ↦
        elim (after_root-inv (dfs visited steps n [] c s) [] []
          (λ k e. search_from visited steps n ss k e) (ground arith)) [
            | inl (c1, e, r) ↦
                let (p, b) = dfs-Deepens n [] c c1 s w a e in
                elim (text_cases s x) [
                  | inl (t, t') ↦ rw (← t') (p.all s b)
                  | inr (t, t') ↦
                      search_from-Grounded n ss c1 p.all (λ y j. g y (p.grays y j)) r x
                        (ground arith)
                ]
            | inr (c1, p, r) ↦ absurd (snoc_ne [] p (search_from-found n ss c1 ([] ++ p ∷ []) r))
          ]
    | inr (inl e) ↦ absurd (g s e)
    | inr (inr b) ↦ elim (text_cases s x) [
      | inl (t, t') ↦ rw (← t') (a s b)
      | inr (t, t') ↦ search_from-Grounded n ss c a g (ground arith) x (ground arith)
    ]
  ]

  pub detect_cycles-Grounded :
      detect_cycles visited steps ≡ Cycles.found []
      → (x : String) → contains x (ids_of steps) ≡ true
      → Grounded steps x
  unfolding detect_cycles
  detect_cycles-Grounded h x k =
      search_from-Grounded (suc (length steps)) (visited (set_of (ids_of steps))) (λ y. white)
        (λ y. cc) (λ y. cc) h x
        (same x (set_of (ids_of steps)) ∙ contains-set_of x (ids_of steps) ∙ k)

-- A chain of dependencies.
pub data Chain (steps : List PlanStep) : String → String → Type 0 where
  link : {x d : String} → depends steps x d ≡ true → Chain steps x d
  more : {x y z : String} → depends steps x y ≡ true → Chain steps y z → Chain steps x z

extend :
    {steps : List PlanStep} {x y z : String}
    → Chain steps x y
    → depends steps y z ≡ true
    → Chain steps x z
extend (link e) h = more e (link h)
extend (more e c) h = more e (extend c h)

module _ (steps : List PlanStep) (unique : has_duplicates (ids_of steps) ≡ false)
    (known : (x d : String) → depends steps x d ≡ true → contains d (ids_of steps) ≡ true) where
  pub Grounded-acyclic : {x : String} → Grounded steps x → ¬ Chain steps x x
  Grounded-acyclic (grounded x below) (link e) =
      Grounded-acyclic (below x (depends-deps_of x x steps unique e) (known x x e)) (link e)
  Grounded-acyclic (grounded x below) (more e c) =
      Grounded-acyclic (below _ (depends-deps_of x _ steps unique e) (known x _ e)) (extend c e)
