-- ===== src/Orchestration/Depth.antt =====
-- The recursion of `_detect_cycles` in orchestration/validator.py is never deeper than the plan has
-- steps: each call paints a white step.
use fxfill_enterprise_bankin.Common.{
  ℕ, zero, suc, ◌+◌, ◌≤◌, ◌<◌, String, ◌≡◌, ◌≢◌, refl, sym, ◌∙◌, true, Option, none, some, List, [],
  ◌∷◌, ◌++◌, eq_iff, length, contains, arith, inl, inr, Bool-cases, eq_self,
}
use fxfill_enterprise_bankin.Orchestration.{PlanStep}
use fxfill_enterprise_bankin.Orchestration.Search.{
  Colour, Search, Cycles, paint, ids_of, set_of, deps_of, visit, on_gray, from_index, dfs,
  after_root, search_from, detect_cycles, if_clear,
}
use fxfill_enterprise_bankin.Orchestration.Search.Colour.{white, gray, black}
use fxfill_enterprise_bankin.Orchestration.Acyclic.{Colour-cases, contains-set_of}

abbrev is_white : Colour → ℕ
is_white white = 1
is_white gray = 0
is_white black = 0

-- How many of the steps are white.
whites : List String → (String → Colour) → ℕ
whites [] c = 0
whites (x ∷ xs) c = is_white (c x) + whites xs c

whites-le-length : (xs : List String) (c : String → Colour) → whites xs c ≤ length xs
unfolding whites
whites-le-length [] c = ground arith
whites-le-length (x ∷ xs) c = ground (arith, whites-le-length xs c)

whites-paint-le :
    (xs : List String) (x : String) (k : Colour) (c : String → Colour)
    → is_white k ≡ 0
    → whites xs (paint x k c) ≤ whites xs c
unfolding whites
whites-paint-le [] x k c h = ground arith
whites-paint-le (y ∷ ys) x k c h = ground (arith, whites-paint-le ys x k c h)

whites-paint-lt :
    (xs : List String) (x : String) (k : Colour) (c : String → Colour)
    → is_white k ≡ 0
    → c x ≡ white
    → contains x xs ≡ true
    → whites xs (paint x k c) < whites xs c
unfolding whites
whites-paint-lt [] x k c h w i = absurd (cc)
whites-paint-lt (y ∷ ys) x k c h w i =
    ground (arith, eq_iff y x, eq_iff x y, whites-paint-le ys x k c h, whites-paint-lt ys x k c h w)

-- A search ends, and leaves no more white steps than that.
abbrev Within : List String → ℕ → Search → Type 0
Within ids m (Search.clear c) = whites ids c ≤ m
Within ids m (Search.cycle p c) = whites ids c ≤ m
Within ids m Search.value_error = Unit
Within ids m Search.out_of_fuel = ⊥

Within-weaken : (ids : List String) (m n : ℕ) (s : Search) → m ≤ n → Within ids m s → Within ids n s
Within-weaken ids m n (Search.clear c) h w = omega arith
Within-weaken ids m n (Search.cycle p c) h w = omega arith
Within-weaken ids m n Search.value_error h w = tt
Within-weaken ids m n Search.out_of_fuel h w = absurd w

if_clear-Within :
    (ids : List String) (m : ℕ) (s : Search) (rest : (String → Colour) → Search)
    → Within ids m s
    → ((c : String → Colour) → whites ids c ≤ m → Within ids m (rest c))
    → Within ids m (if_clear s rest)
if_clear-Within ids m (Search.clear c) rest w r = r c w
if_clear-Within ids m (Search.cycle p c) rest w r = w
if_clear-Within ids m Search.value_error rest w r = tt
if_clear-Within ids m Search.out_of_fuel rest w r = absurd w

on_gray-Within :
    (ids : List String) (d : String) (c : String → Colour) (o : Option (List String))
    → Within ids (whites ids c) (on_gray d c o)
on_gray-Within ids d c none = tt
on_gray-Within ids d c (some p) = omega arith

abbrev Ends : List String → ℕ → ((String → Colour) → String → Search) → Type 0
Ends ids n deeper =
    (c : String → Colour) (d : String)
    → c d ≡ white
    → contains d ids ≡ true
    → whites ids c ≤ n
    → Within ids (whites ids c) (deeper c d)

visit-Within :
    (ids : List String) (n : ℕ) (deeper : (String → Colour) → String → Search)
    → Ends ids n deeper
    → (path deps : List String) (c : String → Colour) → whites ids c ≤ n
    → Within ids (whites ids c) (visit ids deeper path deps c)
unfolding visit
visit-Within ids n deeper E path [] c h = omega arith
visit-Within ids n deeper E path (d ∷ deps) c h = elim (Bool-cases (contains d ids)) [
  | inr e ↦ rw e (visit-Within ids n deeper E path deps c h)
  | inl e ↦ rw e (elim (Colour-cases (c d)) [
    | inl w ↦ rw w (
        if_clear-Within ids (whites ids c) (deeper c d) (λ k. visit ids deeper path deps k)
          (E c d w e h)
          (λ k j.
            Within-weaken ids (whites ids k) (whites ids c) (visit ids deeper path deps k) j
              (visit-Within ids n deeper E path deps k (omega arith))))
    | inr (inl g) ↦ rw g (on_gray-Within ids d c (from_index d path))
    | inr (inr b) ↦ rw b (visit-Within ids n deeper E path deps c h)
  ])
]

module _ (visited : List String → List String) (steps : List PlanStep) where
  dfs-Ends : (n : ℕ) (path : List String) → Ends (ids_of steps) n (dfs visited steps n path)
  unfolding dfs
  dfs-Ends zero path c x w i h =
      absurd (omega (arith, whites-paint-lt (ids_of steps) x gray c refl w i))
  dfs-Ends (suc n) path c x w i h =
      let lt = whites-paint-lt (ids_of steps) x gray c refl w i in
      let deps = visited (set_of (deps_of x steps)) in
      if_clear-Within (ids_of steps) (whites (ids_of steps) c)
        (visit (ids_of steps) (dfs visited steps n (path ++ x ∷ [])) (path ++ x ∷ []) deps
          (paint x gray c))
        (λ k. Search.clear (paint x black k))
        (Within-weaken (ids_of steps) (whites (ids_of steps) (paint x gray c))
          (whites (ids_of steps) c) _ (omega arith)
          (visit-Within (ids_of steps) n (dfs visited steps n (path ++ x ∷ []))
            (dfs-Ends n (path ++ x ∷ [])) (path ++ x ∷ []) deps (paint x gray c) (omega arith)))
        (λ k j. omega (arith, whites-paint-le (ids_of steps) x black k refl))

  after_root-total :
      (s : Search) (m : ℕ) (errors : List (List String))
      → (rest : (String → Colour) → List (List String) → Cycles)
      → ((c : String → Colour) (e : List (List String)) → rest c e ≢ Cycles.out_of_fuel)
      → Within (ids_of steps) m s
      → after_root s errors rest ≢ Cycles.out_of_fuel
  after_root-total (Search.clear c) m errors rest r w h = r c errors h
  after_root-total (Search.cycle p c) m errors rest r w h = r c (errors ++ p ∷ []) h
  after_root-total Search.value_error m errors rest r w h = cc
  after_root-total Search.out_of_fuel m errors rest r w h = absurd w

  search_from-total :
      (n : ℕ) (sids : List String) (c : String → Colour) (errors : List (List String))
      → length (ids_of steps) ≤ n
      → ((x : String) → contains x sids ≡ true → contains x (ids_of steps) ≡ true)
      → search_from visited steps n sids c errors ≢ Cycles.out_of_fuel
  unfolding search_from
  search_from-total n [] c errors l i h = cc
  search_from-total n (x ∷ xs) c errors l i h =
      let rest = λ (k : String → Colour) (e : List (List String)).
        search_from-total n xs k e l (λ y j. i y (ground arith)) in
      elim (Colour-cases (c x)) [
        | inl w ↦
            after_root-total (dfs visited steps n [] c x) (whites (ids_of steps) c) errors
              (λ k e. search_from visited steps n xs k e) rest
              (dfs-Ends n [] c x w (i x (ground (arith, eq_self x)))
                (omega (arith, whites-le-length (ids_of steps) c)))
              (ground arith)
        | inr (inl g) ↦ rest c errors (ground arith)
        | inr (inr b) ↦ rest c errors (ground arith)
      ]

length-ids_of : (steps : List PlanStep) → length (ids_of steps) ≡ length steps
length-ids_of [] = refl
length-ids_of (s ∷ ss) = ground (arith, length-ids_of ss)

-- Whatever the plan, in whatever order Python visits a set, the search for circular dependencies
-- ends: its recursion is never deeper than the number of steps.
pub detect_cycles_total :
    (visited : List String → List String)
    → ((x : String) (xs : List String) → contains x (visited xs) ≡ contains x xs)
    → (steps : List PlanStep) → detect_cycles visited steps ≢ Cycles.out_of_fuel
unfolding detect_cycles
detect_cycles_total visited same steps =
    search_from-total visited steps (suc (length steps)) (visited (set_of (ids_of steps)))
      (λ x. white) [] (omega (arith, length-ids_of steps))
      (λ x h. sym (contains-set_of x (ids_of steps)) ∙ sym (same x (set_of (ids_of steps))) ∙ h)
