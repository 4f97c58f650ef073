-- ===== src/Orchestration/Search.antt =====
-- orchestration/validator.py, `_detect_cycles`: the depth-first search for circular dependencies.
-- The order in which Python visits a set is the parameter `visited`. The fuel bounds the depth of
-- the recursion; running out of it is an outcome of its own.
use fxfill_enterprise_bankin.Common.{
  ℕ, zero, suc, String, Option, none, some, List, [], ◌∷◌, ◌++◌, ◌==◌, if◌then◌else◌, length,
  contains,
}
use fxfill_enterprise_bankin.Orchestration.{PlanStep}

pub data Colour : Type 0 where
  white gray black : Colour

-- color[node] = c
abbrev pub paint : String → Colour → (String → Colour) → String → Colour
paint node c color x = if node == x then c else color x

abbrev pub cons_to {ℓ} : {A : Type ℓ} → A → Option (List A) → Option (List A)
cons_to x none = none
cons_to x (some xs) = some (x ∷ xs)

-- path[path.index(x):], where `index` raises ValueError if x is not in the path.
unfoldable pub from_index : String → List String → Option (List String)
from_index x [] = none
from_index x (y ∷ ys) = if y == x then some (y ∷ ys) else from_index x ys

-- A search answers whether it found a cycle, raises ValueError, or runs out of fuel.
pub data Search : Type 0 where
  clear : (String → Colour) → Search
  cycle : List String → (String → Colour) → Search
  value_error out_of_fuel : Search

-- [s.step_id for s in steps]
abbrev pub ids_of : List PlanStep → List String
ids_of [] = []
ids_of (s ∷ ss) = s.step_id ∷ ids_of ss

abbrev pub or_else {ℓ} : {A : Type ℓ} → Option A → Option A → Option A
or_else (some x) o = some x
or_else none o = o

-- `deps`: a dict comprehension keeps the last value of a key.
unfoldable pub adjacency : String → List PlanStep → Option (List String)
adjacency node [] = none
adjacency node (s ∷ ss) =
    or_else (adjacency node ss) (if s.step_id == node then some s.dependencies else none)

-- deps.get(node, set())
abbrev pub deps_of : String → List PlanStep → List String
deps_of node steps = elim (adjacency node steps) [ none ↦ [] | some ds ↦ ds ]

-- set(xs), before Python orders it
abbrev pub set_of : List String → List String
set_of [] = []
set_of (x ∷ xs) = let rest = set_of xs in if contains x rest then rest else x ∷ rest

-- The cycle that is reported, from the path after the dependency's place in it.
abbrev pub on_gray : String → (String → Colour) → Option (List String) → Search
on_gray dep color none = Search.value_error
on_gray dep color (some p) = Search.cycle (p ++ dep ∷ []) color

-- What follows the recursive call.
abbrev pub if_clear : Search → ((String → Colour) → Search) → Search
if_clear (Search.clear c) rest = rest c
if_clear (Search.cycle p c) rest = Search.cycle p c
if_clear Search.value_error rest = Search.value_error
if_clear Search.out_of_fuel rest = Search.out_of_fuel

-- The loop over the dependencies of a node; `deeper` is the recursive call on a white one.
unfoldable pub visit :
    List String
    → ((String → Colour) → String → Search)
    → List String
    → List String
    → (String → Colour)
    → Search
visit ids deeper path [] color = Search.clear color
visit ids deeper path (dep ∷ deps) color =
    let rest = λ (c : String → Colour). visit ids deeper path deps c in
    if contains dep ids
    then (elim (color dep) [
      | Colour.gray ↦ on_gray dep color (from_index dep path)
      | Colour.white ↦ if_clear (deeper color dep) rest
      | Colour.black ↦ rest color
    ])
    else rest color

-- The answer of the whole search: the cycles in the order in which they were found.
pub data Cycles : Type 0 where
  found : List (List String) → Cycles
  value_error out_of_fuel : Cycles

abbrev pub after_root :
    Search → List (List String) → ((String → Colour) → List (List String) → Cycles) → Cycles
after_root (Search.clear c) errors rest = rest c errors
after_root (Search.cycle p c) errors rest = rest c (errors ++ p ∷ [])
after_root Search.value_error errors rest = Cycles.value_error
after_root Search.out_of_fuel errors rest = Cycles.out_of_fuel

module _ (visited : List String → List String) (steps : List PlanStep) where
  unfoldable pub dfs : ℕ → List String → (String → Colour) → String → Search
  dfs zero path color node = Search.out_of_fuel
  dfs (suc n) path color node =
      if_clear
        (visit (ids_of steps) (dfs n (path ++ node ∷ [])) (path ++ node ∷ [])
          (visited (set_of (deps_of node steps))) (paint node Colour.gray color))
        (λ c. Search.clear (paint node Colour.black c))

  -- The loop over the steps.
  unfoldable pub search_from : ℕ → List String → (String → Colour) → List (List String) → Cycles
  search_from n [] color errors = Cycles.found errors
  search_from n (sid ∷ sids) color errors =
      let rest = λ (c : String → Colour) (e : List (List String)). search_from n sids c e in
      elim (color sid) [
        | Colour.white ↦ after_root (dfs n [] color sid) errors rest
        | _ ↦ rest color errors
      ]

  -- `_detect_cycles`, with a depth of recursion that is never reached.
  unfoldable pub detect_cycles : Cycles
  unfolding search_from
  detect_cycles =
      search_from (suc (length steps)) (visited (set_of (ids_of steps))) (λ x. Colour.white) []
