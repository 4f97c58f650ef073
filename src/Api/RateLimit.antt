-- ===== src/Api/RateLimit.antt =====
-- api.py, RateLimitMiddleware: a counter per tenant and path, on a clock that does not go back.
pub mod Window
use Prim.Native.String
use fxfill_enterprise_bankin.Common.{
  ℕ, zero, suc, ◌+◌, ◌-◌, ◌≤◌, String, ◌≡◌, refl, ap, ◌∙◌, Bool, true, false, ◌&&◌, Option, none,
  some, List, [], ◌∷◌, ◌++◌, ◌==◌, leb, ltb, length, length-append, if◌then◌else◌, arith, inl, inr,
  Bool-cases, eq_iff, eq_self,
}
use fxfill_enterprise_bankin.Dict.{lookup, assign, lookup-assign}

pub record Limits : Type 0 where
  pub max_requests : ℕ
  pub window : ℕ

pub record Hit : Type 0 where
  pub tenant : String
  pub path : String
  pub time : ℕ

unfoldable pub counter_key : Hit → String
counter_key h = String.◌++◌ h.tenant (String.◌++◌ ":" h.path)

-- [t for t in counters if now - t < window]
unfoldable pub recent : ℕ → ℕ → List ℕ → List ℕ
recent window now [] = []
recent window now (t ∷ ts) =
    if ltb now (t + window) then t ∷ recent window now ts else recent window now ts

abbrev pub counter_of : Option (List ℕ) → List ℕ
counter_of none = []
counter_of (some ts) = ts

-- if key not in counters: counters[key] = []
abbrev pub with_key : String → List (String × List ℕ) → List (String × List ℕ)
with_key key counters = elim (lookup key counters) [
  | none ↦ assign key [] counters
  | some ts ↦ counters
]

-- `dispatch`: whether the request goes on, and the counters. A
-- refusal does not store the shortened one.
unfoldable pub dispatch : Limits → Hit → List (String × List ℕ) → Bool × List (String × List ℕ)
dispatch lim h counters =
    let key = counter_key h in
    let known = with_key key counters in
    let timestamps = recent lim.window h.time (counter_of (lookup key known)) in
    if leb lim.max_requests (length timestamps)
    then (false, known)
    else (true, assign key (timestamps ++ h.time ∷ []) known)

-- The requests that pass, of those that come one after the other.
unfoldable pub passed : Limits → List Hit → List (String × List ℕ) → List Hit
passed lim [] counters = []
passed lim (h ∷ hs) counters =
    let (ok, counters') = dispatch lim h counters in
    let rest = passed lim hs counters' in if ok then h ∷ rest else rest

-- The clock does not go back.
abbrev pub Ordered : ℕ → List Hit → Type 0
Ordered now [] = Unit
Ordered now (h ∷ hs) = (now ≤ h.time) × Ordered h.time hs

-- How many of the requests have the key k and a time from a on, before a + window.
unfoldable pub in_window : ℕ → String → ℕ → List Hit → ℕ
in_window window k a [] = 0
in_window window k a (h ∷ hs) =
    let rest = in_window window k a hs in
    if counter_key h == k && leb a h.time && ltb h.time (a + window) then rest + 1 else rest
