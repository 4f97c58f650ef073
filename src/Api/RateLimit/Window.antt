-- ===== src/Api/RateLimit/Window.antt =====
-- The bound that RateLimitMiddleware of api.py keeps, in every window of time.
use fxfill_enterprise_bankin.Common.{
  ℕ, suc, ◌+◌, ◌≤◌, String, ◌≡◌, refl, true, false, ◌&&◌, List, [], ◌∷◌, ◌++◌, ◌==◌, leb, ltb,
  length, length-append, if◌then◌else◌, arith, inl, inr, Bool-cases, eq_iff, eq_self,
}
use fxfill_enterprise_bankin.Dict.{lookup, lookup-assign}
use fxfill_enterprise_bankin.Api.RateLimit.{
  Limits, Hit, counter_key, recent, counter_of, with_key, dispatch, passed, Ordered, in_window,
}

-- The stored times from a on, before a + window.
unfoldable count : ℕ → ℕ → List ℕ → ℕ
count window a [] = 0
count window a (t ∷ ts) =
    let rest = count window a ts in if leb a t && ltb t (a + window) then rest + 1 else rest

count-length : (w a : ℕ) (ts : List ℕ) → count w a ts ≤ length ts
unfolding count
count-length w a [] = omega arith
count-length w a (t ∷ ts) = ground (arith, count-length w a ts)

-- A window that is open at the time t loses no stored time when t is recorded.
count-recent :
    (w a t : ℕ) (ts : List ℕ)
    → ltb t (a + w) ≡ true
    → count w a ts + (if leb a t then 1 else 0) ≤ count w a (recent w t ts ++ t ∷ [])
unfolding count recent
count-recent w a t [] h = ground arith
count-recent w a t (x ∷ ts) h = ground (arith, count-recent w a t ts h)

abbrev stored : String → List (String × List ℕ) → List ℕ
stored k counters = counter_of (lookup k counters)

stored-with_key :
    (k key : String) (counters : List (String × List ℕ))
    → stored k (with_key key counters) ≡ stored k counters
stored-with_key k key counters = ground (arith, lookup-assign key k [] counters, eq_iff key k)

module _ (lim : Limits) (k : String) (a : ℕ) where
  -- A window that is over gets no more requests.
  closed :
      (now : ℕ) (hs : List Hit) (counters : List (String × List ℕ))
      → a + lim.window ≤ now
      → Ordered now hs
      → in_window lim.window k a (passed lim hs counters) ≡ 0
  unfolding in_window passed
  closed now [] counters h o = refl
  closed now (x ∷ hs) counters h (l, o) =
      ground (arith, closed x.time hs (dispatch lim x counters).1 (omega arith) o)

  dispatch_other :
      (h : Hit) (counters : List (String × List ℕ))
      → (counter_key h == k) ≡ false
      → stored k (dispatch lim h counters).1 ≡ stored k counters
  unfolding dispatch
  dispatch_other h counters e = ground (
    arith,
    stored-with_key k (counter_key h) counters,
    lookup-assign (counter_key h) k
        (recent lim.window h.time (stored (counter_key h) (with_key (counter_key h) counters))
          ++ h.time ∷ [])
        (with_key (counter_key h) counters),
  )

  dispatch_refused :
      (h : Hit) (counters : List (String × List ℕ))
      → (dispatch lim h counters).0 ≡ false
      → stored k (dispatch lim h counters).1 ≡ stored k counters
  unfolding dispatch
  dispatch_refused h counters e = ground (arith, stored-with_key k (counter_key h) counters)

  dispatch_passed :
      (h : Hit) (counters : List (String × List ℕ))
      → counter_key h ≡ k
      → (dispatch lim h counters).0 ≡ true
      → (stored k (dispatch lim h counters).1
          ≡ recent lim.window h.time (stored k counters) ++ h.time ∷ [])
        × (suc (length (recent lim.window h.time (stored k counters))) ≤ lim.max_requests)
  unfolding dispatch
  dispatch_passed h counters e p = ground (
    arith,
    e,
    stored-with_key k k counters,
    eq_self k,
    lookup-assign k k (recent lim.window h.time (stored k (with_key k counters)) ++ h.time ∷ [])
        (with_key k counters),
  )

  -- What a request that passes adds to an open window is in its counter, which has room.
  open_window :
      (h : Hit) (counters : List (String × List ℕ))
      → counter_key h ≡ k
      → (dispatch lim h counters).0 ≡ true
      → ltb h.time (a + lim.window) ≡ true
      → let after = count lim.window a (stored k (dispatch lim h counters).1) in
        (count lim.window a (stored k counters) + (if leb a h.time then 1 else 0) ≤ after)
        × (after ≤ lim.max_requests)
  open_window h counters e p still =
      let ts = recent lim.window h.time (stored k counters) in
      let (stores, room) = dispatch_passed h counters e p in
      rw stores (
        count-recent lim.window a h.time (stored k counters) still,
        omega (
          arith,
          count-length lim.window a (ts ++ h.time ∷ []),
          length-append ts (h.time ∷ []),
          room,
        ),
      )

  within :
      (now : ℕ) (hs : List Hit) (counters : List (String × List ℕ))
      → Ordered now hs
      → count lim.window a (stored k counters) ≤ lim.max_requests
      → count lim.window a (stored k counters) + in_window lim.window k a (passed lim hs counters)
        ≤ lim.max_requests
  unfolding in_window passed
  within now [] counters o c = omega (arith, c)
  within now (h ∷ hs) counters (l, o) c = elim (Bool-cases (dispatch lim h counters).0) [
    | inl p ↦ elim (Bool-cases (counter_key h == k)) [
      | inl e ↦ elim (Bool-cases (ltb h.time (a + lim.window))) [
        | inl still ↦
            (let (adds, room) =
                open_window h counters (ground (arith, eq_iff (counter_key h) k)) p still in
              ground (arith, within h.time hs (dispatch lim h counters).1 o room))
        | inr over ↦
            ground (arith, c, closed h.time hs (dispatch lim h counters).1 (ground arith) o)
      ]
      | inr e ↦
          ground
            (arith, c, dispatch_other h counters e, within h.time hs (dispatch lim h counters).1 o)
    ]
    | inr p ↦
        ground
          (arith, c, dispatch_refused h counters p, within h.time hs (dispatch lim h counters).1 o)
  ]

-- No window of time lets more than the limit through: from empty counters, of all requests of one
-- tenant for one path, however many come and whenever, on a clock that does not go back, at most
-- max_requests pass from any time on until the window is over.
pub passed_in_window_bound :
    (lim : Limits) (k : String) (a : ℕ) (hs : List Hit)
    → Ordered 0 hs
    → in_window lim.window k a (passed lim hs []) ≤ lim.max_requests
unfolding count lookup
passed_in_window_bound lim k a hs o = omega (arith, within lim k a 0 hs [] o (omega arith))
