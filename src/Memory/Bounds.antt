-- ===== src/Memory/Bounds.antt =====
-- The policy that memory/store.py enforces over any sequence of its operations.
use fxfill_enterprise_bankin.Common.{
  ℕ, ◌≤◌, ◌<◌, String, ◌≡◌, refl, ◌∙◌, true, false, not, Option, none, some, List, [], ◌∷◌, ◌++◌,
  length, all, arith, ◌==◌, length-append, inl, inr, Bool-cases,
}
use fxfill_enterprise_bankin.Dict.{lookup, lookup-assign, lookup-remove}
use fxfill_enterprise_bankin.Memory.{
  UserPreference, EpisodeRecord, MemoryStore, Saved, is_sensitive_key, make_room, store_in,
  pref_key, list_or_empty, save_preference, get_preferences, delete_preferences, save_episode,
}

pub data Op : Type 0 where
  save : UserPreference → Op
  forget : (user_id tenant_id : String) → Op
  episode : EpisodeRecord → Op

-- A call that is refused, or raises, leaves the store as it was.
abbrev pub after_save : MemoryStore → Saved → MemoryStore
after_save s Saved.blocked_by_policy = s
after_save s Saved.index_error = s
after_save s (Saved.saved s') = s'

-- A new store.
abbrev pub empty_store : ℕ → MemoryStore
empty_store max = record { preferences = []; episodes = []; max_preferences = max }

module _ (lower : String → String) where
  unfoldable pub apply : Op → MemoryStore → MemoryStore
  apply (save p) s = after_save s (save_preference lower p s)
  apply (forget user tenant) s = delete_preferences user tenant s
  apply (episode e) s = save_episode e s

  unfoldable pub run : List Op → MemoryStore → MemoryStore
  run [] s = s
  run (op ∷ ops) s = run ops (apply op s)

  -- A list of preferences that keeps the policy.
  abbrev pub Fits : ℕ → List UserPreference → Type 0
  Fits max ps = (length ps ≤ max) × (all (λ p. not (is_sensitive_key lower p)) ps ≡ true)

  -- Every list of the store does.
  abbrev pub WithinPolicy : MemoryStore → Type 0
  WithinPolicy s = (k : String) → Fits s.max_preferences (list_or_empty (lookup k s.preferences))

  all_snoc :
      (ps : List UserPreference) (p : UserPreference)
      → all (λ q. not (is_sensitive_key lower q)) ps ≡ true
      → is_sensitive_key lower p ≡ false
      → all (λ q. not (is_sensitive_key lower q)) (ps ++ p ∷ []) ≡ true
  all_snoc [] p h k = ground arith
  all_snoc (q ∷ qs) p h k = ground (arith, all_snoc qs p)

  -- There is room for one more after the eviction.
  make_room-within :
      (max : ℕ) (ps kept : List UserPreference)
      → Fits max ps
      → make_room max ps ≡ some kept
      → (length kept < max) × (all (λ q. not (is_sensitive_key lower q)) kept ≡ true)
  unfolding make_room
  make_room-within max [] kept w h = (ground arith, ground arith)
  make_room-within max (p ∷ ps) kept w h = (ground arith, ground arith)

  store_in-WithinPolicy :
      (p : UserPreference) (s : MemoryStore) (o : Option (List UserPreference))
      → make_room s.max_preferences
          (list_or_empty (lookup (pref_key p.user_id p.tenant_id) s.preferences))
        ≡ o
      → is_sensitive_key lower p ≡ false
      → WithinPolicy s
      → WithinPolicy (after_save s (store_in p s o))
  store_in-WithinPolicy p s none e h w k = w k
  store_in-WithinPolicy p s (some kept) e h w k =
      let key = pref_key p.user_id p.tenant_id in
      let (short, clean) =
        make_room-within s.max_preferences (list_or_empty (lookup key s.preferences)) kept (w key)
          e in
      rw (lookup-assign key k (kept ++ p ∷ []) s.preferences) (elim (Bool-cases (key == k)) [
        | inl e ↦ rw e (omega (arith, length-append kept (p ∷ [])), all_snoc kept p clean h)
        | inr e ↦ rw e (w k)
      ])

  apply-WithinPolicy : (op : Op) (s : MemoryStore) → WithinPolicy s → WithinPolicy (apply op s)
  unfolding apply save_preference delete_preferences save_episode
  apply-WithinPolicy (save p) s w k = elim (Bool-cases (is_sensitive_key lower p)) [
    | inl e ↦ rw e (w k)
    | inr e ↦ rw e (
        store_in-WithinPolicy p s
          (make_room s.max_preferences
            (list_or_empty (lookup (pref_key p.user_id p.tenant_id) s.preferences)))
          refl e w k)
  ]
  apply-WithinPolicy (forget user tenant) s w k =
      rw (lookup-remove (pref_key user tenant) k s.preferences)
        (elim (Bool-cases (pref_key user tenant == k)) [
          | inl e ↦ rw e (omega arith, refl)
          | inr e ↦ rw e (w k)
        ])
  apply-WithinPolicy (episode e) s w k = w k

  run-WithinPolicy : (ops : List Op) (s : MemoryStore) → WithinPolicy s → WithinPolicy (run ops s)
  unfolding run
  run-WithinPolicy [] s w = w
  run-WithinPolicy (op ∷ ops) s w = run-WithinPolicy ops (apply op s) (apply-WithinPolicy op s w)

  max_preferences-apply :
      (op : Op) (s : MemoryStore) → (apply op s).max_preferences ≡ s.max_preferences
  unfolding apply save_preference delete_preferences save_episode make_room
  max_preferences-apply (save p) s = ground arith
  max_preferences-apply (forget user tenant) s = refl
  max_preferences-apply (episode e) s = refl

  run_max_preferences :
      (ops : List Op) (s : MemoryStore) → (run ops s).max_preferences ≡ s.max_preferences
  unfolding run
  run_max_preferences [] s = refl
  run_max_preferences (op ∷ ops) s =
      run_max_preferences ops (apply op s) ∙ max_preferences-apply op s

  -- Whatever sequence of operations a new store has seen, no user has more preferences stored than
  -- the policy's maximum, and none of them has a key on the blocklist.
  pub preferences_within_policy :
      (max : ℕ) (ops : List Op) (user tenant : String)
      → (length (get_preferences user tenant (run ops (empty_store max))) ≤ max)
        × (all
              (λ p. not (is_sensitive_key lower p))
              (get_preferences user tenant (run ops (empty_store max)))
            ≡ true)
  unfolding get_preferences lookup
  preferences_within_policy max ops user tenant =
      let w =
        run-WithinPolicy ops (empty_store max) (λ k. (omega arith, refl)) (pref_key user tenant) in
      (omega (arith, w.0, run_max_preferences ops (empty_store max)), w.1)
