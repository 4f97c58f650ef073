-- ===== src/Audit/Chain.antt =====
-- What a verified chain of audit/models.py protects, and what it does not.
use Prim.Native.String
use text.Mathlib.TextLemmas.{append_cancel_left}
use fxfill_enterprise_bankin.Common.{
  String, ◌≡◌, refl, sym, ◌∙◌, true, List, [], ◌∷◌, ◌++◌, eq_iff, arith,
}
use fxfill_enterprise_bankin.Audit.{
  AuditEvent, content, compute_hash, chain_ok, build_evidence_bundle,
}

-- The hash of the last event.
abbrev pub last_hash : String → List AuditEvent → String
last_hash h [] = h
last_hash h (e ∷ es) = last_hash e.event_hash es

-- The text of an event that is hashed.
abbrev pub hashed : AuditEvent → String → String
hashed e before = content e.event_id e.timestamp e.kind e.details before

-- A field of the hashed text, its separator, and what follows.
abbrev after : String → String → String
after field rest = String.◌++◌ field (String.◌++◌ "|" rest)

after_field : (field p q : String) → after field p ≡ after field q → p ≡ q
after_field field p q h =
    append_cancel_left "|" p q (append_cancel_left field (String.◌++◌ "|" p) (String.◌++◌ "|" q) h)

content_previous : (i t k d p q : String) → content i t k d p ≡ content i t k d q → p ≡ q
unfolding content
content_previous i t k d p q h = after_field d p q (
    after_field k (after d p) (after d q) (
      after_field t (after k (after d p)) (after k (after d q))
        (after_field i (after t (after k (after d p))) (after t (after k (after d q))) h)))

-- The fields that are not hashed, replaced.
abbrev pub relabel :
    (actor tenant session previous : AuditEvent → String) → List AuditEvent → List AuditEvent
relabel actor tenant session previous [] = []
relabel actor tenant session previous (e ∷ es) =
    record e {
      actor_id = actor e;
      tenant_id = tenant e;
      session_id = session e;
      previous_hash = previous e;
    }
    ∷ relabel actor tenant session previous es

module _ (sha256 : String → String) where
  head_hash :
      (before : String) (e : AuditEvent) (es : List AuditEvent)
      → chain_ok sha256 before (e ∷ es) ≡ true
      → (e.event_hash ≡ sha256 (hashed e before)) × (chain_ok sha256 e.event_hash es ≡ true)
  unfolding chain_ok compute_hash
  head_hash before e es h =
      (ground (arith, eq_iff e.event_hash (sha256 (hashed e before))), ground arith)

  suffix_ok :
      (before : String) (xs es : List AuditEvent)
      → chain_ok sha256 before (xs ++ es) ≡ true
      → chain_ok sha256 (last_hash before xs) es ≡ true
  suffix_ok before [] es h = h
  suffix_ok before (x ∷ xs) es h = suffix_ok x.event_hash xs es (head_hash before x (xs ++ es) h).1

  -- A verified bundle shows a change of an event between two others: for a digest without
  -- collisions, if two verified bundles differ at most in one event that is neither the first nor
  -- the last, then this event has the same hash and the same hashed text in both.
  pub verified_event_is_unchanged :
      ((s t : String) → sha256 s ≡ sha256 t → s ≡ t)
      → (id : String) (controls : List String) (first e e' next : AuditEvent)
        (before after : List AuditEvent)
      → (build_evidence_bundle sha256 id
          (first ∷ before ++ e ∷ next ∷ after)
          controls).hash_chain_verified
        ≡ true
      → (build_evidence_bundle sha256 id
          (first ∷ before ++ e' ∷ next ∷ after)
          controls).hash_chain_verified
        ≡ true
      → (e'.event_hash ≡ e.event_hash)
        × (hashed e' (last_hash first.event_hash before)
            ≡ hashed e (last_hash first.event_hash before))
  unfolding build_evidence_bundle
  verified_event_is_unchanged injective id controls first e e' next before after h h' =
      let p = last_hash first.event_hash before in
      let (a, rest) =
        head_hash p e (next ∷ after) (suffix_ok first.event_hash before (e ∷ next ∷ after) h) in
      let (a', rest') =
        head_hash p e' (next ∷ after) (suffix_ok first.event_hash before (e' ∷ next ∷ after) h') in
      let (b, _) = head_hash e.event_hash next after rest in
      let (b', _) = head_hash e'.event_hash next after rest' in
      let same = injective (hashed next e'.event_hash) (hashed next e.event_hash) (sym b' ∙ b) in
      let hash =
        content_previous next.event_id next.timestamp next.kind next.details e'.event_hash
          e.event_hash same in
      (hash, injective (hashed e' p) (hashed e p) (sym a' ∙ hash ∙ a))

  relabel-chain_ok :
      (actor tenant session previous : AuditEvent → String) (h : String) (es : List AuditEvent)
      → chain_ok sha256 h (relabel actor tenant session previous es) ≡ chain_ok sha256 h es
  unfolding chain_ok
  relabel-chain_ok actor tenant session previous h [] = refl
  relabel-chain_ok actor tenant session previous h (e ∷ es) =
      ground (arith, relabel-chain_ok actor tenant session previous e.event_hash es)

  -- Who did something is not protected: whatever actors, tenants, sessions and previous hashes are
  -- written into the events of a bundle, its verification answers the same.
  pub relabelled_bundle_verifies :
      (actor tenant session previous : AuditEvent → String)
      → (id : String) (controls : List String) (events : List AuditEvent)
      → (build_evidence_bundle sha256 id
          (relabel actor tenant session previous events)
          controls).hash_chain_verified
        ≡ (build_evidence_bundle sha256 id events controls).hash_chain_verified
  unfolding build_evidence_bundle
  relabelled_bundle_verifies actor tenant session previous id controls [] = refl
  relabelled_bundle_verifies actor tenant session previous id controls (e ∷ es) =
      relabel-chain_ok actor tenant session previous e.event_hash es
