-- ===== src/Audit/Tests.antt =====
-- Bundles of audit/models.py, with the identity as the digest.
use fxfill_enterprise_bankin.Common.{String, ◌≡◌, refl, true, [], ◌∷◌, ◌++◌}
use fxfill_enterprise_bankin.Audit.{
  AuditEvent, build_evidence_bundle, compute_hash, chain_ok, content,
}
use fxfill_enterprise_bankin.Audit.Chain.{hashed, last_hash, verified_event_is_unchanged}

abbrev event : (details previous : String) → AuditEvent
event details previous = record {
  event_id = "e";
  kind = "k";
  actor_id = "alice";
  tenant_id = "t";
  session_id = "s";
  timestamp = "1";
  details = details;
  previous_hash = previous;
  event_hash = content "e" "1" "k" details previous;
}

abbrev one : AuditEvent
one = event "a" ""

abbrev two : AuditEvent
two = event "b" one.event_hash

abbrev three : AuditEvent
three = event "c" two.event_hash

verifies :
    (build_evidence_bundle (λ t. t) "b" (one ∷ [] ++ two ∷ three ∷ []) []).hash_chain_verified
    ≡ true
unfolding build_evidence_bundle chain_ok compute_hash
verifies = refl

-- The second event under another name, which no hash covers.
abbrev renamed : AuditEvent
renamed = record two { actor_id = "mallory"; session_id = "other" }

renamed_verifies :
    (build_evidence_bundle (λ t. t) "b" (one ∷ [] ++ renamed ∷ three ∷ []) []).hash_chain_verified
    ≡ true
unfolding build_evidence_bundle chain_ok compute_hash
renamed_verifies = refl

verified_event_is_unchanged_example :
    (renamed.event_hash ≡ two.event_hash)
    × (hashed renamed (last_hash one.event_hash []) ≡ hashed two (last_hash one.event_hash []))
verified_event_is_unchanged_example =
    verified_event_is_unchanged (λ t. t) (λ s t h. h) "b" [] one two renamed three [] [] verifies
      renamed_verifies
