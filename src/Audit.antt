-- ===== src/Audit.antt =====
-- audit/models.py: events chained by hashes, and the evidence bundle that checks the chain. The
-- digest of a text is the parameter `sha256`; the kind of an event stands for its text.
pub mod Chain
mod Tests
use Prim.Native.String
use fxfill_enterprise_bankin.Common.{
  ℕ, String, Bool, true, false, not, List, [], ◌∷◌, length, ◌==◌, if◌then◌else◌,
}

pub record AuditEvent : Type 0 where
  pub event_id : String
  pub kind : String
  pub actor_id : String
  pub tenant_id : String
  pub session_id : String
  pub timestamp : String
  pub details : String
  pub previous_hash : String
  pub event_hash : String

pub record EvidenceBundle : Type 0 where
  pub bundle_id : String
  pub time_range_start : String
  pub time_range_end : String
  pub event_count : ℕ
  pub hash_chain_verified : Bool
  pub controls_covered : List String

-- f"{event_id}|{timestamp}|{kind}|{details}|{previous_hash}"
unfoldable pub content : (event_id timestamp kind details previous_hash : String) → String
content event_id timestamp kind details previous_hash = String.◌++◌ event_id (
    String.◌++◌ "|" (
      String.◌++◌ timestamp (
        String.◌++◌ "|" (
          String.◌++◌ kind
            (String.◌++◌ "|" (String.◌++◌ details (String.◌++◌ "|" previous_hash)))))))

-- events[-1].timestamp
abbrev pub last_timestamp : String → List AuditEvent → String
last_timestamp t [] = t
last_timestamp t (e ∷ es) = last_timestamp e.timestamp es

module _ (sha256 : String → String) where
  unfoldable pub compute_hash : (event_id timestamp kind details previous_hash : String) → String
  unfolding content
  compute_hash event_id timestamp kind details previous_hash =
      sha256 (content event_id timestamp kind details previous_hash)

  -- The loop over the events after the first, with the hash of the event before.
  unfoldable pub chain_ok : String → List AuditEvent → Bool
  chain_ok before [] = true
  chain_ok before (e ∷ es) =
      let rest = chain_ok e.event_hash es in
      if not (e.event_hash == compute_hash e.event_id e.timestamp e.kind e.details before)
      then false
      else rest

  unfoldable pub build_evidence_bundle : String → List AuditEvent → List String → EvidenceBundle
  build_evidence_bundle bundle_id [] controls = record {
    bundle_id = bundle_id;
    time_range_start = "";
    time_range_end = "";
    event_count = 0;
    hash_chain_verified = true;
    controls_covered = controls;
  }
  build_evidence_bundle bundle_id (e ∷ es) controls = record {
    bundle_id = bundle_id;
    time_range_start = e.timestamp;
    time_range_end = last_timestamp e.timestamp es;
    event_count = length (e ∷ es);
    hash_chain_verified = chain_ok e.event_hash es;
    controls_covered = controls;
  }
