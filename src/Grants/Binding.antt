-- ===== src/Grants/Binding.antt =====
-- What a claim of grant_repo.py checks: the grant authorises exactly the operation that was shown
-- to the approver.
use fxfill_enterprise_bankin.Common.{
  ℕ, String, ◌≡◌, ◌↔◌, ◌⊎◌, refl, true, Option, none, some, List, arith, eq_iff, inl, inr,
  Option-cases,
}
use fxfill_enterprise_bankin.Grants.{
  GrantRecord, ConsumeRequest, approved, get_by_session, claims, to_consuming, atomic_consume,
  matches_optional, unexpired,
}
use fxfill_enterprise_bankin.Grants.Statements.{IsTable, atomic_consume_outcome}

-- The condition on a nullable column: NULL, the value asked for, or nothing asked for.
abbrev pub Fits : Option String → String → Type 0
Fits column arg = (column ≡ none) ⊎ ((column ≡ some arg) ⊎ (arg ≡ ""))

-- A grant authorises a claim at a time.
pub record Authorises (sha256 : String → String) (g : GrantRecord) (q : ConsumeRequest) (now : ℕ)
    : Type 0 where
  pub status : g.status ≡ approved
  pub version : g.version ≡ q.version
  pub user : g.requesting_user_id ≡ q.user_id
  pub thread : g.thread_id ≡ q.thread_id
  pub actor :
      (g.approving_actor_id ≡ q.approving_actor_id)
      ⊎ ((g.approving_actor_id ≡ "") ⊎ (q.approving_actor_id ≡ ""))
  pub run_id : Fits g.run_id q.run_id
  pub checkpoint : Fits g.checkpoint_id q.checkpoint_id
  pub tool_call : g.tool_call_id ≡ q.tool_call_id
  pub tool_name : g.tool_name ≡ q.tool_name
  pub digest : g.argument_digest ≡ sha256 q.tool_args
  pub key : g.idempotency_key ≡ q.idempotency_key
  pub unexpired_at : unexpired g.expires_at now ≡ true

matches_sound : (o : Option String) (arg : String) → matches_optional o arg ≡ true → Fits o arg
matches_sound none arg h = inl refl
matches_sound (some v) arg h = ground (arith, eq_iff v arg, eq_iff arg "")

matches_complete : (o : Option String) (arg : String) → Fits o arg → matches_optional o arg ≡ true
matches_complete none arg h = refl
matches_complete (some v) arg h = ground (arith, eq_iff v arg, eq_iff arg "")

module _ (sha256 : String → String) (g : GrantRecord) (q : ConsumeRequest) (now : ℕ) where
  pub claims_sound : claims (sha256 q.tool_args) q now g ≡ true → Authorises sha256 g q now
  unfolding claims
  claims_sound h = record {
    status = ground arith;
    version = ground arith;
    user = ground (arith, eq_iff g.requesting_user_id q.user_id);
    thread = ground (arith, eq_iff g.thread_id q.thread_id);
    actor = ground (
      arith,
      eq_iff g.approving_actor_id q.approving_actor_id,
      eq_iff g.approving_actor_id "",
      eq_iff q.approving_actor_id "",
    );
    run_id = matches_sound g.run_id q.run_id (ground arith);
    checkpoint = matches_sound g.checkpoint_id q.checkpoint_id (ground arith);
    tool_call = ground (arith, eq_iff g.tool_call_id q.tool_call_id);
    tool_name = ground (arith, eq_iff g.tool_name q.tool_name);
    digest = ground (arith, eq_iff g.argument_digest (sha256 q.tool_args));
    key = ground (arith, eq_iff g.idempotency_key q.idempotency_key);
    unexpired_at = ground arith;
  }

  pub claims_complete : Authorises sha256 g q now → claims (sha256 q.tool_args) q now g ≡ true
  unfolding claims
  claims_complete a = ground (
    arith,
    eq_iff g.requesting_user_id q.user_id,
    eq_iff g.thread_id q.thread_id,
    eq_iff g.approving_actor_id q.approving_actor_id,
    eq_iff g.approving_actor_id "",
    eq_iff q.approving_actor_id "",
    matches_complete g.run_id q.run_id a.run_id,
    matches_complete g.checkpoint_id q.checkpoint_id a.checkpoint,
    eq_iff g.tool_call_id q.tool_call_id,
    eq_iff g.tool_name q.tool_name,
    eq_iff g.argument_digest (sha256 q.tool_args),
    eq_iff g.idempotency_key q.idempotency_key,
  )

-- In a table with unique session ids, a claim hands a grant out exactly when the grant stored under the session is APPROVED, agrees
-- with the request on version, user, thread, call, tool, argument digest and key, fits its actor,
-- run and checkpoint where both sides name one, and has not expired; what is handed out is that
-- grant, now CONSUMING.
pub atomic_consume_iff :
    (sha256 : String → String) (q : ConsumeRequest) (now : ℕ) (rows : List GrantRecord)
    (out : GrantRecord)
    → IsTable rows
    → ((atomic_consume sha256 q now rows).0 ≡ some out) ↔ (
        (g : GrantRecord) × (get_by_session q.session_id rows ≡ some g)
        × Authorises sha256 g q now
        × (out ≡ to_consuming now g))
atomic_consume_iff sha256 q now rows out u = (
  λ h. elim (Option-cases (get_by_session q.session_id rows)) [
    | inl e ↦ absurd (ground (arith, atomic_consume_outcome sha256 q now rows u))
    | inr (g, e) ↦ (
      g,
      e,
      claims_sound sha256 g q now (ground (arith, atomic_consume_outcome sha256 q now rows u)),
      ground (arith, atomic_consume_outcome sha256 q now rows u),
    )
  ],
  λ (g, e, a, same).
      ground (arith, atomic_consume_outcome sha256 q now rows u, claims_complete sha256 g q now a),
)
