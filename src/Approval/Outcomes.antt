-- ===== src/Approval/Outcomes.antt =====
-- How approval_executor.py ends, and what it leaves in the tables.
use fxfill_enterprise_bankin.Common.{
  String, ◌≡◌, Bool, true, false, Option, none, some, arith, eq_self, inl, inr, Option-cases,
}
use fxfill_enterprise_bankin.Sql
use fxfill_enterprise_bankin.Hitl
use fxfill_enterprise_bankin.Hitl.{HitlSession, HitlSessionStatus, is_terminal, is_expired}
use fxfill_enterprise_bankin.Hitl.Locking.{update_status_outcome, get-update_status}
use fxfill_enterprise_bankin.Idempotency
use fxfill_enterprise_bankin.Idempotency.{IdempotencyRecord, IdempotencyStatus, fresh_record}
use fxfill_enterprise_bankin.Idempotency.Lifecycle.{get-reserve, get-mark_succeeded}
use fxfill_enterprise_bankin.Grants
use fxfill_enterprise_bankin.Grants.{GrantRecord, GrantStatus}
use fxfill_enterprise_bankin.Grants.Statements.{get-mark_rejected}
use fxfill_enterprise_bankin.Approval.{
  McpOutcome, World, Env, Outcome, returned, raised, approved, rejected, result, persist_event,
  finish, dispatch, reserve_and_dispatch, idem_key, check_idempotency, claim_request, claim,
  approve_as, after_grant, require_reconciliation, approve_session, approve, reject_session, reject,
}

-- The call returned an approval.
abbrev pub is_approval : Outcome → Bool
is_approval raised = false
is_approval (returned r) = elim r.decision [ approved ↦ true | _ ↦ false ]

-- What `approve` leaves at an idempotency key.
abbrev Leaves : Env → HitlSession → String → Outcome × World → Type 0
Leaves env s key (o, w) =
    is_approval o ≡ true
    → Idempotency.get key w.records ≡ some (fresh_record key s.tool_name s.tool_args (env.now 9))

module _ (env : Env) (sid : String) (s : HitlSession) where
  finish-Leaves :
      (key : String) (o : McpOutcome) (w : World)
      → Idempotency.get key w.records ≡ some (fresh_record key s.tool_name s.tool_args (env.now 9))
      → Leaves env s key (finish env sid s key o w)
  unfolding persist_event
  finish-Leaves key McpOutcome.raised w h a = cc
  finish-Leaves key (McpOutcome.returned r) w h a =
      ground (arith, get-mark_succeeded key key w.records r.content (env.now 10))

  reserve_and_dispatch-Leaves :
      (claimed : GrantRecord) (key : String) (w : World)
      → Idempotency.get key w.records ≡ none
      → Leaves env s key (reserve_and_dispatch env sid s claimed key w)
  unfolding reserve_and_dispatch dispatch persist_event
  reserve_and_dispatch-Leaves claimed key w h = by_args (env.loads claimed.canonical_tool_args)
    where
      reserved_now :
          Idempotency.get key
            (Idempotency.reserve key s.tool_name s.tool_args (env.now 9) w.records)
          ≡ some (fresh_record key s.tool_name s.tool_args (env.now 9))
      reserved_now =
          ground
            (arith, get-reserve key key s.tool_name s.tool_args (env.now 9) w.records, eq_self key)

      by_args :
          (a : Option String)
          → let w' = record w {
            records = Idempotency.reserve key s.tool_name s.tool_args (env.now 9) w.records;
          } in
            Leaves env s key (elim a as (λ _. Outcome × World) [
              | none ↦ (raised, w')
              | some args ↦
                  dispatch env sid s key (record { name = claimed.tool_name; arguments = args }) w'
            ])
      by_args none = λ a. cc
      by_args (some args) = finish-Leaves key _ _ reserved_now

  check_idempotency-Leaves :
      (claimed : GrantRecord) (w : World)
      → Idempotency.get (idem_key sid s) w.records ≡ none
      → Leaves env s (idem_key sid s) (check_idempotency env sid s claimed w)
  unfolding check_idempotency
  check_idempotency-Leaves claimed w h =
      rw (h, check_idempotency) (reserve_and_dispatch-Leaves claimed (idem_key sid s) w h)

  claim-Leaves :
      (actor : String) (w : World)
      → Idempotency.get (idem_key sid s) w.records ≡ none
      → Leaves env s (idem_key sid s) (claim env sid s actor w)
  unfolding claim persist_event
  claim-Leaves actor w h =
      elim (Option-cases
        (Grants.atomic_consume env.sha256 (claim_request sid s actor) (env.now 5) w.grants).0) [
          | inl e ↦ rw (e, claim) (λ a. cc)
          | inr (g, e) ↦ rw (e, claim) (check_idempotency-Leaves g _ h)
        ]

  approve_as-Leaves :
      (actor : String) (w : World)
      → Idempotency.get (idem_key sid s) w.records ≡ none
      → Leaves env s (idem_key sid s) (approve_as env sid s actor w)
  unfolding approve_as persist_event
  approve_as-Leaves actor w h = ground (arith, claim-Leaves actor (after_grant env sid s actor w) h)

  approve_session-Leaves :
      (w : World)
      → Idempotency.get (idem_key sid s) w.records ≡ none
      → Leaves env s (idem_key sid s) (approve_session env sid s w)
  unfolding approve_session require_reconciliation persist_event
  approve_session-Leaves w h = elim (Option-cases env.actor) [
    | inl e ↦ ground arith
    | inr (actor, e) ↦ ground (arith, approve_as-Leaves actor w h)
  ]

-- After an approval that executed its tool, the idempotency record of the operation is still
-- RESERVED: whenever `approve` reports an approval for a session whose key had no record, the
-- record that it leaves is the one `reserve` wrote, with no result. (`mark_succeeded` wants an
-- EXECUTING record, and nothing marks it EXECUTING.)
pub approval_leaves_reserved :
    (env : Env) (sid : String) (s : HitlSession) (w : World)
    → Hitl.get sid w.sessions ≡ some s
    → Idempotency.get (idem_key sid s) w.records ≡ none
    → is_approval (approve env sid w).0 ≡ true
    → Idempotency.get (idem_key sid s) (approve env sid w).1.records
      ≡ some (fresh_record (idem_key sid s) s.tool_name s.tool_args (env.now 9))
unfolding approve
approval_leaves_reserved env sid s w found h =
    rw (found, approve) (approve_session-Leaves env sid s w h)

-- A session whose operation was executed (RESUMED, with a CONSUMED grant) can still be rejected: for
-- every such session of a table with unique ids and every resolved operator, `reject` answers
-- "rejected" and writes REJECTED over RESUMED, and the grant stays CONSUMED.
pub resumed_session_is_rejected :
    (env : Env) (sid actor : String) (s : HitlSession) (g : GrantRecord) (w : World)
    → Sql.IsUnique Hitl.session_key w.sessions
    → Hitl.get sid w.sessions ≡ some s
    → s.status ≡ HitlSessionStatus.resumed
    → Grants.get_by_session sid w.grants ≡ some g
    → g.status ≡ GrantStatus.consumed
    → env.actor ≡ some actor
    → let (o, w') = reject env sid w in
      (o ≡ result rejected sid (some "Operation was rejected by human operator.") none)
      × (Hitl.get sid w'.sessions
          ≡ some (Hitl.with_status HitlSessionStatus.rejected (env.now 0) s))
      × (Grants.get_by_session sid w'.grants ≡ some g)
unfolding reject reject_session persist_event is_terminal
resumed_session_is_rejected env sid actor s g w u found st granted done who = ground (
  arith,
  update_status_outcome sid HitlSessionStatus.rejected s.version (env.now 0) w.sessions u,
  get-update_status sid HitlSessionStatus.rejected s.version (env.now 0) w.sessions sid,
  get-mark_rejected sid sid (env.now 1) w.grants,
  eq_self sid,
)
