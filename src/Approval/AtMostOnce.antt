-- ===== src/Approval/AtMostOnce.antt =====
-- approval_executor.py sends the tool call of a session at most once.
use fxfill_enterprise_bankin.Common.{
  ℕ, ◌+◌, ◌≤◌, String, ◌≡◌, Bool, Option, none, some, List, [], ◌∷◌, ◌++◌, arith, ◌==◌,
  if◌then◌else◌, inl, inr, Option-cases, Bool-cases,
}
use fxfill_enterprise_bankin.Hitl
use fxfill_enterprise_bankin.Hitl.{HitlSession, HitlSessionStatus, is_terminal, is_expired}
use fxfill_enterprise_bankin.Idempotency
use fxfill_enterprise_bankin.Idempotency.{IdempotencyRecord, IdempotencyStatus}
use fxfill_enterprise_bankin.Grants
use fxfill_enterprise_bankin.Grants.{GrantRecord}
use fxfill_enterprise_bankin.Grants.Statements.{IsTable}
use fxfill_enterprise_bankin.Grants.Lifecycle.{
  Op, do_insert, do_approve, do_consume, do_consumed, do_failed, do_rejected, do_reconciliation,
  do_unknown, apply, wins, or_same,
}
use fxfill_enterprise_bankin.Grants.SingleClaim.{room, apply-IsTable, step_room}
use fxfill_enterprise_bankin.Approval.{
  McpOutcome, ToolCall, Dispatch, World, Env, persist_event, finish, dispatch, reserve_and_dispatch,
  deny_replay, by_existing, check_idempotency, claim_request, claim, approve_as, after_grant,
  require_reconciliation, approve_session, approve, reject_session, reject, Outcome, fail_with,
  checkpoint, actor_required, session_not_found, already,
}

-- How many calls were sent for a session.
unfoldable pub sent : String → List Dispatch → ℕ
sent k [] = 0
sent k (d ∷ ds) = (if d.session_id == k then 1 else 0) + sent k ds

sent-append :
    (k : String) (ds : List Dispatch) (d : Dispatch)
    → sent k (ds ++ d ∷ []) ≡ sent k ds + (if d.session_id == k then 1 else 0)
unfolding sent
sent-append k [] d = omega arith
sent-append k (e ∷ ds) d = omega (arith, sent-append k ds d)

-- The calls that were sent for a session and those that its grant still allows.
abbrev budget : String → World → ℕ
budget k w = sent k w.dispatched + room (Grants.get_by_session k w.grants)

-- The grants stay a table, and the budget grows by `extra` at most.
abbrev Spends : String → ℕ → World → World → Type 0
Spends k extra w w' = IsTable w'.grants × (budget k w' ≤ budget k w + extra)

abbrev one_if : Bool → ℕ
one_if b = if b then 1 else 0

-- A part of a call that runs one statement on the grants and sends nothing.
grants_step :
    (sha256 : String → String) (k : String) (op : Op) (w : World)
    → IsTable w.grants
    → Spends k 0 w (record w { grants = apply sha256 op w.grants })
grants_step sha256 k op w u =
    (apply-IsTable sha256 op w.grants u, omega (arith, step_room sha256 k op w.grants u))

module _ (env : Env) (k sid : String) (s : HitlSession) where
  finish-Spends :
      (key : String) (o : McpOutcome) (w : World)
      → IsTable w.grants
      → Spends k 0 w (finish env sid s key o w).1
  unfolding persist_event apply
  finish-Spends key McpOutcome.raised w u =
      grants_step env.sha256 k (do_unknown sid (env.now 11)) w u
  finish-Spends key (McpOutcome.returned r) w u = elim (Bool-cases r.success) [
    | inl e ↦ rw e (grants_step env.sha256 k (do_consumed sid (env.now 11)) w u)
    | inr e ↦ rw e (grants_step env.sha256 k (do_failed sid (env.now 11)) w u)
  ]

  dispatch-Spends :
      (key : String) (call : ToolCall) (w : World)
      → IsTable w.grants
      → Spends k (one_if (sid == k)) w (dispatch env sid s key call w).1
  unfolding dispatch persist_event
  dispatch-Spends key call w u =
      let started = checkpoint sid 3 "MCP_DISPATCH_STARTED" w in
      let h =
        finish-Spends key (env.mcp call)
          (record started {
            dispatched = started.dispatched ++ record { session_id = sid; call = call } ∷ [];
          })
          u in
      (
        h.0,
        omega (arith, h.1, sent-append k w.dispatched (record { session_id = sid; call = call })),
      )

  reserve_and_dispatch-Spends :
      (claimed : GrantRecord) (key : String) (w : World)
      → IsTable w.grants
      → Spends k (one_if (sid == k)) w (reserve_and_dispatch env sid s claimed key w).1
  unfolding reserve_and_dispatch
  reserve_and_dispatch-Spends claimed key w u =
      elim (Option-cases (env.loads claimed.canonical_tool_args)) [
        | inl e ↦ rw (e, reserve_and_dispatch) (u, omega arith)
        | inr (args, e) ↦
            rw (e, reserve_and_dispatch)
              (dispatch-Spends key (record { name = claimed.tool_name; arguments = args })
                (record w {
                  records = Idempotency.reserve key s.tool_name s.tool_args (env.now 9) w.records;
                })
                u)
      ]

  deny_replay-Spends :
      (st : IdempotencyStatus) (w : World)
      → IsTable w.grants
      → Spends k (one_if (sid == k)) w (deny_replay env sid s st w).1
  unfolding deny_replay persist_event apply
  deny_replay-Spends st w u =
      let h = grants_step env.sha256 k (do_failed sid (env.now 7)) w u in (h.0, omega (arith, h.1))

  by_existing-Spends :
      (claimed : GrantRecord) (key : String) (o : Option IdempotencyRecord) (w : World)
      → IsTable w.grants
      → Spends k (one_if (sid == k)) w (by_existing env sid s claimed key o w).1
  by_existing-Spends claimed key none w u = reserve_and_dispatch-Spends claimed key w u
  by_existing-Spends claimed key (some r) w u = by_status r.status
    where
      by_status :
          (st : IdempotencyStatus)
          → Spends k
              (one_if (sid == k))
              w
              (by_existing env sid s claimed key (some (record r { status = st })) w).1
      by_status IdempotencyStatus.succeeded = (u, omega arith)
      by_status IdempotencyStatus.failed = reserve_and_dispatch-Spends claimed key w u
      by_status IdempotencyStatus.reserved = deny_replay-Spends IdempotencyStatus.reserved w u
      by_status IdempotencyStatus.executing = deny_replay-Spends IdempotencyStatus.executing w u
      by_status IdempotencyStatus.unknown = deny_replay-Spends IdempotencyStatus.unknown w u

  check_idempotency-Spends :
      (claimed : GrantRecord) (w : World)
      → IsTable w.grants
      → Spends k (one_if (sid == k)) w (check_idempotency env sid s claimed w).1
  unfolding check_idempotency
  check_idempotency-Spends claimed w u =
      by_existing-Spends claimed _ (Idempotency.get _ w.records) w u

  claim-Spends :
      (actor : String) (w : World) → IsTable w.grants → Spends k 0 w (claim env sid s actor w).1
  unfolding claim persist_event apply wins
  claim-Spends actor w u =
      let q = claim_request sid s actor in
      let step = step_room env.sha256 k (do_consume q (env.now 5)) w.grants u in
      let u' = apply-IsTable env.sha256 (do_consume q (env.now 5)) w.grants u in
      elim (Option-cases (Grants.atomic_consume env.sha256 q (env.now 5) w.grants).0) [
        | inl e ↦ rw (e, claim) (u', omega (arith, (rw e at step)))
        | inr (g, e) ↦
            rw (e, claim)
              (let w' = record w {
                grants = apply env.sha256 (do_consume q (env.now 5)) w.grants;
              } in
                let h = check_idempotency-Spends g (checkpoint sid 1 "GRANT_CLAIMED" w') u' in
                (h.0, omega (arith, h.1, (rw e at step))))
      ]

  approve_as-Spends :
      (actor : String) (w : World)
      → IsTable w.grants
      → Spends k 0 w (approve_as env sid s actor w).1
  unfolding approve_as persist_event apply
  approve_as-Spends actor w u =
      let op = do_approve sid actor 1 (env.now 3) in
      let step = grants_step env.sha256 k op w u in
      let h = claim-Spends actor (after_grant env sid s actor w) step.0 in
      let tests = Bool-cases (Grants.approve_pending sid actor 1 (env.now 3) w.grants).0 in
      let updates =
        Bool-cases
          (Hitl.update_status sid HitlSessionStatus.approved s.version (env.now 4) w.sessions).0 in
      elim tests [
        | inl granted ↦ elim updates [
          | inl updated ↦ rw (granted, updated, approve_as) (h.0, omega (arith, h.1, step.1))
          | inr stale ↦ rw (granted, stale, approve_as) step
        ]
        | inr refused ↦ rw (refused, approve_as) step
      ]

  approve_session-Spends :
      (w : World) → IsTable w.grants → Spends k 0 w (approve_session env sid s w).1
  unfolding approve_session require_reconciliation persist_event apply
  approve_session-Spends w u =
      let same : Spends k 0 w w = (u, omega arith) in
      elim (Bool-cases (is_terminal s.status)) [
        | inl e ↦ rw e same
        | inr e ↦ rw e (elim (Bool-cases (is_expired (env.now 0) s)) [
          | inl e' ↦ rw e' same
          | inr e' ↦ rw e' (elim (Bool-cases (s.tool_call_id == "")) [
            | inl e'' ↦ rw e'' (grants_step env.sha256 k (do_reconciliation sid (env.now 2)) w u)
            | inr e'' ↦ rw e'' (by_actor env.actor)
          ])
        ])
      ]
    where
      by_actor :
          (a : Option String)
          → Spends k 0 w
              (elim a as (λ _. Outcome × World) [
                | none ↦ (fail_with sid actor_required, w)
                | some actor ↦ approve_as env sid s actor w
              ]).1
      by_actor none = (u, omega arith)
      by_actor (some actor) = approve_as-Spends actor w u

module _ (env : Env) (k sid : String) (w : World) where
  approve-Spends : IsTable w.grants → Spends k 0 w (approve env sid w).1
  unfolding approve
  approve-Spends u = by_session (Hitl.get sid w.sessions)
    where
      by_session :
          (o : Option HitlSession)
          → Spends k 0 w
              (elim o as (λ _. Outcome × World) [
                | none ↦ (fail_with sid session_not_found, w)
                | some s ↦ approve_session env sid s w
              ]).1
      by_session none = (u, omega arith)
      by_session (some s) = approve_session-Spends env k sid s w u

  reject_session-Spends :
      (s : HitlSession) (actor : String)
      → IsTable w.grants
      → Spends k 0 w (reject_session env sid s actor w).1
  unfolding reject_session persist_event apply
  reject_session-Spends s actor u =
      elim (Bool-cases
        (Hitl.update_status sid HitlSessionStatus.rejected s.version (env.now 0) w.sessions).0) [
          | inl e ↦
              rw (e, reject_session) (grants_step env.sha256 k (do_rejected sid (env.now 1)) w u)
          | inr e ↦ rw (e, reject_session) (u, omega arith)
        ]

  reject-Spends : IsTable w.grants → Spends k 0 w (reject env sid w).1
  unfolding reject
  reject-Spends u = by_session (Hitl.get sid w.sessions)
    where
      by_actor :
          (s : HitlSession) (a : Option String)
          → Spends k 0 w
              (elim a as (λ _. Outcome × World) [
                | none ↦ (fail_with sid actor_required, w)
                | some actor ↦ reject_session env sid s actor w
              ]).1
      by_actor s none = (u, omega arith)
      by_actor s (some actor) = reject_session-Spends s actor u

      by_session :
          (o : Option HitlSession)
          → Spends k 0 w
              (elim o as (λ _. Outcome × World) [
                | none ↦ (fail_with sid session_not_found, w)
                | some s ↦
                    if is_terminal s.status
                    then (fail_with sid (already s.status), w)
                    else (elim env.actor [
                      | none ↦ (fail_with sid actor_required, w)
                      | some actor ↦ reject_session env sid s actor w
                    ])
              ]).1
      by_session none = (u, omega arith)
      by_session (some s) = elim (Bool-cases (is_terminal s.status)) [
        | inl e ↦ rw e (u, omega arith)
        | inr e ↦ rw e (by_actor s env.actor)
      ]

-- What reaches the approval workflow: a paused operation is stored (the session and its grant, as
-- api.py does after an interrupt), and an operator decides.
pub data Request : Type 0 where
  pause : HitlSession → GrantRecord → Request
  decide_approve : Env → (session_id : String) → Request
  decide_reject : Env → (session_id : String) → Request

abbrev stored : World → Option (List HitlSession) → (GrantRecord) → World
stored w none g = w
stored w (some sessions') g = record w {
  sessions = sessions';
  grants = or_same w.grants (Grants.insert_pending g w.grants);
}

pub serve : Request → World → World
serve (pause s g) w = stored w (Hitl.insert s w.sessions) g
serve (decide_approve env sid) w = (approve env sid w).1
serve (decide_reject env sid) w = (reject env sid w).1

pub serve_all : List Request → World → World
serve_all [] w = w
serve_all (r ∷ rs) w = serve_all rs (serve r w)

stored-Spends :
    (k : String) (w : World) (o : Option (List HitlSession)) (g : GrantRecord)
    → IsTable w.grants
    → Spends k 0 w (stored w o g)
unfolding apply
stored-Spends k w none g u = (u, omega arith)
stored-Spends k w (some sessions') g u = grants_step (λ t. t) k (do_insert g) w u

serve-Spends : (k : String) (r : Request) (w : World) → IsTable w.grants → Spends k 0 w (serve r w)
unfolding serve
serve-Spends k (pause s g) w u = stored-Spends k w (Hitl.insert s w.sessions) g u
serve-Spends k (decide_approve env sid) w u = approve-Spends env k sid w u
serve-Spends k (decide_reject env sid) w u = reject-Spends env k sid w u

serve_all-Spends :
    (k : String) (rs : List Request) (w : World) → IsTable w.grants → Spends k 0 w (serve_all rs w)
unfolding serve_all
serve_all-Spends k [] w u = (u, omega arith)
serve_all-Spends k (r ∷ rs) w u =
    let h = serve-Spends k r w u in
    let t = serve_all-Spends k rs (serve r w) h.0 in (t.0, omega (arith, h.1, t.1))

room-le : (o : Option GrantRecord) → room o ≤ 1
room-le none = omega arith
room-le (some g) = ground arith

-- The approval workflow sends the call of a session at most once: from tables in which the grants
-- have their primary key and nothing was sent for the session, after any requests (approvals and
-- rejections, repeated or for other sessions, with any clock, actors, and answers or failures of
-- the MCP server), at most one call was sent for the session.
pub sent_at_most_once :
    (k : String) (rs : List Request) (w : World)
    → IsTable w.grants
    → sent k w.dispatched ≡ 0
    → sent k (serve_all rs w).dispatched ≤ 1
sent_at_most_once k rs w u none_sent =
    omega (arith, (serve_all-Spends k rs w u).1, room-le (Grants.get_by_session k w.grants))
