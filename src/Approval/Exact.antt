-- ===== src/Approval/Exact.antt =====
-- What approval_executor.py sends, and when.
use fxfill_enterprise_bankin.Common.{
  ℕ, String, ◌≡◌, ◌⊎◌, refl, Bool, false, Option, none, some, List, [], ◌∷◌, ◌++◌, arith, ◌==◌,
  if◌then◌else◌, inl, inr, Option-cases, Bool-cases, ap, sym, ◌∙◌,
}
use fxfill_enterprise_bankin.Sql
use fxfill_enterprise_bankin.Hitl
use fxfill_enterprise_bankin.Hitl.{HitlSession, HitlSessionStatus, is_terminal, is_expired}
use fxfill_enterprise_bankin.Idempotency
use fxfill_enterprise_bankin.Idempotency.{IdempotencyRecord, IdempotencyStatus}
use fxfill_enterprise_bankin.Grants
use fxfill_enterprise_bankin.Grants.{
  GrantRecord, GrantStatus, to_approved, to_consuming, is_pending_at,
}
use fxfill_enterprise_bankin.Grants.Statements.{IsTable, get-approve_pending}
use fxfill_enterprise_bankin.Grants.Lifecycle.{do_approve, apply}
use fxfill_enterprise_bankin.Grants.SingleClaim.{apply-IsTable}
use fxfill_enterprise_bankin.Grants.Binding.{atomic_consume_iff}
use fxfill_enterprise_bankin.Approval.{
  McpOutcome, Dispatch, World, Env, Outcome, raised, persist_event, finish, dispatch,
  reserve_and_dispatch, deny_replay, idem_key, check_idempotency, claim_request, claim, approve_as,
  after_grant, require_reconciliation, approve_session, approve,
}

-- Nothing was sent, or just the session's tool with the session's arguments.
abbrev SendsOnly : String → HitlSession → List Dispatch → List Dispatch → Type 0
SendsOnly sid s before after =
    (after ≡ before)
    ⊎ (after
        ≡ before
          ++ record {
            session_id = sid;
            call = record { name = s.tool_name; arguments = s.tool_args };
          }
            ∷ [])

-- The digest stored with a grant is that of the arguments stored with it.
abbrev pub IsDigested : (String → String) → Option GrantRecord → Type 0
IsDigested sha256 none = Unit
IsDigested sha256 (some g) = g.argument_digest ≡ sha256 g.canonical_tool_args

module _ (env : Env) (sid : String) (s : HitlSession) where
  pub finish_sends :
      (key : String) (o : McpOutcome) (w : World)
      → (finish env sid s key o w).1.dispatched ≡ w.dispatched
  unfolding persist_event
  finish_sends key McpOutcome.raised w = refl
  finish_sends key (McpOutcome.returned r) w = ground arith

  module _ (claimed : GrantRecord) (readable : env.loads s.tool_args ≡ some s.tool_args)
      (same_tool : claimed.tool_name ≡ s.tool_name)
      (same_args : claimed.canonical_tool_args ≡ s.tool_args) where
    reserve_and_dispatch_sends :
        (key : String) (w : World)
        → SendsOnly sid s w.dispatched (reserve_and_dispatch env sid s claimed key w).1.dispatched
    unfolding reserve_and_dispatch dispatch persist_event
    reserve_and_dispatch_sends key w =
        by_args (env.loads claimed.canonical_tool_args) (rw same_args readable)
      where
        by_args :
            (a : Option String)
            → a ≡ some s.tool_args
            → let w' = record w {
              records = Idempotency.reserve key s.tool_name s.tool_args (env.now 9) w.records;
            } in
              SendsOnly sid s w.dispatched
                (elim a as (λ _. Outcome × World) [
                  | none ↦ (raised, w')
                  | some args ↦
                      dispatch env sid s key
                        (record { name = claimed.tool_name; arguments = args })
                        w'
                ]).1.dispatched
        by_args none e = cc
        by_args (some args) e = inr (
            finish_sends key (env.mcp (record { name = claimed.tool_name; arguments = args })) _
            ∙ (cc))

    check_idempotency_sends :
        (w : World)
        → SendsOnly sid s w.dispatched (check_idempotency env sid s claimed w).1.dispatched
    unfolding check_idempotency deny_replay persist_event
    check_idempotency_sends w = ground (arith, reserve_and_dispatch_sends (idem_key sid s) w)

  module _ (injective : (a b : String) → env.sha256 a ≡ env.sha256 b → a ≡ b)
      (readable : env.loads s.tool_args ≡ some s.tool_args) where
    IsDigested-after :
        (actor : String) (now : ℕ) (b : Bool) (o : Option GrantRecord)
        → IsDigested env.sha256 o
        → IsDigested env.sha256
            (if b then Sql.touched (is_pending_at 1) (to_approved actor now) o else o)
    IsDigested-after actor now b none d = ground arith
    IsDigested-after actor now b (some g) d = ground arith

    claim_sends :
        (actor : String) (w : World)
        → IsTable w.grants
        → IsDigested env.sha256 (Grants.get_by_session sid w.grants)
        → SendsOnly sid s w.dispatched (claim env sid s actor w).1.dispatched
    unfolding claim persist_event
    claim_sends actor w u d =
        elim (Option-cases
          (Grants.atomic_consume env.sha256 (claim_request sid s actor) (env.now 5) w.grants).0) [
            | inl e ↦ rw (e, claim) (inl refl)
            | inr (out, e) ↦
                rw (e, claim)
                  (let (g, found, a, same) =
                      (atomic_consume_iff env.sha256 (claim_request sid s actor) (env.now 5)
                          w.grants out u).0
                        e in
                    check_idempotency_sends out readable (ground (arith))
                      (ap (λ (x : GrantRecord). x.canonical_tool_args) same
                        ∙ injective g.canonical_tool_args s.tool_args
                            (sym (rw found at d) ∙ a.digest))
                      _)
          ]

    -- What `approve` may send, and when.
    abbrev Sends : World → World → Type 0
    Sends w w' =
        (w'.dispatched ≡ w.dispatched)
        ⊎ ((actor : String) × (env.actor ≡ some actor)
            × (is_terminal s.status ≡ false)
            × (is_expired (env.now 0) s ≡ false)
            × ((s.tool_call_id == "") ≡ false)
            × (w'.dispatched
                ≡ w.dispatched
                  ++ record {
                    session_id = sid;
                    call = record { name = s.tool_name; arguments = s.tool_args };
                  }
                    ∷ []))

    approve_as_sends :
        (actor : String) (w : World)
        → IsTable w.grants
        → IsDigested env.sha256 (Grants.get_by_session sid w.grants)
        → SendsOnly sid s w.dispatched (approve_as env sid s actor w).1.dispatched
    unfolding approve_as persist_event apply
    approve_as_sends actor w u d = ground (
      arith,
      claim_sends actor (after_grant env sid s actor w)
          (apply-IsTable env.sha256 (do_approve sid actor 1 (env.now 3)) w.grants u)
          (rw (get-approve_pending sid sid (env.now 3) w.grants actor 1) (
            IsDigested-after actor (env.now 3) (sid == sid) (Grants.get_by_session sid w.grants)
              d)),
    )

    approve_session-Sends :
        (w : World)
        → IsTable w.grants
        → IsDigested env.sha256 (Grants.get_by_session sid w.grants)
        → Sends w (approve_session env sid s w).1
    unfolding approve_session require_reconciliation persist_event
    approve_session-Sends w u d = elim (Option-cases env.actor) [
      | inl e ↦ inl (ground arith)
      | inr (actor, e) ↦ elim (Bool-cases (is_terminal s.status)) [
        | inl done ↦ inl (ground arith)
        | inr open_ ↦ elim (Bool-cases (is_expired (env.now 0) s)) [
          | inl late ↦ inl (ground arith)
          | inr in_time ↦ elim (Bool-cases (s.tool_call_id == "")) [
            | inl bare ↦ inl (ground arith)
            | inr named ↦ elim (approve_as_sends actor w u d) [
              | inl none_sent ↦ inl (ground arith)
              | inr one_sent ↦ inr (actor, e, open_, in_time, named, ground arith)
            ]
          ]
        ]
      ]
    ]

-- What an approval sends is what was approved. For a stored session whose arguments are JSON text
-- that reads back as itself, a grant whose digest is that of its own arguments, and a digest
-- without collisions: `approve` sends nothing; or it sends one call, of the session's tool with
-- the session's arguments, and then an actor was resolved, the session was neither decided nor
-- expired, and its tool call id is not empty.
pub approve_sends_what_was_approved :
    (env : Env) (sid : String) (s : HitlSession) (w : World)
    (injective : (a b : String) → env.sha256 a ≡ env.sha256 b → a ≡ b)
    → env.loads s.tool_args ≡ some s.tool_args
    → Hitl.get sid w.sessions ≡ some s
    → IsTable w.grants
    → IsDigested env.sha256 (Grants.get_by_session sid w.grants)
    → (((approve env sid w).1.dispatched ≡ w.dispatched)
        ⊎ ((actor : String) × (env.actor ≡ some actor)
            × (is_terminal s.status ≡ false)
            × (is_expired (env.now 0) s ≡ false)
            × ((s.tool_call_id == "") ≡ false)
            × ((approve env sid w).1.dispatched
                ≡ w.dispatched
                  ++ record {
                    session_id = sid;
                    call = record { name = s.tool_name; arguments = s.tool_args };
                  }
                    ∷ [])))
unfolding approve
approve_sends_what_was_approved env sid s w injective readable found u d =
    rw (found, approve) (approve_session-Sends env sid s injective readable w u d)
