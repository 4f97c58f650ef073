-- ===== src/Api/Approved.antt =====
-- From an interrupt that api.py stores to the call that approval_executor.py sends.
use fxfill_enterprise_bankin.Common.{
  String, ◌≡◌, refl, sym, ap, ◌∙◌, true, false, Option, none, some, List, ◌==◌, eq_iff, eq_self,
  arith, inl, inr, Option-cases,
}
use fxfill_enterprise_bankin.Sql
use fxfill_enterprise_bankin.Sql.{find-insert, insert_fresh, insert-IsUnique}
use fxfill_enterprise_bankin.Hitl
use fxfill_enterprise_bankin.Hitl.{HitlSession, is_terminal, is_expired}
use fxfill_enterprise_bankin.Idempotency
use fxfill_enterprise_bankin.Grants
use fxfill_enterprise_bankin.Grants.{GrantRecord}
use fxfill_enterprise_bankin.Grants.Statements.{IsTable, get-insert_pending, insert_pending-IsTable}
use fxfill_enterprise_bankin.Approval
use fxfill_enterprise_bankin.Approval.{World, Env, approve, value_or}
use fxfill_enterprise_bankin.Approval.Completion.{IsApprovable, approvable_call_is_sent, with_call}
use fxfill_enterprise_bankin.Api.{
  ApiEnv, Response, Interrupt, interrupt_key, session_or, session_for, grant_for, store_session,
  store_grant, after_session, store_interrupt,
}

-- The rows that an accepted interrupt adds.
pub record Stored (env : ApiEnv) (sid subject : String) (i : Interrupt) (w w' : World)
    : Type 0 where
  pub sessions : List HitlSession
  pub grants : List GrantRecord
  pub session_in : Hitl.insert (session_for env sid subject i) w.sessions ≡ some sessions
  pub grant_in : Grants.insert_pending (grant_for env sid subject i) w.grants ≡ some grants
  pub result : w' ≡ record w { sessions = sessions; grants = grants }

module _ (env : ApiEnv) (with_both : (env.has_sessions ≡ true) × (env.has_grants ≡ true)) where
  grant_stored :
      (g : GrantRecord) (w w' : World)
      → store_grant env g w ≡ some w'
      → (rows : List GrantRecord) × (Grants.insert_pending g w.grants ≡ some rows)
        × (w' ≡ record w { grants = rows })
  unfolding store_grant
  grant_stored g w w' h = elim (Option-cases (Grants.insert_pending g w.grants)) [
    | inl e ↦ absurd (ground arith)
    | inr (rows, e) ↦ (rows, e, ground arith)
  ]

  session_stored :
      (s : HitlSession) (w w' : World)
      → store_session env s w ≡ some w'
      → (rows : List HitlSession) × (Hitl.insert s w.sessions ≡ some rows)
        × (w' ≡ record w { sessions = rows })
  unfolding store_session
  session_stored s w w' h = elim (Option-cases (Hitl.insert s w.sessions)) [
    | inl e ↦ absurd (ground arith)
    | inr (rows, e) ↦ (rows, e, ground arith)
  ]

  accepted_after :
      (g : GrantRecord) (w w' : World) (o : Option World) (sid : String)
      → after_session env g w o ≡ (Response.requires_approval sid, w')
      → (v : World) × (o ≡ some v) × (store_grant env g v ≡ some w') × (g.session_id ≡ sid)
  accepted_after g w w' none sid h = absurd (cc)
  accepted_after g w w' (some v) sid h = elim (Option-cases (store_grant env g v)) [
    | inl e ↦ absurd (ground arith)
    | inr (u, e) ↦ (v, refl, ground arith, ground arith)
  ]

  accepted :
      (payload : Option String) (subject sid : String) (i : Interrupt) (w w' : World)
      → store_interrupt env payload subject i w ≡ (Response.requires_approval sid, w')
      → Stored env sid subject i w w'
  unfolding store_interrupt grant_for
  accepted payload subject sid i w w' h =
      let k = session_or payload i in
      let (v, e, f, same) =
        accepted_after (grant_for env k subject i) w w'
          (store_session env (session_for env k subject i) w) sid h in
      let (ss, s_in, s_eq) = session_stored (session_for env k subject i) w v e in
      let (gs, g_in, g_eq) = grant_stored (grant_for env k subject i) v w' f in
      let untouched : v.grants ≡ w.grants = ap (λ (u : World). u.grants) s_eq in
      let g_in' = (rw untouched at g_in) in
      record {
        sessions = ss;
        grants = gs;
        session_in =
            ap (λ (x : String). Hitl.insert (session_for env x subject i) w.sessions) (sym same)
            ∙ s_in;
        grant_in =
            ap (λ (x : String). Grants.insert_pending (grant_for env x subject i) w.grants)
              (sym same)
            ∙ g_in';
        result = g_eq ∙ ap (λ (u : World). record u { grants = gs }) s_eq;
      }

clash_of_id :
    (new old : HitlSession) → old.session_id ≡ new.session_id → Hitl.clashes new old ≡ true
clash_of_id new old h = ground (arith, eq_iff old.session_id new.session_id)

own_key : (key : String) → key ≡ value_or (some key) ""
own_key key = ground (arith, eq_iff key "")

-- What has to hold for the approval of an accepted interrupt to be carried out.
pub record CanApprove (api : ApiEnv) (env : Env) (sid actor args : String) (i : Interrupt)
    (w : World) : Type 0 where
  pub sessions : Sql.IsUnique Hitl.session_key w.sessions
  pub grants : IsTable w.grants
  pub digest : env.sha256 i.call.args ≡ api.sha256 i.call.args
  pub tool_call : (i.call.id == "") ≡ false
  pub who : env.actor ≡ some actor
  pub unused : Idempotency.get (value_or (some (interrupt_key i)) sid) w.records ≡ none
  pub readable : env.loads i.call.args ≡ some args

pub stored-IsApprovable :
    (api : ApiEnv) (env : Env) (sid subject actor args : String) (i : Interrupt) (w w' : World)
    → Stored api sid subject i w w'
    → CanApprove api env sid actor args i w
    → IsApprovable env sid actor args
        (session_for api sid subject i)
        (Grants.as_pending (grant_for api sid subject i))
        w'
unfolding session_for grant_for Hitl.get Hitl.insert is_terminal is_expired Approval.idem_key
stored-IsApprovable api env sid subject actor args i w w' st c =
    let s = session_for api sid subject i in
    let g = grant_for api sid subject i in
    let fresh =
      insert_fresh Hitl.session_key Hitl.clashes clash_of_id s w.sessions st.sessions
        st.session_in in
    let found =
      find-insert Hitl.session_key Hitl.clashes sid s w.sessions st.sessions st.session_in fresh in
    let granted = (get-insert_pending g sid w.grants st.grants st.grant_in).1 in
    rw st.result (record {
      sessions =
          insert-IsUnique Hitl.session_key Hitl.clashes s w.sessions st.sessions st.session_in fresh
            c.sessions;
      grants = insert_pending-IsTable g w.grants st.grants st.grant_in c.grants;
      session = ground (arith, found, eq_self sid);
      open_session = refl;
      in_time = refl;
      tool_call = c.tool_call;
      who = c.who;
      grant = ground (arith, granted, eq_self sid);
      waiting = refl;
      version = refl;
      same_user = refl;
      same_thread = refl;
      same_run = refl;
      same_call = refl;
      same_tool = refl;
      same_digest = sym c.digest;
      same_key = own_key (interrupt_key i);
      grant_in_time = refl;
      unused = c.unused;
      readable = c.readable;
    })

-- An interrupt that the endpoint accepts can be approved: if it answers that the call requires
-- approval under a session, where both stores are configured, both tables have unique ids, the call
-- has an id and readable arguments, its key has no idempotency record and an actor is resolved, then
-- approving that session sends the call with the arguments that the interrupt had, once.
pub approved_interrupt_is_sent :
    (api : ApiEnv) (env : Env) (payload : Option String) (subject sid actor args : String)
    (i : Interrupt)
    → (w w' : World) → api.has_sessions ≡ true
    → api.has_grants ≡ true
    → store_interrupt api payload subject i w ≡ (Response.requires_approval sid, w')
    → CanApprove api env sid actor args i w
    → (approve env sid w').1.dispatched ≡ with_call sid i.call.name args w.dispatched
unfolding session_for grant_for
approved_interrupt_is_sent api env payload subject sid actor args i w w' hs hg h c =
    let st = accepted api (hs, hg) payload subject sid i w w' h in
    approvable_call_is_sent env sid actor args (session_for api sid subject i)
      (Grants.as_pending (grant_for api sid subject i)) w'
      (stored-IsApprovable api env sid subject actor args i w w' st c)
    ∙ ap (λ (u : World). with_call sid i.call.name args u.dispatched) st.result
