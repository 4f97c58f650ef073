-- ===== src/Approval/Tests.antt =====
-- Runs of approval_executor.py on one paused transfer.
use Prim.{tt}
use fxfill_enterprise_bankin.Common.{
  String, ◌≤◌, ◌≡◌, ◌⊎◌, refl, true, false, none, some, List, [], ◌∷◌, ◌==◌,
}
use fxfill_enterprise_bankin.Sql
use fxfill_enterprise_bankin.Hitl
use fxfill_enterprise_bankin.Hitl.{HitlSessionStatus, is_terminal, is_expired}
use fxfill_enterprise_bankin.Idempotency
use fxfill_enterprise_bankin.Idempotency.{fresh_record}
use fxfill_enterprise_bankin.Grants
use fxfill_enterprise_bankin.Grants.{GrantStatus}
use fxfill_enterprise_bankin.Grants.Statements.{IsTable}
use fxfill_enterprise_bankin.Approval.{
  World, Env, approve, approve_session, approve_as, claim, check_idempotency, reserve_and_dispatch,
  dispatch, persist_event, idem_key,
}
use fxfill_enterprise_bankin.Approval.Actor.{resolve_header, header, resolve_fixed}
use fxfill_enterprise_bankin.Approval.Completion.{IsApprovable, with_call, approvable_call_is_sent}
use fxfill_enterprise_bankin.Approval.AtMostOnce.{
  Request, decide_approve, decide_reject, serve_all, sent, sent_at_most_once,
}
use fxfill_enterprise_bankin.Approval.Exact.{IsDigested, approve_sends_what_was_approved}
use fxfill_enterprise_bankin.Approval.Outcomes.{is_approval}
use fxfill_enterprise_bankin.Samples.{session_at, grant_at, env_of, world_of}

abbrev paused : World
paused = world_of HitlSessionStatus.pending GrantStatus.pending

abbrev bob : Env
bob = env_of (some "bob")

grants-IsTable : IsTable paused.grants
unfolding Sql.find
grants-IsTable = (refl, tt)

paused_session : Hitl.get "s1" paused.sessions ≡ some (session_at HitlSessionStatus.pending)
unfolding Hitl.get Sql.find
paused_session = refl

grant-IsDigested : IsDigested bob.sha256 (Grants.get_by_session "s1" paused.grants)
unfolding Grants.get_by_session Sql.find
grant-IsDigested = refl

no_record :
    Idempotency.get (idem_key "s1" (session_at HitlSessionStatus.pending)) paused.records ≡ none
unfolding Idempotency.get Sql.find
no_record = refl

approved_now : is_approval (approve bob "s1" paused).0 ≡ true
unfolding approve approve_session approve_as claim check_idempotency reserve_and_dispatch dispatch
    persist_event idem_key is_terminal is_expired Hitl.get Hitl.update_status Grants.approve_pending
    Grants.atomic_consume Grants.claims Idempotency.get Idempotency.reserve Sql.find Sql.update
    Sql.rowcount Sql.first Sql.update_all Sql.rowcount_all Sql.insert Sql.insert_or_ignore
approved_now = refl

-- Two approvals of the same session, by two operators, and a rejection.
abbrev requests : List Request
requests =
    decide_approve bob "s1"
    ∷ decide_approve (env_of (some "carol")) "s1"
    ∷ decide_reject bob "s1"
    ∷ []

nothing_sent : sent "s1" paused.dispatched ≡ 0
unfolding sent
nothing_sent = refl

sent_at_most_once_example : sent "s1" (serve_all requests paused).dispatched ≤ 1
sent_at_most_once_example = sent_at_most_once "s1" requests paused grants-IsTable nothing_sent

approve_sends_what_was_approved_example :
    ((approve bob "s1" paused).1.dispatched ≡ [])
    ⊎ ((actor : String) × (some "bob" ≡ some actor)
        × (is_terminal HitlSessionStatus.pending ≡ false)
        × (is_expired 100 (session_at HitlSessionStatus.pending) ≡ false)
        × (("c1" == "") ≡ false)
        × ((approve bob "s1" paused).1.dispatched
            ≡ record {
              session_id = "s1";
              call = record { name = "submit_transfer"; arguments = "{draft: 7}" };
            }
              ∷ []))
approve_sends_what_was_approved_example =
    approve_sends_what_was_approved bob "s1" (session_at HitlSessionStatus.pending) paused
      (λ a b e. e) refl paused_session grants-IsTable grant-IsDigested

paused-IsTable : Sql.IsUnique Hitl.session_key paused.sessions
unfolding Sql.find
paused-IsTable = (refl, tt)

paused_grant : Grants.get_by_session "s1" paused.grants ≡ some (grant_at GrantStatus.pending)
unfolding Grants.get_by_session Sql.find
paused_grant = refl

undecided : is_terminal HitlSessionStatus.pending ≡ false
unfolding is_terminal
undecided = refl

not_expired : is_expired 100 (session_at HitlSessionStatus.pending) ≡ false
unfolding is_expired
not_expired = refl

paused-IsApprovable :
    IsApprovable bob "s1" "bob" "{draft: 7}"
      (session_at HitlSessionStatus.pending)
      (grant_at GrantStatus.pending)
      paused
paused-IsApprovable = record {
  sessions = paused-IsTable;
  grants = grants-IsTable;
  session = paused_session;
  open_session = undecided;
  in_time = not_expired;
  tool_call = refl;
  who = refl;
  grant = paused_grant;
  waiting = refl;
  version = refl;
  same_user = refl;
  same_thread = refl;
  same_run = refl;
  same_call = refl;
  same_tool = refl;
  same_digest = refl;
  same_key = refl;
  grant_in_time = refl;
  unused = no_record;
  readable = refl;
}

approvable_call_is_sent_example :
    (approve bob "s1" paused).1.dispatched ≡ with_call "s1" "submit_transfer" "{draft: 7}" []
approvable_call_is_sent_example =
    approvable_call_is_sent bob "s1" "bob" "{draft: 7}" (session_at HitlSessionStatus.pending)
      (grant_at GrantStatus.pending) paused paused-IsApprovable

abbrev executed : World
executed = world_of HitlSessionStatus.resumed GrantStatus.consumed

executed-IsTable : Sql.IsUnique Hitl.session_key executed.sessions
unfolding Sql.find
executed-IsTable = (refl, tt)

executed_session : Hitl.get "s1" executed.sessions ≡ some (session_at HitlSessionStatus.resumed)
unfolding Hitl.get Sql.find
executed_session = refl

executed_grant : Grants.get_by_session "s1" executed.grants ≡ some (grant_at GrantStatus.consumed)
unfolding Grants.get_by_session Sql.find
executed_grant = refl

header_names_actor :
    resolve_header "x-actor" (some (("accept", "*") ∷ ("x-actor", "bob") ∷ []))
    ≡ some (record { actor_id = "bob"; source = "header" })
unfolding resolve_header header
header_names_actor = refl

-- Without a context there is no actor.
no_context_no_actor : resolve_header "x-actor" none ≡ none
unfolding resolve_header
no_context_no_actor = refl

fixed_actor : resolve_fixed "test" none ≡ some (record { actor_id = "test"; source = "test" })
unfolding resolve_fixed
fixed_actor = refl
