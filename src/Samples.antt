-- ===== src/Samples.antt =====
-- Concrete rows, requests and environments, on which the test modules run the code.
use fxfill_enterprise_bankin.Common.{ℕ, String, true, Option, none, some, [], ◌∷◌}
use fxfill_enterprise_bankin.Hitl.{HitlSession, HitlSessionStatus}
use fxfill_enterprise_bankin.Grants.{GrantRecord, GrantStatus, ConsumeRequest}
use fxfill_enterprise_bankin.Idempotency.{IdempotencyRecord, IdempotencyStatus}
use fxfill_enterprise_bankin.Approval.State.{ToolCall, ToolResult, McpOutcome, World, Env}

-- The digest and the JSON reader that keep every text apart.
abbrev pub digest : String → String
digest t = t

abbrev pub loads : String → Option String
loads t = some t

abbrev pub clock : ℕ → ℕ
clock i = 100

abbrev pub session_at : HitlSessionStatus → HitlSession
session_at st = record {
  session_id = "s1";
  user_id = "alice";
  thread_id = "t1";
  status = st;
  tool_name = "submit_transfer";
  tool_args = "{draft: 7}";
  authorization_decision = none;
  approval_requirement = none;
  idempotency_key = some "s1:c1";
  version = 1;
  created_at = 10;
  updated_at = 10;
  expires_at = some 500;
  tool_call_id = "c1";
}

abbrev pub grant_at : GrantStatus → GrantRecord
grant_at st = record {
  session_id = "s1";
  requesting_user_id = "alice";
  approving_actor_id = "";
  thread_id = "t1";
  run_id = some "s1";
  checkpoint_id = none;
  tool_call_id = "c1";
  tool_name = "submit_transfer";
  canonical_tool_args = "{draft: 7}";
  argument_digest = "{draft: 7}";
  idempotency_key = "s1:c1";
  decision = "PENDING";
  status = st;
  created_at = 10;
  approved_at = none;
  expires_at = some 500;
  consuming_at = none;
  consumed_at = none;
  failed_at = none;
  version = 1;
}

abbrev pub claim_of : String → ConsumeRequest
claim_of actor = record {
  session_id = "s1";
  user_id = "alice";
  approving_actor_id = actor;
  thread_id = "t1";
  run_id = "s1";
  checkpoint_id = "";
  tool_call_id = "c1";
  tool_name = "submit_transfer";
  tool_args = "{draft: 7}";
  idempotency_key = "s1:c1";
  version = 1;
}

abbrev pub record_at : IdempotencyStatus → IdempotencyRecord
record_at st = record {
  idempotency_key = "s1:c1";
  status = st;
  tool_name = "submit_transfer";
  tool_args = "{draft: 7}";
  result = none;
  error = none;
  created_at = 10;
  completed_at = none;
}

abbrev pub answer : ToolResult
answer = record { tool_name = "submit_transfer"; success = true; content = "sent"; error = none }

abbrev pub mcp_answers : ToolCall → McpOutcome
mcp_answers c = McpOutcome.returned answer

abbrev pub env_of : Option String → Env
env_of actor = record {
  sha256 = digest;
  loads = loads;
  mcp = mcp_answers;
  actor = actor;
  now = clock;
}

abbrev pub world_of : HitlSessionStatus → GrantStatus → World
world_of st gst = record {
  sessions = session_at st ∷ [];
  grants = grant_at gst ∷ [];
  records = [];
  events = [];
  dispatched = [];
}
