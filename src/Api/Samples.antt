-- ===== src/Api/Samples.antt =====
-- Environments, requests and tables, on which Tests runs the endpoints.
use fxfill_enterprise_bankin.Common.{ℕ, true, false, none, some, List, [], ◌∷◌}
use fxfill_enterprise_bankin.Tools.Validation.{Fields}
use fxfill_enterprise_bankin.Approval.{World, Env}
use fxfill_enterprise_bankin.Approval.State.{McpOutcome}
use fxfill_enterprise_bankin.Graph.{Proposal, NodeEnv}
use fxfill_enterprise_bankin.Api.{ApiEnv, Interrupt, session_for, grant_for}
use fxfill_enterprise_bankin.Api.RateLimit.{Limits, Hit}
use fxfill_enterprise_bankin.Iam.{Context}
use fxfill_enterprise_bankin.Routing.{IntentResult, Intent, IntentConfidence}
use fxfill_enterprise_bankin.Graph.Loop.{Reply}
use fxfill_enterprise_bankin.Api.{AgentRequest}
use fxfill_enterprise_bankin.Samples.{digest, env_of, mcp_answers}

abbrev pub transfer : Proposal
transfer = record { id = "c1"; name = "submit_transfer"; args = "{draft: 7}" }

abbrev pub tools : NodeEnv
tools = record {
  registry = none;
  has_store = true;
  session_id = "s1";
  loads = λ t. none;
  dict_of = λ t. Fields.no_fields;
  lower = λ t. t;
  mcp = mcp_answers;
  now = λ tc i. 100;
}

abbrev pub api : ApiEnv
api = record {
  agent = record {
    classify = none;
    direct = record { extract = λ t m. none; mcp = λ c. McpOutcome.raised };
    planning = record {
      visited = λ xs. xs;
      texts = record { strip = λ t. t; lower = λ t. t; is_in = λ s t. false };
      show = λ n. "1";
      plan_id = "p";
      reply = λ n. none;
    };
    steps = record { registry = none; mcp = λ sent. mcp_answers; now = λ sent. 100 };
    graph = record { tools = tools; max_agent_steps = 5; llm = λ h. none };
    recursion_limit = 25;
    inform = λ m. none;
    transfer = λ m. none;
  };
  sha256 = digest;
  len = λ t. 3;
  now = 10;
  fresh_id = "r1";
  has_sessions = true;
  has_grants = true;
}

abbrev pub asked : Interrupt
asked = record { session_id = "s1"; call = transfer }

abbrev pub empty : World
empty = record { sessions = []; grants = []; records = []; events = []; dispatched = [] }

abbrev pub waiting : World
waiting = record empty {
  sessions = session_for api "s1" "alice" asked ∷ [];
  grants = grant_for api "s1" "alice" asked ∷ [];
}

abbrev pub bob : Env
bob = env_of (some "bob")

abbrev pub other : Proposal
other = record { id = "c2"; name = "submit_transfer"; args = "{draft: 8}" }

abbrev pub reply : Reply
reply = record { content = ""; tool_calls = transfer ∷ [] }

abbrev pub to_transfer : IntentResult
to_transfer = record {
  intent = Intent.transfer_create;
  confidence = IntentConfidence.high;
  sub_intents = [];
  suggested_tools = [];
}

abbrev pub transfer_api : ApiEnv
transfer_api = record api {
  agent = record api.agent {
    classify = some (λ m. to_transfer);
    transfer = λ m. some reply;
    graph = record api.agent.graph { llm = λ h. some reply };
  };
}

abbrev pub pay : AgentRequest
pay = record { message = "pay"; session_id = some "s1" }

abbrev pub alice : Context
alice = record { subject_id = "alice"; tenant_id = "t"; roles = [] }

abbrev pub hit_at : ℕ → Hit
hit_at t = record { tenant = "bank"; path = "/agent"; time = t }

abbrev pub hits : List Hit
hits = hit_at 1 ∷ hit_at 2 ∷ hit_at 3 ∷ hit_at 61 ∷ hit_at 62 ∷ []

abbrev pub two_a_minute : Limits
two_a_minute = record { max_requests = 2; window = 60 }
