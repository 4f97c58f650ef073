-- ===== src/Graph/State.antt =====
-- The state and the environment of the tool node, and how it names and classifies a call.
use text.Mathlib.Text.{find?}
use Prim.Native.String
use fxfill_enterprise_bankin.Common.{
  ℕ, String, Bool, ◌&&◌, Option, none, some, List, [], ◌∷◌, ◌++◌, any, is_nonempty, if◌then◌else◌,
}
use fxfill_enterprise_bankin.Auth.{OperationKind, Operation, Gateway}
use fxfill_enterprise_bankin.Approval.State.{ToolCall, McpOutcome}
use fxfill_enterprise_bankin.Idempotency.{IdempotencyRecord}
use fxfill_enterprise_bankin.Tools
use fxfill_enterprise_bankin.Tools.{ToolDefinition, ToolRegistry, RiskLevel, is_some}
use fxfill_enterprise_bankin.Tools.Validation.{Json, Fields, ErrorCode}

-- A tool call of an AI message.
pub record Proposal : Type 0 where
  pub id : String
  pub name : String
  pub args : String

-- The text of a tool message, by the branch that writes it.
pub data Content : Type 0 where
  call_rejected : ErrorCode → Content
  already_executed authorization_denied operation_rejected invalid_response outcome_unknown :
      Content
  idempotent : Option String → Content
  output : String → Content
  failure : Option String → Content

pub record ToolMessage : Type 0 where
  pub content : Content
  pub tool_call_id : String
  pub name : String

-- The value of `Command(resume=...)`.
pub data Resume : Type 0 where
  approved_with : (canonical_args : Option String) → Resume
  rejected_by_human other_value : Resume

-- A call that went to the MCP client, with the id it was made for.
pub record Sent : Type 0 where
  pub tool_call_id : String
  pub call : ToolCall

pub record Node : Type 0 where
  pub records : List IdempotencyRecord
  pub gateway : Gateway
  pub executed_ids : List String
  pub results : List ToolMessage
  pub resumes : List Resume
  pub dispatched : List Sent

-- The dependencies of the node, its session id, and what lies outside: `json.loads`, the dict that
-- a canonical text stands for, `str.lower`, the MCP
-- server, and the clock (`now tc i` is the i-th reading while tc is handled).
pub record NodeEnv : Type 0 where
  pub registry : Option ToolRegistry
  pub has_store : Bool
  pub session_id : String
  pub loads : String → Option Json
  pub dict_of : String → Fields
  pub lower : String → String
  pub mcp : ToolCall → McpOutcome
  pub now : Proposal → ℕ → ℕ

-- The node goes on, suspends at an interrupt, or raises with the MCP client.
pub data Progress : Type 0 where
  continues : Node → Progress
  suspends : Proposal → Node → Progress
  raises : Node → Progress

abbrev pub node_of : Progress → Node
node_of (Progress.continues n) = n
node_of (Progress.suspends tc n) = n
node_of (Progress.raises n) = n

-- w in name
abbrev pub has_part : String → String → Bool
has_part name w = is_some (find? name w)

-- `_classify_tool_kind`
unfoldable pub classify_tool_kind : (String → String) → String → OperationKind
classify_tool_kind lower name =
    let n = lower name in
    if any (has_part n) ("transfer" ∷ "wire" ∷ "send" ∷ "pay" ∷ [])
    then OperationKind.transfer
    else if any (has_part n) ("delete" ∷ "remove" ∷ "purge" ∷ "close" ∷ [])
    then OperationKind.delete
    else if any (has_part n)
        ("update" ∷ "modify" ∷ "change" ∷ "set" ∷ "write" ∷ "create" ∷ "add" ∷ [])
    then OperationKind.write
    else OperationKind.read

-- `_kind_from_metadata`
unfoldable pub kind_from_metadata : ToolDefinition → OperationKind
kind_from_metadata t =
    if t.side_effect
    then (elim t.risk_level [
      | RiskLevel.critical ↦ OperationKind.transfer
      | _ ↦ OperationKind.write
    ])
    else OperationKind.read

abbrev pub kind_by : NodeEnv → String → Option ToolDefinition → OperationKind
kind_by env name none = classify_tool_kind env.lower name
kind_by env name (some t) = kind_from_metadata t

abbrev pub registered : Option ToolRegistry → String → Option ToolDefinition
registered none name = none
registered (some r) name = Tools.get name r

unfoldable pub operation_kind : NodeEnv → String → OperationKind
operation_kind env name = kind_by env name (registered env.registry name)

abbrev pub operation : NodeEnv → Proposal → Operation
operation env tc = record {
  kind = operation_kind env tc.name;
  name = tc.name;
  target = String.◌++◌ "tool:" tc.name;
  details = record {
    args = tc.args;
    session_id = "";
    user_id = "";
    thread_id = "";
    idempotency_key = "";
  };
}

abbrev pub say : Proposal → Content → Node → Node
say tc c n = record n {
  results = n.results ++ record { content = c; tool_call_id = tc.id; name = tc.name } ∷ [];
}

-- executed_ids.add(tool_id), for an id that is not empty
abbrev pub mark_executed : Proposal → Node → Node
mark_executed tc n =
    if is_nonempty tc.id then record n { executed_ids = tc.id ∷ n.executed_ids } else n

unfoldable pub idem_key : NodeEnv → Proposal → String
idem_key env tc = String.◌++◌ env.session_id (String.◌++◌ ":" tc.id)

-- idem_key and idem_store is not None
abbrev pub keeps_records : NodeEnv → Proposal → Bool
keeps_records env tc = is_nonempty tc.id && env.has_store
