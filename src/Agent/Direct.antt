-- ===== src/Agent/Direct.antt =====
-- agent.py, `_execute_direct`.
use fxfill_enterprise_bankin.Common.{
  String, Bool, true, ◌&&◌, ◌||◌, Option, none, some, List, [], ◌∷◌, ◌==◌, contains, if◌then◌else◌,
}
use fxfill_enterprise_bankin.Approval.State.{McpOutcome}
use fxfill_enterprise_bankin.Iam.{Context}
use fxfill_enterprise_bankin.Tools.Validation.{Json, Fields}

-- `_IDENTITY_TOOLS`
abbrev pub identity_tools : List String
identity_tools =
    "get_account_summary" ∷ "get_balance" ∷ "list_transactions" ∷ "create_transfer_draft"
    ∷ "submit_transfer" ∷ "cancel_transfer" ∷ "report_suspicious_transaction" ∷ []

unfoldable pub is_identity_tool : String → Bool
is_identity_tool tool = contains tool identity_tools

-- A call, whose arguments are what the language model wrote.
pub record DirectCall : Type 0 where
  pub tool : String
  pub args : Json

pub data DirectEnd : Type 0 where
  -- no suggested tool, which is no answer
  no_tool : DirectEnd
  auth_required not_understood : DirectEnd
  answered : String → DirectEnd
  tool_error : Option String → DirectEnd
  -- the item assignment on arguments that are no dict, and the MCP client
  type_error mcp_raised : DirectEnd

pub record DirectEnv : Type 0 where
  pub extract : (tool message : String) → Option Json
  pub mcp : DirectCall → McpOutcome

-- args[k] = v
unfoldable pub set_field : String → Json → Fields → Fields
set_field k v Fields.no_fields = Fields.field k v Fields.no_fields
set_field k v (Fields.field j u rest) =
    if j == k then Fields.field j v rest else Fields.field j u (set_field k v rest)

-- No context, or one of nobody.
abbrev pub is_unknown_user : Option Context → Bool
is_unknown_user none = true
is_unknown_user (some c) = c.subject_id == "anonymous" || c.subject_id == ""

-- The identity that the server writes over what the language model gave.
unfoldable pub inject : Context → Json → Option Json
unfolding set_field
inject c (Json.object args) = some (
    Json.object (
      set_field "tenant_id" (Json.text c.tenant_id)
        (set_field "user_id" (Json.text c.subject_id) args)))
inject c _ = none

abbrev pub inject_for : String → Option Context → Json → Option Json
inject_for tool none args = some args
inject_for tool (some c) args = if is_identity_tool tool then inject c args else some args

abbrev pub end_of : McpOutcome → DirectEnd
end_of McpOutcome.raised = DirectEnd.mcp_raised
end_of (McpOutcome.returned r) =
    if r.success then DirectEnd.answered r.content else DirectEnd.tool_error r.error

abbrev pub send_direct : DirectEnv → String → Option Json → DirectEnd × List DirectCall
send_direct env tool none = (DirectEnd.type_error, [])
send_direct env tool (some args) =
    let call : DirectCall = record { tool = tool; args = args } in
    (end_of (env.mcp call), call ∷ [])

abbrev pub with_args :
    DirectEnv → String → Option Context → Option Json → DirectEnd × List DirectCall
with_args env tool ctx none = (DirectEnd.not_understood, [])
with_args env tool ctx (some args) = send_direct env tool (inject_for tool ctx args)

unfoldable pub call_direct :
    DirectEnv → String → String → Option Context → DirectEnd × List DirectCall
call_direct env tool message ctx =
    if is_identity_tool tool && is_unknown_user ctx
    then (DirectEnd.auth_required, [])
    else with_args env tool ctx (env.extract tool message)

-- The answer, and the calls that were sent.
unfoldable pub execute_direct :
    DirectEnv → Option (List String) → String → Option Context → DirectEnd × List DirectCall
execute_direct env none message ctx = (DirectEnd.no_tool, [])
execute_direct env (some []) message ctx = (DirectEnd.no_tool, [])
execute_direct env (some (tool ∷ _)) message ctx = call_direct env tool message ctx
