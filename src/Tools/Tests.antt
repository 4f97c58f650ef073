-- ===== src/Tools/Tests.antt =====
-- Runs of tools/registry.py and tools/validation.py on one tool.
use fxfill_enterprise_bankin.Common.{
  String, ◌≡◌, arith, refl, true, false, Option, none, some, [], ◌∷◌, contains,
}
use fxfill_enterprise_bankin.Tools.{
  RiskLevel, ApprovalPolicy, Schema, ToolDefinition, ToolRegistry, get, has, register, register_all,
  new_registry, is_read_only, requires_approval, side_effecting_tools, tools_by_risk,
  provider_schema, is_some,
}
use fxfill_enterprise_bankin.Tools.Validation.{
  Json, Fields, RawArguments, Validation, ErrorCode, validate_tool_call, validate_arguments,
  validate_against_schema, has_required, has_types, check_type, lookup, property, is_present,
}
use fxfill_enterprise_bankin.Tools.Conformance.{validated_call_has_required}
use fxfill_enterprise_bankin.Tools.Registry.{hidden_field_is_demanded}

abbrev schema : Schema
schema = record {
  properties = ("amount", some "number") ∷ ("user_id", some "string") ∷ [];
  required = "amount" ∷ "user_id" ∷ [];
}

abbrev pay : ToolDefinition
pay = record {
  name = "pay";
  description = "Pay";
  input_schema = some schema;
  side_effect = true;
  risk_level = RiskLevel.critical;
  required_permissions = [];
  approval_policy = ApprovalPolicy.high_risk;
  idempotency_required = true;
}

abbrev registry : ToolRegistry
registry = pay ∷ []

abbrev arguments : Fields
arguments =
    Fields.field "amount" (Json.integer "5")
      (Fields.field "user_id" (Json.text "alice") Fields.no_fields)

abbrev reader : String → Option Json
reader t = some (Json.object arguments)

registered_once : new_registry (pay ∷ pay ∷ []) ≡ none
unfolding new_registry register_all register has get
registered_once = refl

flags : (is_read_only pay ≡ false) × (requires_approval pay ≡ true)
unfolding is_read_only requires_approval
flags = (refl, refl)

selections :
    (side_effecting_tools registry ≡ registry)
    × (tools_by_risk RiskLevel.medium registry ≡ registry)
unfolding side_effecting_tools tools_by_risk
selections = (refl, refl)

found : get "pay" registry ≡ some pay
unfolding get
found = refl

let_through :
    validate_tool_call reader "pay" (RawArguments.as_text "{}") registry
    ≡ Validation.valid arguments
unfolding validate_tool_call validate_arguments validate_against_schema has_required has_types
    check_type lookup property get
let_through = refl

amount_there : lookup "amount" arguments ≡ some (Json.integer "5")
unfolding lookup
amount_there = refl

validated_call_has_required_example : is_present (lookup "amount" arguments) ≡ true
validated_call_has_required_example =
    validated_call_has_required reader "pay" (RawArguments.as_text "{}") registry arguments pay
      schema "amount" let_through found refl refl

-- A call with what the model is shown of the tool.
abbrev shown_call : Fields
shown_call = Fields.field "amount" (Json.integer "5") Fields.no_fields

fills_shown :
    (j : String)
    → is_present (lookup j shown_call) ≡ true
    → is_some (property j (provider_schema false pay).properties) ≡ true
unfolding lookup property provider_schema
fills_shown j h = ground arith

hidden_field_is_demanded_example :
    (contains "user_id" (provider_schema false pay).required ≡ false)
    × (validate_tool_call reader "pay" (RawArguments.as_dict shown_call) registry
        ≡ Validation.invalid ErrorCode.missing_required_parameter)
hidden_field_is_demanded_example =
    hidden_field_is_demanded reader "pay" shown_call registry pay schema "user_id" found refl refl
      refl fills_shown
