-- ===== src/Tools.antt =====
-- tools/models.py and tools/registry.py: what the agent knows of its tools. The dict of a registry
-- is the list of its definitions in insertion order. A schema is its `properties`, each with the
-- `type` it names if it names one, and its `required` list.
pub mod Validation
pub mod Conformance
pub mod Registry
mod Tests
use fxfill_enterprise_bankin.Common.{
  ℕ, String, Bool, true, false, not, ◌&&◌, ◌||◌, Option, none, some, List, [], ◌∷◌, ◌++◌, length,
  keep, contains, ◌==◌, leb, if◌then◌else◌,
}

pub data RiskLevel : Type 0 where
  low medium high critical : RiskLevel

pub data ApprovalPolicy : Type 0 where
  never high_risk always : ApprovalPolicy

pub record Schema : Type 0 where
  pub properties : List (String × Option String)
  pub required : List String

pub record ToolDefinition : Type 0 where
  pub name : String
  pub description : String
  pub input_schema : Option Schema
  pub side_effect : Bool
  pub risk_level : RiskLevel
  pub required_permissions : List String
  pub approval_policy : ApprovalPolicy
  pub idempotency_required : Bool

abbrev pub is_low : RiskLevel → Bool
is_low low = true
is_low _ = false

abbrev pub is_elevated : RiskLevel → Bool
is_elevated high = true
is_elevated critical = true
is_elevated _ = false

unfoldable pub is_read_only : ToolDefinition → Bool
is_read_only t = not t.side_effect && is_low t.risk_level

unfoldable pub requires_approval : ToolDefinition → Bool
requires_approval t = elim t.approval_policy [
  | never ↦ false
  | always ↦ true
  | high_risk ↦ is_elevated t.risk_level
]

-- The identity fields that the model is not shown.
abbrev pub server_fields : List String
server_fields = "user_id" ∷ "tenant_id" ∷ "approver_id" ∷ []

abbrev pub is_client_property : String × Option String → Bool
is_client_property (k, _) = not (contains k server_fields)

abbrev pub is_client_field : String → Bool
is_client_field r = not (contains r server_fields)

abbrev pub empty_schema : Schema
empty_schema = record { properties = []; required = [] }

abbrev pub schema_or_empty : Option Schema → Schema
schema_or_empty none = empty_schema
schema_or_empty (some s) = s

-- The `parameters` of the schema that the model is shown.
unfoldable pub provider_schema : Bool → ToolDefinition → Schema
provider_schema include_server_fields t =
    let s = schema_or_empty t.input_schema in
    if include_server_fields then s else record {
      properties = keep is_client_property s.properties;
      required = keep is_client_field s.required;
    }

abbrev pub ToolRegistry : Type 0
ToolRegistry = List ToolDefinition

unfoldable pub get : String → ToolRegistry → Option ToolDefinition
get name [] = none
get name (t ∷ ts) = if t.name == name then some t else get name ts

abbrev pub is_some {ℓ} : {A : Type ℓ} → Option A → Bool
is_some none = false
is_some (some _) = true

unfoldable pub has : String → ToolRegistry → Bool
unfolding get
has name r = is_some (get name r)

-- `none` is the ValueError on a duplicate name.
unfoldable pub register : ToolDefinition → ToolRegistry → Option ToolRegistry
unfolding has
register t r = if has t.name r then none else some (r ++ t ∷ [])

abbrev pub register_next : Option ToolRegistry → ToolDefinition → Option ToolRegistry
register_next none t = none
register_next (some r) t = register t r

register_all : Option ToolRegistry → List ToolDefinition → Option ToolRegistry
register_all r [] = r
register_all r (t ∷ ts) = register_all (register_next r t) ts

-- `ToolRegistry.__init__`
unfoldable pub new_registry : List ToolDefinition → Option ToolRegistry
unfolding register_all
new_registry = register_all (some [])

abbrev pub level : RiskLevel → ℕ
level low = 0
level medium = 1
level high = 2
level critical = 3

side_effecting_tools : ToolRegistry → List ToolDefinition
side_effecting_tools = keep (λ t. t.side_effect)

tools_by_risk : RiskLevel → ToolRegistry → List ToolDefinition
tools_by_risk minimum = keep (λ t. leb (level minimum) (level t.risk_level))
