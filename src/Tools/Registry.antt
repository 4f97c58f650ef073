-- ===== src/Tools/Registry.antt =====
-- What tools/registry.py keeps, and what of a tool the model gets to see.
use fxfill_enterprise_bankin.Common.{
  String, ◌≡◌, ◌∙◌, ap, refl, Bool, true, false, not, ◌&&◌, Option, none, List, [], ◌∷◌, eq_iff,
  if◌then◌else◌, arith, contains, keep, some, ◌==◌, ◌||◌, Bool-cases, inl, inr,
}
use fxfill_enterprise_bankin.Tools.{
  Schema, ToolRegistry, get, is_some, ToolDefinition, provider_schema, schema_or_empty,
  is_client_field, is_client_property,
}
use fxfill_enterprise_bankin.Tools.Validation.{
  property, Json, Fields, lookup, is_present, has_required, validate_tool_call, validate_arguments,
  validate_against_schema, as_dict, invalid, missing_required_parameter,
}

flip_if {ℓ} : {A : Type ℓ} (b : Bool) (x y : A) → (if not b then y else x) ≡ (if b then x else y)
flip_if true x y = refl
flip_if false x y = refl

-- A field that is kept if the test on its name passes, is found exactly if it was there and passes.
kept_field :
    (p : String → Bool) (k : String) (l : List String)
    → contains k (keep p l) ≡ (p k && contains k l)
kept_field p k [] = ground arith
kept_field p k (r ∷ rs) = ground (arith, eq_iff r k, kept_field p k rs)

kept_property :
    (p : String → Bool) (k : String) (l : List (String × Option String))
    → property k (keep (λ e. p e.0) l) ≡ (if p k then property k l else none)
unfolding property
kept_property p k [] = ground arith
kept_property p k ((j, t) ∷ l) = ground (arith, eq_iff j k, kept_property p k l)

-- A name of an identity field.
abbrev pub is_identity : String → Bool
is_identity k = "user_id" == k || "tenant_id" == k || "approver_id" == k

shown_property :
    (t : ToolDefinition) (s : Schema) (k : String)
    → t.input_schema ≡ some s
    → property k (provider_schema false t).properties
      ≡ (if is_identity k then none else property k s.properties)
unfolding provider_schema
shown_property t s k e =
    ap (λ o. property k (keep is_client_property (schema_or_empty o).properties)) e
    ∙ ground (arith, kept_property is_client_field k s.properties)

shown_required :
    (t : ToolDefinition) (s : Schema) (k : String)
    → t.input_schema ≡ some s
    → contains k (provider_schema false t).required ≡ (not (is_identity k) && contains k s.required)
unfolding provider_schema
shown_required t s k e =
    ap (λ o. contains k (keep is_client_field (schema_or_empty o).required)) e
    ∙ ground (arith, kept_field is_client_field k s.required)

lacks_required :
    (k : String) (rs : List String) (args : Fields)
    → contains k rs ≡ true
    → is_present (lookup k args) ≡ false
    → has_required rs args ≡ false
unfolding has_required
lacks_required k [] args c h = absurd (cc)
lacks_required k (r ∷ rs) args c h = ground (arith, eq_iff r k, lacks_required k rs args)

-- The model is shown less than the validation demands: if a registered tool requires an identity
-- field (user_id, tenant_id or approver_id), then the schema that the model is shown does not require
-- it, and every call of the tool whose non-null arguments are all among the properties that the model
-- is shown is refused for a missing parameter.
pub hidden_field_is_demanded :
    (loads : String → Option Json) (name : String) (args : Fields) (registry : ToolRegistry)
    → (t : ToolDefinition) (s : Schema) (k : String) → get name registry ≡ some t
    → t.input_schema ≡ some s
    → contains k s.required ≡ true
    → is_identity k ≡ true
    → ((j : String)
        → is_present (lookup j args) ≡ true
        → is_some (property j (provider_schema false t).properties) ≡ true)
    → (contains k (provider_schema false t).required ≡ false)
      × (validate_tool_call loads name (as_dict args) registry ≡ invalid missing_required_parameter)
unfolding validate_tool_call validate_arguments validate_against_schema
hidden_field_is_demanded loads name args registry t s k found schema required hidden shown = (
  ground (arith, shown_required t s k schema),
  elim (Bool-cases (is_present (lookup k args))) [
    | inl there ↦ (let seen = shown k there in absurd (ground (arith, shown_property t s k schema)))
    | inr e ↦ ground (arith, lacks_required k s.required args required e)
  ],
)
