-- ===== src/Tools/Conformance.antt =====
-- What tools/validation.py guarantees of a call that it lets through.
use fxfill_enterprise_bankin.Common.{
  String, ◌≡◌, true, Option, some, List, [], ◌∷◌, eq_iff, arith, inl, inr, Option-cases, contains,
}
use fxfill_enterprise_bankin.Tools.{Schema, ToolDefinition, ToolRegistry, get}
use fxfill_enterprise_bankin.Tools.Validation.{
  Json, Fields, no_fields, field, RawArguments, absent, as_text, as_dict, other, valid, lookup,
  is_present, property, fits_property, has_required, has_types, validate_against_schema,
  validate_arguments, validate_tool_call,
}

has_required_sound :
    (r : String) (rs : List String) (args : Fields)
    → contains r rs ≡ true
    → has_required rs args ≡ true
    → is_present (lookup r args) ≡ true
unfolding has_required
has_required_sound r [] args c h = cc
has_required_sound r (r' ∷ rs) args c h = ground (arith, eq_iff r' r, has_required_sound r rs args)

has_types_sound :
    (k : String) (v : Json) (props : List (String × Option String)) (args : Fields)
    → lookup k args ≡ some v
    → has_types props args ≡ true
    → fits_property v (property k props) ≡ true
unfolding has_types lookup
has_types_sound k v props no_fields found h = cc
has_types_sound k v props (field j u rest) found h =
    ground (arith, eq_iff j k, has_types_sound k v props rest)

validated :
    (loads : String → Option Json) (raw : RawArguments) (s : Schema) (args : Fields)
    → validate_arguments loads raw (some s) ≡ valid args
    → (has_required s.required args ≡ true) × (has_types s.properties args ≡ true)
unfolding validate_arguments validate_against_schema
validated loads absent s args h = ground arith
validated loads (as_text t) s args h = ground arith
validated loads (as_dict d) s args h = ground arith
validated loads other s args h = cc

module _ (loads : String → Option Json) (name : String) (raw : RawArguments)
    (registry : ToolRegistry) (args : Fields) where
  -- A call that passes is a call of a registered tool.
  passed :
      validate_tool_call loads name raw registry ≡ valid args
      → (t : ToolDefinition) × (get name registry ≡ some t)
        × (validate_arguments loads raw t.input_schema ≡ valid args)
  unfolding validate_tool_call
  passed h = elim (Option-cases (get name registry)) [
    | inl e ↦ absurd (ground arith)
    | inr (t, e) ↦ (t, e, ground arith)
  ]

  -- Whatever a model writes as the name and the arguments of a call, if the call is let through
  -- and the registered tool of that name has a schema, then each parameter that the schema
  -- requires is among the arguments that go on, and is not null.
  pub validated_call_has_required :
      (t : ToolDefinition) (s : Schema) (r : String)
      → validate_tool_call loads name raw registry ≡ valid args
      → get name registry ≡ some t
      → t.input_schema ≡ some s
      → contains r s.required ≡ true
      → is_present (lookup r args) ≡ true
  validated_call_has_required t s r h found schema required =
      let (t', found', ok) = passed h in
      has_required_sound r s.required args required (validated loads raw s args (ground (arith))).0

  -- If a call is let through and the registered tool of its name has a schema, then each argument
  -- that goes on and that the schema declares has the declared type, `string` where it declares
  -- none.
  pub validated_call_has_types :
      (t : ToolDefinition) (s : Schema) (k : String) (v : Json)
      → validate_tool_call loads name raw registry ≡ valid args
      → get name registry ≡ some t
      → t.input_schema ≡ some s
      → lookup k args ≡ some v
      → fits_property v (property k s.properties) ≡ true
  validated_call_has_types t s k v h found schema there =
      let (t', found', ok) = passed h in
      has_types_sound k v s.properties args there (validated loads raw s args (ground arith)).1
