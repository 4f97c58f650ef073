-- ===== src/Tools/Validation.antt =====
-- tools/validation.py: the check that every proposed tool call passes before it runs.
use fxfill_enterprise_bankin.Common.{
  String, Bool, true, false, ◌&&◌, Option, none, some, List, [], ◌∷◌, ◌==◌, if◌then◌else◌,
}
use fxfill_enterprise_bankin.Tools.{Schema, ToolRegistry, get}

-- A value that `json.loads` gives; numbers keep their literal.
mutual
  pub data Json : Type 0 where
    null : Json
    boolean : Bool → Json
    integer : String → Json
    real : String → Json
    text : String → Json
    array : Items → Json
    object : Fields → Json

  pub data Items : Type 0 where
    no_items : Items
    item : Json → Items → Items

  pub data Fields : Type 0 where
    no_fields : Fields
    field : String → Json → Fields → Fields

-- The arguments as the model wrote them.
pub data RawArguments : Type 0 where
  absent : RawArguments
  as_text : String → RawArguments
  as_dict : Fields → RawArguments
  other : RawArguments

pub data ErrorCode : Type 0 where
  unknown_tool invalid_json_args args_not_object args_not_dict missing_required_parameter
        type_mismatch :
      ErrorCode

-- A `ToolCallValidation`: the arguments of a valid call, or the error code.
pub data Validation : Type 0 where
  valid : Fields → Validation
  invalid : ErrorCode → Validation

unfoldable pub lookup : String → Fields → Option Json
lookup k no_fields = none
lookup k (field j v rest) = if j == k then some v else lookup k rest

-- `field not in args or args[field] is None`, negated
abbrev pub is_present : Option Json → Bool
is_present none = false
is_present (some null) = false
is_present (some _) = true

-- `_check_type`
unfoldable pub check_type : Json → String → Bool
check_type v expected =
    if expected == "string"
    then (elim v [ text _ ↦ true | _ ↦ false ])
    else if expected == "number"
    then (elim v [ integer _ ↦ true | real _ ↦ true | _ ↦ false ])
    else if expected == "integer"
    then (elim v [ integer _ ↦ true | _ ↦ false ])
    else if expected == "boolean"
    then (elim v [ boolean _ ↦ true | _ ↦ false ])
    else if expected == "object"
    then (elim v [ object _ ↦ true | _ ↦ false ])
    else if expected == "array"
    then (elim v [ array _ ↦ true | _ ↦ false ])
    else true

-- properties.get(name)
unfoldable pub property : String → List (String × Option String) → Option (Option String)
property k [] = none
property k ((j, t) ∷ rest) = if j == k then some t else property k rest

-- prop.get("type", "string"); a field that is not in the schema passes.
abbrev pub fits_property : Json → Option (Option String) → Bool
fits_property v none = true
fits_property v (some none) = check_type v "string"
fits_property v (some (some t)) = check_type v t

unfoldable pub has_required : List String → Fields → Bool
has_required [] args = true
has_required (r ∷ rs) args = is_present (lookup r args) && has_required rs args

unfoldable pub has_types : List (String × Option String) → Fields → Bool
has_types props no_fields = true
has_types props (field k v rest) = fits_property v (property k props) && has_types props rest

-- `_validate_against_schema`
unfoldable pub validate_against_schema : Fields → Schema → Validation
validate_against_schema args s =
    if has_required s.required args
    then (if has_types s.properties args then valid args else invalid type_mismatch)
    else invalid missing_required_parameter

-- Steps 1 and 3 around the arguments; `if not schema` takes an empty schema too.
abbrev pub by_schema : Fields → Option Schema → Validation
by_schema args none = valid args
by_schema args (some s) = validate_against_schema args s

-- What `json.loads` makes of a text, none if it raises.
unfoldable pub validate_arguments :
    (String → Option Json) → RawArguments → Option Schema → Validation
validate_arguments loads absent schema = by_schema no_fields schema
validate_arguments loads (as_text t) schema = elim (loads t) [
  | none ↦ invalid invalid_json_args
  | some (object args) ↦ by_schema args schema
  | some _ ↦ invalid args_not_object
]
validate_arguments loads (as_dict args) schema = by_schema args schema
validate_arguments loads other schema = invalid args_not_dict

unfoldable pub validate_tool_call :
    (String → Option Json) → String → RawArguments → ToolRegistry → Validation
validate_tool_call loads name arguments registry = elim (get name registry) [
  | none ↦ invalid unknown_tool
  | some t ↦ validate_arguments loads arguments t.input_schema
]
