-- ===== src/Approval/Actor.antt =====
-- actor_resolver.py: who approves. A request context is a dict whose `headers` is a dict of texts.
use fxfill_enterprise_bankin.Common.{
  String, Option, none, some, List, [], ◌∷◌, ◌==◌, is_nonempty, if◌then◌else◌,
}

pub record TrustedActor : Type 0 where
  pub actor_id : String
  pub source : String

-- headers.get(name, "")
unfoldable pub header : String → List (String × String) → String
header name [] = ""
header name ((k, v) ∷ rest) = if k == name then v else header name rest

-- `DevelopmentHeaderResolver.resolve`, with the header's name in lower case.
unfoldable pub resolve_header : String → Option (List (String × String)) → Option TrustedActor
resolve_header name none = none
resolve_header name (some headers) =
    let identity = header name headers in
    if is_nonempty identity then some (record { actor_id = identity; source = "header" }) else none

-- `FixedActorResolver.resolve`
unfoldable pub resolve_fixed : String → Option (List (String × String)) → Option TrustedActor
resolve_fixed actor_id context = some (record { actor_id = actor_id; source = "test" })
