-- ===== src/Agent/Identity.antt =====
-- Whose identity a direct call of agent.py has.
use fxfill_enterprise_bankin.Common.{
  String, ◌≡◌, refl, ◌∙◌, true, false, ◌&&◌, Option, none, some, List, [], ◌∷◌, ◌==◌, eq_iff,
  if◌then◌else◌, arith, inl, inr, Bool-cases,
}
use fxfill_enterprise_bankin.Iam.{Context}
use fxfill_enterprise_bankin.Tools.Validation.{Json, Fields, lookup}
use fxfill_enterprise_bankin.Agent.Direct.{
  DirectEnv, DirectCall, is_identity_tool, is_unknown_user, set_field, inject, inject_for,
  send_direct, with_args, call_direct, execute_direct,
}

lookup-set_field :
    (k j : String) (v : Json) (fs : Fields)
    → lookup j (set_field k v fs) ≡ (if k == j then some v else lookup j fs)
unfolding lookup set_field
lookup-set_field k j v Fields.no_fields = refl
lookup-set_field k j v (Fields.field i u rest) =
    ground (arith, eq_iff k j, eq_iff i k, eq_iff i j, lookup-set_field k j v rest)

-- The arguments name the subject and the tenant of the context.
pub record CarriesIdentity (c : Context) (args : Json) : Type 0 where
  pub fields : Fields
  pub is_dict : args ≡ Json.object fields
  pub user : lookup "user_id" fields ≡ some (Json.text c.subject_id)
  pub tenant : lookup "tenant_id" fields ≡ some (Json.text c.tenant_id)

injected : (c : Context) (args out : Json) → inject c args ≡ some out → CarriesIdentity c out
unfolding inject
injected c (Json.object fs) out h =
    let with_user = set_field "user_id" (Json.text c.subject_id) fs in
    record {
      fields = set_field "tenant_id" (Json.text c.tenant_id) with_user;
      is_dict = cc;
      user =
          lookup-set_field "tenant_id" "user_id" (Json.text c.tenant_id) with_user
          ∙ lookup-set_field "user_id" "user_id" (Json.text c.subject_id) fs;
      tenant = lookup-set_field "tenant_id" "tenant_id" (Json.text c.tenant_id) with_user;
    }
injected c Json.null out h = absurd (cc)
injected c (Json.boolean b) out h = absurd (cc)
injected c (Json.integer i) out h = absurd (cc)
injected c (Json.real r) out h = absurd (cc)
injected c (Json.text t) out h = absurd (cc)
injected c (Json.array xs) out h = absurd (cc)

-- A call of an identity tool, and the context that it is made in.
pub record MadeBy (ctx : Option Context) (call : DirectCall) : Type 0 where
  pub context : Context
  pub given : ctx ≡ some context
  pub is_known : is_unknown_user (some context) ≡ false
  pub carries : CarriesIdentity context call.args

sent_by :
    (env : DirectEnv) (tool : String) (c : Context) (o : Option Json) (call : DirectCall)
    → is_unknown_user (some c) ≡ false
    → ((args : Json) → o ≡ some args → CarriesIdentity c args)
    → (send_direct env tool o).1 ≡ call ∷ []
    → MadeBy (some c) call
sent_by env tool c none call k h e = absurd (cc)
sent_by env tool c (some args) call k h e =
    let same : call.args ≡ args = ground arith in
    record { context = c; given = refl; is_known = k; carries = rw same (h args refl) }

argued :
    (env : DirectEnv) (tool : String) (c : Context) (o : Option Json) (call : DirectCall)
    → is_identity_tool tool ≡ true
    → is_unknown_user (some c) ≡ false
    → (with_args env tool (some c) o).1 ≡ call ∷ []
    → MadeBy (some c) call
argued env tool c none call i k e = absurd (cc)
argued env tool c (some args) call i k e =
    sent_by env tool c (inject_for tool (some c) args) call k
      (λ out h. injected c args out (rw i at h)) e

called :
    (env : DirectEnv) (tool message : String) (ctx : Option Context) (call : DirectCall)
    → is_identity_tool tool ≡ true
    → (call_direct env tool message ctx).1 ≡ call ∷ []
    → MadeBy ctx call
unfolding call_direct
called env tool message none call i e = absurd (ground arith)
called env tool message (some c) call i e = elim (Bool-cases (is_unknown_user (some c))) [
  | inl k ↦ absurd (ground arith)
  | inr k ↦ argued env tool c (env.extract tool message) call i k (ground arith)
]

sent_tool :
    (env : DirectEnv) (tool : String) (o : Option Json) (call : DirectCall)
    → (send_direct env tool o).1 ≡ call ∷ []
    → call.tool ≡ tool
sent_tool env tool none call e = absurd (cc)
sent_tool env tool (some args) call e = ground arith

argued_tool :
    (env : DirectEnv) (tool : String) (ctx : Option Context) (o : Option Json) (call : DirectCall)
    → (with_args env tool ctx o).1 ≡ call ∷ []
    → call.tool ≡ tool
argued_tool env tool ctx none call e = absurd (cc)
argued_tool env tool ctx (some args) call e = sent_tool env tool (inject_for tool ctx args) call e

called_tool :
    (env : DirectEnv) (tool message : String) (ctx : Option Context) (call : DirectCall)
    → (call_direct env tool message ctx).1 ≡ call ∷ []
    → call.tool ≡ tool
unfolding call_direct
called_tool env tool message ctx call e =
    elim (Bool-cases (is_identity_tool tool && is_unknown_user ctx)) [
      | inl k ↦ absurd (ground arith)
      | inr k ↦ argued_tool env tool ctx (env.extract tool message) call (ground arith)
    ]

-- Whatever the language model extracts from a message, a call of a tool that needs an identity is
-- sent on the direct route only in the context of a known user, and its arguments are a dict whose
-- user and tenant are those of the context.
pub direct_call_carries_subject :
    (env : DirectEnv) (tools : Option (List String)) (message : String) (ctx : Option Context)
    → (call : DirectCall) → (execute_direct env tools message ctx).1 ≡ call ∷ []
    → is_identity_tool call.tool ≡ true
    → MadeBy ctx call
unfolding execute_direct
direct_call_carries_subject env none message ctx call e i = absurd (cc)
direct_call_carries_subject env (some []) message ctx call e i = absurd (cc)
direct_call_carries_subject env (some (tool ∷ ts)) message ctx call e i =
    called env tool message ctx call (rw (called_tool env tool message ctx call e) at i) e
