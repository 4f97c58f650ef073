-- ===== src/Iam/Decisions.antt =====
-- What the policies of security/authorization.py decide.
use fxfill_enterprise_bankin.Common.{
  String, ◌≡◌, ◌≢◌, sym, ◌↔◌, refl, Bool, true, not, ◌||◌, none, some, List, [], ◌∷◌, all, contains,
  is_nonempty, ◌==◌, eq_iff, arith, inl, inr, Option-cases, Bool-cases,
}
use fxfill_enterprise_bankin.Iam.{
  Role, Permission, transfer_submit, grants, has_permission, role_value, role_of, valid_roles,
  Context, ResourceAttributes, action_to_permission, tenant_scoped, rbac, Policy, is_allowed,
  composite, by_roles,
}

-- A policy's answer on a request.
abbrev pub allows : Context → ResourceAttributes → String → Policy → Bool
allows ctx res action p = is_allowed (p ctx res action)

-- The composite policy allows a request exactly when every one of its policies does.
pub composite_iff :
    (ps : List Policy) (ctx : Context) (res : ResourceAttributes) (action : String)
    → is_allowed (composite ps ctx res action) ≡ all (allows ctx res action) ps
unfolding composite
composite_iff [] ctx res action = refl
composite_iff (p ∷ ps) ctx res action = ground (arith, composite_iff ps ctx res action)

-- A role whose permissions hold p is named in the list.
pub data HasRole (p : Permission) : List String → Type 0 where
  here :
      {n : String}
      → {ns : List String} → (r : Role) → n ≡ role_value r
      → grants r p ≡ true
      → HasRole p (n ∷ ns)
  there : {n : String} → {ns : List String} → HasRole p ns → HasRole p (n ∷ ns)

role_of_sound : (n : String) (r : Role) → role_of n ≡ some r → n ≡ role_value r
unfolding role_of
role_of_sound n r h = ground (
  arith,
  eq_iff n "customer",
  eq_iff n "banking_officer",
  eq_iff n "approver",
  eq_iff n "compliance_officer",
  eq_iff n "admin",
  eq_iff n "auditor",
  eq_iff n "system",
)

role_of_complete : (n : String) (r : Role) → n ≡ role_value r → role_of n ≡ some r
unfolding role_of
role_of_complete n Role.customer e = rw e refl
role_of_complete n Role.banking_officer e = rw e refl
role_of_complete n Role.approver e = rw e refl
role_of_complete n Role.compliance_officer e = rw e refl
role_of_complete n Role.admin e = rw e refl
role_of_complete n Role.auditor e = rw e refl
role_of_complete n Role.system e = rw e refl

has_permission_sound :
    (p : Permission) (ns : List String) → has_permission (valid_roles ns) p ≡ true → HasRole p ns
unfolding has_permission valid_roles
has_permission_sound p [] h = ground arith
has_permission_sound p (n ∷ ns) h = elim (Option-cases (role_of n)) [
  | inl e ↦ there (has_permission_sound p ns (ground arith))
  | inr (r, e) ↦ elim (Bool-cases (grants r p)) [
    | inl g ↦ here r (role_of_sound n r e) g
    | inr g ↦ there (has_permission_sound p ns (ground arith))
  ]
]

has_permission_complete :
    (p : Permission) (ns : List String) → HasRole p ns → has_permission (valid_roles ns) p ≡ true
unfolding has_permission valid_roles
has_permission_complete p [] x = elim x [ ]
has_permission_complete p (n ∷ ns) (here r e g) = ground (arith, role_of_complete n r e)
has_permission_complete p (n ∷ ns) (there h) = ground (arith, has_permission_complete p ns h)

-- The role-based policy allows an action exactly when the action asks for a permission and a role
-- that holds this permission is named among the roles of the request.
pub rbac_iff :
    (ctx : Context) (res : ResourceAttributes) (action : String)
    → (is_allowed (rbac ctx res action) ≡ true)
      ↔ ((p : Permission) × (action_to_permission action ≡ some p) × HasRole p ctx.roles)
unfolding rbac has_permission
rbac_iff ctx res action = (
  (λ h. elim (Option-cases (action_to_permission action)) [
    | inl e ↦ elim (unknown e (valid_roles ctx.roles) h) [ ]
    | inr (p, e) ↦
        (p, e, has_permission_sound p ctx.roles (permitted p e (valid_roles ctx.roles) h))
  ]),
  λ (p, e, h). allowed p e (valid_roles ctx.roles) (has_permission_complete p ctx.roles h),
)
  where
    unknown :
        action_to_permission action ≡ none
        → (rs : List Role) → is_allowed (by_roles rs action) ≢ true
    unknown e [] k = ground arith
    unknown e (r ∷ rs) k = ground arith

    permitted :
        (p : Permission)
        → action_to_permission action ≡ some p
        → (rs : List Role) → is_allowed (by_roles rs action) ≡ true
        → has_permission rs p ≡ true
    permitted p e [] k = ground arith
    permitted p e (r ∷ rs) k = ground arith

    allowed :
        (p : Permission)
        → action_to_permission action ≡ some p
        → (rs : List Role) → has_permission rs p ≡ true
        → is_allowed (by_roles rs action) ≡ true
    allowed p e [] k = ground arith
    allowed p e (r ∷ rs) k = ground arith

-- Under the tenant policy and the role policy together, a transfer of a resource with a tenant is
-- submitted only by a subject of that tenant, with a role that holds the permission to submit, and
-- the approver role besides when the resource is critical.
pub submit_requirements :
    (ctx : Context) (res : ResourceAttributes)
    → is_allowed (composite (tenant_scoped ∷ rbac ∷ []) ctx res "submit_transfer") ≡ true
    → is_nonempty res.tenant_id ≡ true
    → (ctx.tenant_id ≡ res.tenant_id)
      × HasRole transfer_submit ctx.roles
      × ((not (res.risk_level == "critical") || contains "approver" ctx.roles) ≡ true)
unfolding composite tenant_scoped action_to_permission
submit_requirements ctx res h t =
    let role = (rbac_iff ctx res "submit_transfer").0 (ground arith) in
    let ok : is_allowed (tenant_scoped ctx res "submit_transfer") ≡ true = ground arith in
    (same_tenant ok, named role, approver_named ok)
  where
    same_tenant :
        is_allowed (tenant_scoped ctx res "submit_transfer") ≡ true → ctx.tenant_id ≡ res.tenant_id
    same_tenant ok = ground (arith, eq_iff ctx.tenant_id res.tenant_id)

    approver_named :
        is_allowed (tenant_scoped ctx res "submit_transfer") ≡ true
        → (not (res.risk_level == "critical") || contains "approver" ctx.roles) ≡ true
    approver_named ok = ground arith

    named :
        ((p : Permission) × (action_to_permission "submit_transfer" ≡ some p) × HasRole p ctx.roles)
        → HasRole transfer_submit ctx.roles
    named (p, e, r) = (let same : p ≡ transfer_submit = cc in rw (sym same) r)
