-- ===== src/Oidc.antt =====
-- security/oidc.py: OIDCVerifier. PyJWT, the request of the key set and the clock are fields of the
-- environment; what raises in them is none. The empty key set, which counts as false, is none too.
pub mod Verified
mod Tests
use fxfill_enterprise_bankin.Common.{
  ℕ, ◌+◌, String, Bool, true, false, ◌||◌, ◌&&◌, not, Option, none, some, List, [], ◌∷◌, contains,
  is_nonempty, ◌==◌, ltb, if◌then◌else◌,
}
use fxfill_enterprise_bankin.Iam.{Context}

pub record TokenClaims : Type 0 where
  pub sub : String
  pub tenant_id : String
  pub roles : List String
  pub scopes : List String
  pub iss : String
  pub aud : String
  pub exp : ℕ
  pub nbf : ℕ
  pub iat : ℕ
  pub jti : String
  pub sid : String

-- A key of a key set, by its text, and the set.
pub record Jwk : Type 0 where
  pub kid : Option String
  pub text : String

pub record Header : Type 0 where
  pub kid : Option String
  pub alg : String

-- `options` of `decode` is constant: exp, sub, iss and aud are required.
pub record PyJwt (Key : Type 0) : Type 0 where
  pub unverified_header : String → Option Header
  pub decode : String → Key → (alg : String) → (issuer audience : String) → Option TokenClaims
  -- `PyJWK(data).key`
  pub jwk_key : Jwk → Option Key
  -- a PyJWKClient made by `__new__`: its `get_signing_key`, and the object itself
  pub signing_key : String → Option Key
  pub bare_client : Key

-- The verifier, with what it keeps between calls.
pub record Verifier : Type 0 where
  pub issuer : String
  pub audience : String
  pub jwks_url : String
  pub cache_ttl : ℕ
  pub jwks_cache : Option (List Jwk)
  pub jwks_last_fetch : ℕ

abbrev pub allowed_algorithms : List String
allowed_algorithms = "RS256" ∷ "RS384" ∷ "RS512" ∷ "ES256" ∷ "ES384" ∷ "ES512" ∷ []

abbrev pub is_filled : Option (List Jwk) → Bool
is_filled none = false
is_filled (some ks) = true

-- The answer of the request for the key set: it raises, or it is stored.
abbrev pub store_keys : ℕ → Option (Option (List Jwk)) → Verifier → Option (List Jwk) × Verifier
store_keys now none v = (v.jwks_cache, v)
store_keys now (some ks) v = (ks, record v { jwks_cache = ks; jwks_last_fetch = now })

-- `_get_jwks`
unfoldable pub get_jwks :
    (String → Option (Option (List Jwk))) → ℕ → Verifier → Option (List Jwk) × Verifier
get_jwks fetch now v =
    if is_filled v.jwks_cache && ltb now (v.jwks_last_fetch + v.cache_ttl)
    then (v.jwks_cache, v)
    else if is_nonempty v.jwks_url
    then store_keys now (fetch v.jwks_url) v
    else (none, v)

module _ {Key : Type 0} (jwt : PyJwt Key) where
  abbrev pub key_or : Option Key → Option Key → Option Key
  key_or none other = other
  key_or (some k) other = some k

  abbrev pub is_wanted : Option String → Jwk → Bool
  is_wanted none k = true
  is_wanted (some kid) k = elim k.kid [ none ↦ false | some j ↦ j == kid ]

  -- The keys of the set, one after the other.
  unfoldable pub look_up : Option String → List Jwk → Option Key
  look_up kid [] = none
  look_up kid (k ∷ ks) =
      let rest = look_up kid ks in if is_wanted kid k then key_or (jwt.jwk_key k) rest else rest

  -- `_find_key`
  unfoldable pub find_key : List Jwk → Option String → Option Key
  find_key ks none = some jwt.bare_client
  find_key ks (some kid) =
      if is_nonempty kid
      then key_or (jwt.signing_key kid) (look_up (some kid) ks)
      else some jwt.bare_client

  abbrev pub with_key : Verifier → String → String → Option Key → Option TokenClaims
  with_key v token alg none = none
  with_key v token alg (some key) = jwt.decode token key alg v.issuer v.audience

  abbrev pub with_keys : Header → String → Option (List Jwk) → Verifier → Option TokenClaims
  with_keys h token none v = none
  with_keys h token (some ks) v = with_key v token h.alg (find_key ks h.kid)

  abbrev pub with_header :
      (String → Option (Option (List Jwk)))
      → ℕ
      → String
      → Option Header
      → Verifier
      → Option TokenClaims × Verifier
  with_header fetch now token none v = (none, v)
  with_header fetch now token (some h) v =
      if not (contains h.alg allowed_algorithms) || h.alg == "none"
      then (none, v)
      else (let (ks, v') = get_jwks fetch now v in (with_keys h token ks v', v'))

  -- `verify`
  unfoldable pub verify :
      (fetch : String → Option (Option (List Jwk)))
      → ℕ
      → String
      → Verifier
      → Option TokenClaims × Verifier
  verify fetch now token v =
      if is_nonempty token && is_nonempty v.issuer
      then with_header fetch now token (jwt.unverified_header token) v
      else (none, v)

-- `claims_to_context`, with the fields of the context that the policies read.
unfoldable pub claims_to_context : TokenClaims → Context
claims_to_context c = record {
  subject_id = c.sub;
  tenant_id = if is_nonempty c.tenant_id then c.tenant_id else "default";
  roles = c.roles;
}

abbrev pub context_of : Option TokenClaims → Option Context
context_of none = none
context_of (some c) = some (claims_to_context c)

unfoldable pub build_context_from_token :
    {Key : Type 0}
    → PyJwt Key
    → (fetch : String → Option (Option (List Jwk))) → ℕ
    → String
    → Verifier
    → Option Context × Verifier
build_context_from_token jwt fetch now token v =
    let (c, v') = verify jwt fetch now token v in (context_of c, v')
