-- ===== src/Oidc/Tests.antt =====
-- A token with a key of the fetched set, and one without a key id.
use fxfill_enterprise_bankin.Common.{
  String, ◌≡◌, refl, Option, none, some, List, [], ◌∷◌, ◌==◌, if◌then◌else◌,
}
use fxfill_enterprise_bankin.Iam.{Context}
use fxfill_enterprise_bankin.Oidc.{
  TokenClaims, Jwk, PyJwt, Verifier, claims_to_context, build_context_from_token, verify, get_jwks,
  find_key, look_up,
}
use fxfill_enterprise_bankin.Oidc.Verified.{Checked, context_comes_from_verified}

abbrev claims : TokenClaims
claims = record {
  sub = "alice";
  tenant_id = "";
  roles = "customer" ∷ [];
  scopes = [];
  iss = "https://issuer";
  aud = "agent";
  exp = 900;
  nbf = 0;
  iat = 100;
  jti = "j1";
  sid = "s1";
}

abbrev jwt : PyJwt String
jwt = record {
  unverified_header =
      λ t. some (record { kid = (if t == "anonymous" then none else some "k2"); alg = "RS256" });
  decode = λ t key alg iss aud. if key == "second" then some claims else none;
  jwk_key = λ k. some k.text;
  signing_key = λ kid. none;
  bare_client = "client";
}

abbrev keys : List Jwk
keys = record { kid = some "k1"; text = "first" } ∷ record { kid = some "k2"; text = "second" } ∷ []

abbrev fetch : String → Option (Option (List Jwk))
fetch url = some (some keys)

abbrev verifier : Verifier
verifier = record {
  issuer = "https://issuer";
  audience = "agent";
  jwks_url = "https://issuer/keys";
  cache_ttl = 300;
  jwks_cache = none;
  jwks_last_fetch = 0;
}

abbrev alice : Context
alice = record { subject_id = "alice"; tenant_id = "default"; roles = "customer" ∷ [] }

accepts : (build_context_from_token jwt fetch 10 "token" verifier).0 ≡ some alice
unfolding build_context_from_token verify get_jwks find_key look_up claims_to_context
accepts = refl

refuses : (build_context_from_token jwt fetch 10 "anonymous" verifier).0 ≡ none
unfolding build_context_from_token verify get_jwks find_key look_up claims_to_context
refuses = refl

context_comes_from_verified_example :
    (c : TokenClaims) × Checked jwt fetch "token" verifier c × (alice ≡ claims_to_context c)
context_comes_from_verified_example =
    context_comes_from_verified jwt fetch (λ kid. refl) (λ t alg iss aud. refl) 10 "token" verifier
      alice accepts
