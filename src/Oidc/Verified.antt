-- ===== src/Oidc/Verified.antt =====
-- What a token that security/oidc.py accepts has passed.
use fxfill_enterprise_bankin.Common.{
  ℕ, String, ◌≡◌, refl, true, false, ◌==◌, eq_iff, Bool-cases, [], ◌∷◌, Option, none, some, List,
  contains, is_nonempty, arith, inl, inr, Option-cases, ◌⊎◌,
}
use fxfill_enterprise_bankin.Iam.{Context}
use fxfill_enterprise_bankin.Oidc.{
  claims_to_context, build_context_from_token, look_up, is_wanted, TokenClaims, Jwk, Header, PyJwt,
  Verifier, allowed_algorithms, get_jwks, find_key, verify, with_keys, with_header,
}

abbrev pub Among : Jwk → List Jwk → Type 0
Among k [] = ⊥
Among k (j ∷ js) = (k ≡ j) ⊎ Among k js

-- A key of a key set that has the token's key id.
pub record Named {Key : Type 0} (jwt : PyJwt Key) (keys : List Jwk) (kid : Option String)
    (key : Key) : Type 0 where
  pub entry : Jwk
  pub entry_in : Among entry keys
  pub id : String
  pub id_given : is_nonempty id ≡ true
  pub asked : kid ≡ some id
  pub same_id : entry.kid ≡ some id
  pub of_entry : jwt.jwk_key entry ≡ some key

-- A token whose signature was checked: the algorithm is an allowed one, the key is made from an entry
-- with the token's key id in a set that was stored or fetched, and PyJWT accepts the token with that
-- key for the verifier's issuer and audience.
pub record Checked {Key : Type 0} (jwt : PyJwt Key) (fetch : String → Option (Option (List Jwk)))
    (token : String) (v : Verifier) (c : TokenClaims) : Type 0 where
  pub header : Header
  pub keys : List Jwk
  pub key : Key
  pub named : is_nonempty v.issuer ≡ true
  pub reads : jwt.unverified_header token ≡ some header
  pub algorithm : contains header.alg allowed_algorithms ≡ true
  pub source : (v.jwks_cache ≡ some keys) ⊎ (fetch v.jwks_url ≡ some (some keys))
  pub finds : Named jwt keys header.kid key
  pub accepts : jwt.decode token key header.alg v.issuer v.audience ≡ some c

module _ {Key : Type 0} (jwt : PyJwt Key) (fetch : String → Option (Option (List Jwk))) where
  same_verifier :
      (now : ℕ) (v : Verifier)
      → let w = (get_jwks fetch now v).1 in (w.issuer ≡ v.issuer) × (w.audience ≡ v.audience)
  unfolding get_jwks
  same_verifier now v = ground arith

  source_of :
      (now : ℕ) (v : Verifier) (ks : List Jwk)
      → (get_jwks fetch now v).0 ≡ some ks
      → (v.jwks_cache ≡ some ks) ⊎ (fetch v.jwks_url ≡ some (some ks))
  unfolding get_jwks
  source_of now v ks h = ground arith

  header_passes :
      (now : ℕ) (token : String) (h : Header) (v : Verifier) (c : TokenClaims)
      → (with_header jwt fetch now token (some h) v).0 ≡ some c
      → (contains h.alg allowed_algorithms ≡ true)
        × (with_keys jwt h token (get_jwks fetch now v).0 (get_jwks fetch now v).1 ≡ some c)
  header_passes now token h v c e = ground arith

  keys_pass :
      (token : String) (h : Header) (o : Option (List Jwk)) (v : Verifier) (c : TokenClaims)
      → with_keys jwt h token o v ≡ some c
      → (ks : List Jwk) × (key : Key) × (o ≡ some ks)
        × (find_key jwt ks h.kid ≡ some key)
        × (jwt.decode token key h.alg v.issuer v.audience ≡ some c)
  keys_pass token h none v c e = absurd (cc)
  keys_pass token h (some ks) v c e = elim (Option-cases (find_key jwt ks h.kid)) [
    | inl f ↦ absurd (ground arith)
    | inr (key, f) ↦ (ks, key, refl, f, ground arith)
  ]

  looked_up :
      (id : String) (ks : List Jwk) (key : Key)
      → is_nonempty id ≡ true
      → look_up jwt (some id) ks ≡ some key
      → Named jwt ks (some id) key
  unfolding look_up
  looked_up id [] key given h = absurd (cc)
  looked_up id (k ∷ ks) key given h = elim (Bool-cases (is_wanted jwt (some id) k)) [
    | inr other ↦ later (looked_up id ks key given (ground arith))
    | inl same ↦ elim (Option-cases (jwt.jwk_key k)) [
      | inl e ↦ later (looked_up id ks key given (ground arith))
      | inr (made, e) ↦ record {
        entry = k;
        entry_in = inl refl;
        id = id;
        id_given = given;
        asked = refl;
        same_id = wanted k.kid same;
        of_entry = ground arith;
      }
    ]
  ]
    where
      later : Named jwt ks (some id) key → Named jwt (k ∷ ks) (some id) key
      later n = record {
        entry = n.entry;
        entry_in = inr n.entry_in;
        id = n.id;
        id_given = n.id_given;
        asked = n.asked;
        same_id = n.same_id;
        of_entry = n.of_entry;
      }

      wanted :
          (o : Option String) → (elim o [ none ↦ false | some j ↦ j == id ]) ≡ true → o ≡ some id
      wanted none h = absurd (cc)
      wanted (some j) h = ground (arith, eq_iff j id)

  module _ (no_client_keys : (kid : String) → jwt.signing_key kid ≡ none)
      (client_is_no_key : (token alg iss aud : String)
        → jwt.decode token jwt.bare_client alg iss aud ≡ none) where
    found_key :
        (kid : Option String) (ks : List Jwk) (key : Key) (c : TokenClaims)
        (token alg iss aud : String)
        → find_key jwt ks kid ≡ some key
        → jwt.decode token key alg iss aud ≡ some c
        → Named jwt ks kid key
    unfolding find_key
    found_key none ks key c token alg iss aud f ok =
        absurd (ground (arith, client_is_no_key token alg iss aud))
    found_key (some id) ks key c token alg iss aud f ok = elim (Bool-cases (is_nonempty id)) [
      | inl given ↦ looked_up id ks key given (ground (arith, no_client_keys id))
      | inr e ↦ absurd (ground (arith, client_is_no_key token alg iss aud))
    ]

    verify-Checked :
        (now : ℕ) (token : String) (v : Verifier) (c : TokenClaims)
        → (verify jwt fetch now token v).0 ≡ some c
        → Checked jwt fetch token v c
    unfolding verify
    verify-Checked now token v c e = elim (Option-cases (jwt.unverified_header token)) [
      | inl f ↦ absurd (ground arith)
      | inr (h, f) ↦
          (let (alg, rest) = header_passes now token h v c (ground arith) in
            let (ks, key, got, found, ok) =
              keys_pass token h (get_jwks fetch now v).0 (get_jwks fetch now v).1 c rest in
            let (iss, aud) = same_verifier now v in
            record {
              header = h;
              keys = ks;
              key = key;
              named = ground arith;
              reads = f;
              algorithm = alg;
              source = source_of now v ks got;
              finds =
                  found_key h.kid ks key c token h.alg (get_jwks fetch now v).1.issuer
                    (get_jwks fetch now v).1.audience found ok;
              accepts = ground arith;
            })
    ]

    -- Only a checked token gives an identity: if a PyJWKClient that was not initialised has no key for
    -- any key id, and PyJWT accepts no token with such a client in the place of a key, then where a
    -- context is built from a token, it is made of claims that PyJWT accepted, with an allowed algorithm
    -- and with the key of an entry, in a key set that was stored or fetched, that has the key id of the
    -- token's header, for the verifier's own issuer and audience.
    pub context_comes_from_verified :
        (now : ℕ) (token : String) (v : Verifier) (ctx : Context)
        → (build_context_from_token jwt fetch now token v).0 ≡ some ctx
        → (c : TokenClaims) × Checked jwt fetch token v c × (ctx ≡ claims_to_context c)
    unfolding build_context_from_token
    context_comes_from_verified now token v ctx e =
        elim (Option-cases (verify jwt fetch now token v).0) [
          | inl f ↦ absurd (ground arith)
          | inr (c, f) ↦ (c, verify-Checked now token v c f, ground arith)
        ]
