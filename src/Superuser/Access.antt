-- ===== src/Superuser/Access.antt =====
-- Who is served.
use lesser.Common.{
  ℕ, ◌≡◌, refl, Bool, true, false, Option, none, some, List, [], ◌∷◌, ◌⊎◌, inl, inr, arith,
  Option-cases,
}
use lesser.Common.Text.{Text}
use lesser.Db.{Store, err, reject}
use lesser.Superuser.{Crypto, Tables, JwtClaims, access}
use lesser.Superuser.Service.{validate_token}
use lesser.Superuser.Handler.{
  Metadata, Request, Response, Backend, Code, unauthenticated, trim_bearer, validate_auth, serve,
  login, logout, refresh_token,
}
use lesser.Superuser.Handler

-- The requests that have no operator.
abbrev pub needs_auth : Request → Bool
needs_auth (login username password) = false
needs_auth (logout token) = false
needs_auth (refresh_token token) = false
needs_auth (Handler.validate_token token) = false
needs_auth _ = true

-- The first header holds an access token of the operator that is signed and not expired.
pub record IsOperator (crypto : Crypto) (now : ℕ) (md : Option Metadata) (by : ℕ) : Type 0 where
  pub metadata : Metadata
  pub header : Text
  pub headers : List Text
  pub claims : JwtClaims
  pub present : md ≡ some metadata
  pub first : metadata.authorization ≡ header ∷ headers
  pub parses : crypto.parse now (trim_bearer header) ≡ some claims
  pub is_access : claims.token_type ≡ access
  pub is_his : claims.superuser_id ≡ by

module _ (crypto : Crypto) (now : ℕ) where
  claims_of :
      (m : Metadata) (h : Text) (hs : List Text) (by : ℕ) (c : Option JwtClaims)
      → crypto.parse now (trim_bearer h) ≡ c
      → m.authorization ≡ h ∷ hs
      → validate_auth crypto now (some m) ≡ some by
      → IsOperator crypto now (some m) by
  unfolding validate_auth validate_token
  claims_of m h hs by none e first v = ground (arith, e, first, v)
  claims_of m h hs by (some c) e first v = record {
    metadata = m;
    header = h;
    headers = hs;
    claims = c;
    present = refl;
    first = first;
    parses = e;
    is_access = ground (arith, e, first, v);
    is_his = ground (arith, e, first, v);
  }

  headers_of :
      (m : Metadata) (by : ℕ) (hs : List Text)
      → m.authorization ≡ hs
      → validate_auth crypto now (some m) ≡ some by
      → IsOperator crypto now (some m) by
  unfolding validate_auth
  headers_of m by [] first v = ground (arith, first, v)
  headers_of m by (h ∷ hs) first v =
      claims_of m h hs by (crypto.parse now (trim_bearer h)) refl first v

  pub validate_auth-IsOperator :
      (md : Option Metadata) (by : ℕ)
      → validate_auth crypto now md ≡ some by
      → IsOperator crypto now md by
  unfolding validate_auth
  validate_auth-IsOperator none by v = ground (arith, v)
  validate_auth-IsOperator (some m) by v = headers_of m by m.authorization refl v

  module _ (db : Backend) (fails : ℕ → Bool) (fresh : ℕ) (md : Option Metadata)
      (s : Store Tables) where
    pub serve-unauthenticated :
        (r : Request)
        → needs_auth r ≡ true
        → validate_auth crypto now md ≡ none
        → serve crypto now db fails fresh md r s ≡ (err (reject unauthenticated), s)
    unfolding serve
    serve-unauthenticated r needs v = grind (arith, needs, v)

    -- A request other than a login, a logout, a refresh and a validation is made by an operator whose
    -- access token is signed and not expired, or it is answered with Unauthenticated and changes
    -- nothing, not even the number of statements run.
    pub serve-authenticated :
        (r : Request)
        → needs_auth r ≡ true
        → ((by : ℕ) × IsOperator crypto now md by)
          ⊎ (serve crypto now db fails fresh md r s ≡ (err (reject unauthenticated), s))
    serve-authenticated r needs = elim (Option-cases (validate_auth crypto now md)) [
      | inl e ↦ inr (serve-unauthenticated r needs e)
      | inr (by, e) ↦ inl (by, validate_auth-IsOperator md by e)
    ]
