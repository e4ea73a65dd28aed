-- ===== src/Gateway/Interceptor.antt =====
-- The interceptors, service/gateway/internal/interceptor/interceptor.go. The one of streams takes the
-- same steps.
use lesser.Common.{ℕ, Bool, ◌||◌, not, Option, none, some, List, [], ◌∷◌, drop, any, if◌then◌else◌}
use lesser.Common.Text.{Text, codes, same_text, has_prefix}
use lesser.Gateway.{
  Error, missing_metadata, missing_token, invalid_token, rate_limit_exceeded, Metadata,
}
use lesser.Gateway.Token.{KeyState, Jwt, Validator, Validation, valid, refused, validate_token}
use lesser.Gateway.Limiter.{Bucket, Limiter, allow}

abbrev pub public_methods : List Text
public_methods =
    codes "/gateway.GatewayService/Health"
    ∷ codes "/auth.AuthService/Login"
    ∷ codes "/auth.AuthService/Register"
    ∷ codes "/auth.AuthService/GetPublicKey"
    ∷ codes "/auth.AuthService/RefreshToken"
    ∷ []

abbrev pub public_method_prefixes : List Text
public_method_prefixes = codes "/grpc.reflection." ∷ codes "/grpc.health." ∷ []

abbrev pub is_public_method_prefix : Text → Bool
is_public_method_prefix method = any (λ p. has_prefix method p) public_method_prefixes

-- Whether the test that lets a method through without a token holds.
unfoldable pub is_public : Text → Bool
is_public method = any (same_text method) public_methods || is_public_method_prefix method

pub data Extracted : Type 0 where
  token : Text → Extracted
  no_token : Error → Extracted

abbrev pub without_bearer : Text → Text
without_bearer t = if has_prefix t (codes "Bearer ") then drop 7 t else t

-- The values of `authorization`, and of `access_token`.
abbrev pub extract_from : List Text → List Text → Extracted
extract_from (t ∷ ts) us = token (without_bearer t)
extract_from [] (u ∷ us) = token u
extract_from [] [] = no_token missing_token

unfoldable pub extract_token : Option Metadata → Extracted
extract_token none = no_token missing_metadata
extract_token (some m) = extract_from m.authorization m.access_token

-- What becomes of a request: the handler is called, for no user or for the user of the claims, or the
-- client gets an error.
pub data Answer : Type 0 where
  handled : Option ℕ → Answer
  rejected : Error → Answer

pub record Front {ℓ} (B : Type ℓ) : Type ℓ where
  pub validator : Validator
  pub limiter : Limiter B

pub record Request : Type 0 where
  pub method : Text
  pub metadata : Option Metadata

abbrev pub answer_of : Validation → Answer
answer_of (valid c) = handled (some c.user_id)
answer_of (refused e) = rejected invalid_token

module _ {ℓ} {B : Type ℓ} (bucket : Bucket B) (jwt : Jwt) (fetch : ℕ → Option KeyState) where
  abbrev pub with_token : Extracted → Front B → Answer × Front B
  with_token (no_token e) f = (rejected e, f)
  with_token (token t) f =
      let (r, v) = validate_token jwt fetch t f.validator in
      (answer_of r, record f { validator = v })

  unfoldable pub auth_interceptor : ℕ → Request → Front B → Answer × Front B
  auth_interceptor now req f =
      if is_public req.method
      then (handled none, f)
      else (let (allowed, l) = allow bucket now f.limiter in
          let limited : Front B = record f { limiter = l } in
          if not allowed
          then (rejected rate_limit_exceeded, limited)
          else with_token (extract_token req.metadata) limited)
