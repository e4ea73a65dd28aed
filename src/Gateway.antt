-- ===== src/Gateway.antt =====
-- The gateway's front: the interceptors in service/gateway/internal/interceptor, which limit and check
-- the requests, the validation of tokens in service/gateway/internal/auth, the limiter in
-- service/gateway/internal/ratelimit, and the router in service/gateway/internal/router.
pub mod Token
pub mod Limiter
pub mod Interceptor
pub mod Access
pub mod Cleanup
pub mod Router
mod Tests
use lesser.Common.{ℕ, Bool, Option, List}
use lesser.Common.Text.{Text}

-- The errors of the gateway; those of the validator are all answered with `invalid_token`.
pub data Error : Type 0 where
  missing_metadata missing_token invalid_token rate_limit_exceeded : Error

pub data TokenError : Type 0 where
  public_key_not_loaded auth_client_nil refresh_failed unsupported_algorithm bad_signature :
      TokenError
  invalid_claims invalid_token_type validator_stopped : TokenError

-- The headers of a request, the values of `authorization` and of `access_token`.
pub record Metadata : Type 0 where
  pub authorization : List Text
  pub access_token : List Text
