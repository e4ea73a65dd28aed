-- ===== src/Gateway/Tests.antt =====
-- Small runs of the gateway's front.
use lesser.Common.{
  ℕ, ◌-◌, ◌*◌, map, ◌≤◌, ◌+◌, ◌≡◌, ◌≢◌, refl, true, false, Option, none, some, List, [], ◌∷◌, ◌==◌,
  leb, if◌then◌else◌, arith,
}
use lesser.Common.Text.{Text, codes, same_text, is_empty}
use lesser.Gateway.{missing_token}
use lesser.Gateway.Token.{Claims, KeyState, Jwt, Validator}
use lesser.Gateway.Limiter.{Bucket, IsTokenBucket, capped, new_limiter, allow_key_n, cleanup}
use lesser.Gateway.Interceptor.{
  is_public, extract_token, token, rejected, Front, Request, auth_interceptor,
}
use lesser.Gateway.Access.{if_access, validate_all, validate_token-rotates}
use lesser.Gateway.Cleanup.{request, tick, Action, answers, answers_kept, answers-cleanup}
use lesser.Gateway.Router.{service_names, new_router, Conns}

abbrev claims : Claims
claims = record { user_id = 5; type = codes "access" }

-- Tokens of one letter: the key 8 verifies those that name it.
abbrev jwt : Jwt
jwt = record {
  header = λ t. some (record { is_rsa = true; kid = some 2 });
  verify = λ key t. if key == 8 then some claims else none;
}

abbrev new_key : KeyState
new_key = record { key = 8; key_id = 2 }

abbrev old_key : KeyState
old_key = record { key = 7; key_id = 1 }

abbrev fetch : ℕ → Option KeyState
fetch _ = some new_key

abbrev validator : Validator
validator = record { key_state = some old_key; fetched = 0; has_client = true; stopped = false }

one_is_not : 2 ≢ old_key.key_id
one_is_not = ground arith

validate_token-rotates_example :
    ((validate_all jwt fetch ((97 ∷ []) ∷ (98 ∷ []) ∷ []) validator).0
      ≡ map (λ t. if_access (jwt.verify 8 t)) ((97 ∷ []) ∷ (98 ∷ []) ∷ []))
    × ((validate_all jwt fetch ((97 ∷ []) ∷ (98 ∷ []) ∷ []) validator).1.fetched ≤ 1)
validate_token-rotates_example =
    validate_token-rotates jwt fetch ((97 ∷ []) ∷ (98 ∷ []) ∷ []) validator old_key new_key refl
      (λ e. ground (arith, one_is_not, e)) refl refl (refl, (refl, tt))

-- A bucket of two tokens of ten parts each, one part of which comes back in a unit of time: what it
-- had at a time, and that time.
abbrev had_at : ℕ → ℕ × ℕ → ℕ
had_at t (n, since) = capped 20 (n + 1 * (t - since))

abbrev bucket : Bucket (ℕ × ℕ)
bucket = record {
  new_bucket = (20, 0);
  allow_n = λ now n b. (
    leb (n * 10) (had_at now b),
    ((if leb (n * 10) (had_at now b) then had_at now b - n * 10 else had_at now b), now),
  );
}

abbrev front : Front (ℕ × ℕ)
front = record { validator = validator; limiter = new_limiter (20, 0) }

abbrev signed : Request
signed = record {
  method = codes "/user.UserService/Follow";
  metadata = some (record { authorization = codes "Bearer a" ∷ []; access_token = [] });
}

abbrev unsigned : Request
unsigned = record {
  method = codes "/user.UserService/Follow";
  metadata = some (record { authorization = []; access_token = [] });
}

extract_token_bearer : extract_token signed.metadata ≡ token (97 ∷ [])
unfolding extract_token
extract_token_bearer = refl

auth_interceptor-unsigned :
    (auth_interceptor bucket jwt fetch 3 unsigned front).0 ≡ rejected missing_token
unfolding auth_interceptor is_public extract_token
auth_interceptor-unsigned = refl

bucket-IsTokenBucket : IsTokenBucket bucket 10 20 1
bucket-IsTokenBucket = record {
  tokens = had_at;
  full = λ t. ground arith;
  gives = λ now n b. refl;
  refilled = λ now n t b le. refl;
}

abbrev actions : List Action
actions =
    request 1 4 1 ∷ request 2 4 1 ∷ request 3 4 1 ∷ tick 60 ∷ request 61 4 1 ∷ request 62 4 1 ∷ []

actions_answered :
    answers bucket 25 actions (new_limiter (20, 0)) ≡ true ∷ true ∷ false ∷ true ∷ true ∷ []
unfolding answers allow_key_n cleanup
actions_answered = refl

answers-cleanup_example :
    answers bucket 25 actions (new_limiter (20, 0))
    ≡ answers_kept bucket 25 actions (new_limiter (20, 0))
answers-cleanup_example =
    answers-cleanup bucket 25 10 20 1 bucket-IsTokenBucket (omega arith) actions (20, 0)
      (omega arith, (omega arith, (omega arith, (omega arith, (omega arith, (omega arith, tt))))))

abbrev dial : Text → Option ℕ
dial t = if is_empty t then none else some 9

abbrev addresses : Text → Text
addresses name = if same_text name (codes "chat") then codes "chat:50060" else []

abbrev routes : Conns
routes n = if same_text n (codes "chat") then some 9 else none

routes_made : new_router dial addresses service_names ≡ some routes
unfolding new_router
routes_made = refl
