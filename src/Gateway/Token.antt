-- ===== src/Gateway/Token.antt =====
-- The validator of tokens, service/gateway/internal/auth/jwt.go. Keys and their names are numbers.
use lesser.Common.{ℕ, suc, Bool, true, false, not, Option, none, some, ◌==◌, if◌then◌else◌}
use lesser.Common.Text.{Text, same_text, codes}
use lesser.Gateway.{
  TokenError, public_key_not_loaded, auth_client_nil, refresh_failed, unsupported_algorithm,
  bad_signature, invalid_token_type, validator_stopped,
}

pub record Claims : Type 0 where
  pub user_id : ℕ
  pub type : Text

-- What the unverified header says: the kind of the algorithm and the name of the key.
pub record Header : Type 0 where
  pub is_rsa : Bool
  pub kid : Option ℕ

pub record KeyState : Type 0 where
  pub key : ℕ
  pub key_id : ℕ

-- The JWT library: the header of a text that is a token, and the claims of a token that the key
-- verifies and that has not expired.
pub record Jwt : Type 0 where
  pub header : Text → Option Header
  pub verify : ℕ → Text → Option Claims

-- `fetched` counts the calls of GetPublicKey.
pub record Validator : Type 0 where
  pub key_state : Option KeyState
  pub fetched : ℕ
  pub has_client : Bool
  pub stopped : Bool

pub data Validation : Type 0 where
  valid : Claims → Validation
  refused : TokenError → Validation

-- Another name than that of the key is answered with one refresh.
abbrev pub names_other : Option ℕ → ℕ → Bool
names_other none id = false
names_other (some kid) id = not (kid == id)

abbrev pub key_or : ℕ → Option KeyState → ℕ
key_or key none = key
key_or key (some k) = k.key

abbrev pub checked : Option Claims → Validation
checked none = refused bad_signature
checked (some c) =
    if not (same_text c.type (codes "access")) then refused invalid_token_type else valid c

-- `fetch n` is the key that the auth service's `n`-th answer has, if it comes and can be read.
module _ (jwt : Jwt) (fetch : ℕ → Option KeyState) where
  unfoldable pub refresh_public_key : Validator → Option TokenError × Validator
  refresh_public_key v =
      if not v.has_client then (some auth_client_nil, v) else elim (fetch v.fetched) [
        | none ↦ (some refresh_failed, record v { fetched = suc v.fetched })
        | some k ↦ (none, record v { fetched = suc v.fetched; key_state = some k })
      ]

  -- The key is loaded before the validator counts as started.
  unfoldable pub start : Validator → Option TokenError × Validator
  unfolding refresh_public_key
  start v =
      if v.stopped
      then (some validator_stopped, v)
      else refresh_public_key (record v { has_client = true })

  -- The function that gives the library the key.
  unfoldable pub key_for : KeyState → Header → Validator → (Option TokenError × ℕ) × Validator
  unfolding refresh_public_key
  key_for state h v =
      if not h.is_rsa
      then ((some unsupported_algorithm, state.key), v)
      else if names_other h.kid state.key_id
      then (let (e, w) = refresh_public_key v in
          elim e [
            | some e ↦ ((some e, state.key), w)
            | none ↦ ((none, key_or state.key w.key_state), w)
          ])
      else ((none, state.key), v)

  abbrev pub with_header : KeyState → Text → Option Header → Validator → Validation × Validator
  with_header state token none v = (refused bad_signature, v)
  with_header state token (some h) v =
      let ((e, key), w) = key_for state h v in
      (elim e [ some e ↦ refused e | none ↦ checked (jwt.verify key token) ], w)

  unfoldable pub validate_token : Text → Validator → Validation × Validator
  unfolding key_for
  validate_token token v = elim v.key_state [
    | none ↦ (refused public_key_not_loaded, v)
    | some state ↦ with_header state token (jwt.header token) v
  ]
