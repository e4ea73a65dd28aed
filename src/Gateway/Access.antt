-- ===== src/Gateway/Access.antt =====
-- Who gets through to the handlers.
use lesser.Common.{
  ℕ, suc, ◌≡◌, ◌≢◌, ◌≤◌, ◌∙◌, ◌==◌, ap, List, [], ◌∷◌, map, All, if◌then◌else◌, refl, ◌⊎◌, inl, inr,
  true, Option, none, some, arith, Bool-cases,
}
use lesser.Common.Text.{Text, codes, same_text}
use lesser.Gateway.{rate_limit_exceeded}
use lesser.Gateway.Token.{
  Claims, KeyState, Jwt, Validator, Validation, valid, refused, validate_token, key_for,
  refresh_public_key, checked,
}
use lesser.Gateway.Limiter.{Bucket}
use lesser.Gateway.Interceptor.{is_public, handled, rejected, Front, Request, auth_interceptor}

-- Where a validator takes keys from: what it has loaded, and the next answer of the auth service.
abbrev pub IsTrusted : (ℕ → Option KeyState) → Validator → ℕ → Type 0
IsTrusted fetch v key =
    (k : KeyState) × ((v.key_state ≡ some k) ⊎ (fetch v.fetched ≡ some k)) × (k.key ≡ key)

-- The claims of an answer, and those that a key gives a text: the key verifies it, as an access token.
abbrev claims_of : Validation → Option Claims
claims_of (valid c) = some c
claims_of (refused e) = none

abbrev pub if_access : Option Claims → Option Claims
if_access none = none
if_access (some c) = if same_text c.type (codes "access") then some c else none

module _ (jwt : Jwt) (fetch : ℕ → Option KeyState) where
  -- Validations of these texts, one after another.
  unfoldable pub validate_all : List Text → Validator → List (Option Claims) × Validator
  validate_all [] v = ([], v)
  validate_all (t ∷ ts) v =
      let (r, w) = validate_token jwt fetch t v in
      let (rs, x) = validate_all ts w in (claims_of r ∷ rs, x)

  abbrev pub Names : ℕ → Text → Type 0
  Names kid t = jwt.header t ≡ some (record { is_rsa = true; kid = some kid })

  checked-claims : (c : Option Claims) → claims_of (checked c) ≡ if_access c
  checked-claims none = refl
  checked-claims (some c) = ground arith

  -- While the named key is loaded, and when it comes from the auth service.
  validate_token-loaded :
      (t : Text) (v : Validator) (key : KeyState)
      → v.key_state ≡ some key
      → Names key.key_id t
      → validate_token jwt fetch t v ≡ (checked (jwt.verify key.key t), v)
  unfolding validate_token key_for
  validate_token-loaded t v key loaded header = ground arith

  validate_token-refreshed :
      (t : Text) (v : Validator) (old new : KeyState)
      → v.key_state ≡ some old
      → v.has_client ≡ true
      → Names new.key_id t
      → new.key_id ≢ old.key_id
      → fetch v.fetched ≡ some new
      → validate_token jwt fetch t v ≡ (
        checked (jwt.verify new.key t),
        record v { key_state = some new; fetched = suc v.fetched },
      )
  unfolding validate_token key_for refresh_public_key
  validate_token-refreshed t v old new loaded client header other next = ground arith

  validate_all-loaded :
      (ts : List Text) (v : Validator) (key : KeyState)
      → v.key_state ≡ some key
      → All (Names key.key_id) ts
      → validate_all ts v ≡ (map (λ t. if_access (jwt.verify key.key t)) ts, v)
  unfolding validate_all
  validate_all-loaded [] v key loaded headers = refl
  validate_all-loaded (t ∷ ts) v key loaded (header, headers) =
      rw (validate_token-loaded t v key loaded header) (
        rw (validate_all-loaded ts v key loaded headers)
          (rw (checked-claims (jwt.verify key.key t)) refl))

  validate_all-refreshed :
      (t : Text) (ts : List Text) (v : Validator) (old new : KeyState)
      → v.key_state ≡ some old
      → v.has_client ≡ true
      → new.key_id ≢ old.key_id
      → fetch v.fetched ≡ some new
      → All (Names new.key_id) (t ∷ ts)
      → validate_all (t ∷ ts) v ≡ (
        map (λ t. if_access (jwt.verify new.key t)) (t ∷ ts),
        record v { key_state = some new; fetched = suc v.fetched },
      )
  unfolding validate_all
  validate_all-refreshed t ts v old new loaded client other next (header, headers) =
      rw (validate_token-refreshed t v old new loaded client header other next) (
        rw
          (validate_all-loaded ts (record v { key_state = some new; fetched = suc v.fetched }) new
            refl headers)
          (rw (checked-claims (jwt.verify new.key t)) refl))

  -- For a started validator that has loaded a key, which is the auth service's key or has another name:
  -- in a run of validations of texts whose headers say RSA and name the auth service's key, each text
  -- is accepted exactly when that key verifies it as an access token, with the claims that it has
  -- there, and the auth service is called at most once in the whole run, provided that its next
  -- answer has the key.
  pub validate_token-rotates :
      (ts : List Text) (v : Validator) (old new : KeyState)
      → v.key_state ≡ some old
      → (old.key_id ≡ new.key_id → old ≡ new)
      → v.has_client ≡ true
      → fetch v.fetched ≡ some new
      → All (Names new.key_id) ts
      → ((validate_all ts v).0 ≡ map (λ t. if_access (jwt.verify new.key t)) ts)
        × ((validate_all ts v).1.fetched ≤ suc v.fetched)
  unfolding validate_all
  validate_token-rotates [] v old new loaded same client next headers = (refl, omega arith)
  validate_token-rotates (t ∷ ts) v old new loaded same client next headers =
      elim (Bool-cases (old.key_id == new.key_id)) [
        | inl e ↦
            let run =
              validate_all-loaded (t ∷ ts) v new (loaded ∙ ap some (same (ground (arith, e))))
                headers in
            (ap (λ r. r.0) run, ground (arith, ap (λ r. r.1.fetched) run))
        | inr e ↦
            let run =
              validate_all-refreshed t ts v old new loaded client (ground (arith, e)) next
                headers in
            (ap (λ r. r.0) run, ground (arith, ap (λ r. r.1.fetched) run))
      ]

module _ {ℓ} {B : Type ℓ} (bucket : Bucket B) (jwt : Jwt) (fetch : ℕ → Option KeyState) (now : ℕ)
    (req : Request) (f : Front B) where
  -- The handlers of public methods are called whatever the limiter and the keys are, and a request
  -- that the limiter refuses is not looked at: no key is fetched for it.
  pub auth_interceptor-limited :
      ((is_public req.method ≡ true)
        → auth_interceptor bucket jwt fetch now req f ≡ (handled none, f))
      × ((auth_interceptor bucket jwt fetch now req f).0 ≡ rejected rate_limit_exceeded
          → (auth_interceptor bucket jwt fetch now req f).1.validator ≡ f.validator)
  unfolding auth_interceptor
  auth_interceptor-limited = (λ public. ground arith, λ e. ground arith)
