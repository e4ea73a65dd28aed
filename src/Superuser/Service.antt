-- ===== src/Superuser/Service.antt =====
-- The operations of service/superuser/internal/logic/superuser_service.go, and the tokens of
-- internal/crypto/jwt.go. `now` is the time of a call and `fresh` numbers the tokens that it signs.
use lesser.Common.{
  ℕ, suc, ◌+◌, Bool, true, false, ◌||◌, not, Option, none, some, List, [], ◌∷◌, ◌==◌, if◌then◌else◌,
}
use lesser.Common.Int.{ℤ, pos, ltb_ℤ, int64, add_ℤ, ◌*ℤ◌}
use lesser.Common.Text.{Text}
use lesser.Db.{
  ok, err, reject, Result, Exec, pure, fail, ◌>>=◌, ◌>>◌, branch, ignore, query, exec, statement,
}
use lesser.Superuser
use lesser.Superuser.{
  SuperUser, Session, Action, TargetType, Details, AuditLog, Ban, UserRow, Tables, Error, Crypto,
  JwtClaims, TokenType, access, refresh, LoginResult, TokenInfo, invalid_credentials,
  account_disabled, session_expired, not_found, crypto_failed,
}
use lesser.Superuser.Statements.{
  is_some, superuser_by_username, superuser_by_id, update_login_info, session_of, has_open_session,
  insert_session, revoke_where, insert_audit_log, user_by_id, update_user_row, soft_delete_user,
  hard_delete_user, deactivate_ban, insert_ban, soft_delete_content, hard_delete_content,
}

abbrev pub same_type : TokenType → TokenType → Bool
same_type access access = true
same_type access refresh = false
same_type refresh access = false
same_type refresh refresh = true

-- The claims, if they are of the type.
abbrev pub of_type : TokenType → Option JwtClaims → Option JwtClaims
of_type type none = none
of_type type (some c) = if same_type c.token_type type then some c else none

abbrev pub found {ℓ} : {A : Type ℓ} → Error → Option A → Exec Error Tables A
found e none = fail e
found e (some a) = pure a

-- An error is taken for the other one.
abbrev pub or_else {ℓ} : {A : Type ℓ} → Error → Exec Error Tables A → Exec Error Tables A
or_else e m s = let (r, t) = m s in (elim r [ ok a ↦ ok a | err _ ↦ err (reject e) ], t)

abbrev pub is_verified : Option Bool → Bool
is_verified none = false
is_verified (some b) = b

-- time.Now().Add(time.Duration(durationSeconds) * time.Second), for a positive duration.
abbrev pub until : ℕ → ℤ → Option ℤ
until now seconds =
    if ltb_ℤ (pos 0) seconds
    then some (add_ℤ (pos now) (int64 (seconds *ℤ pos 1000000000)))
    else none

module _ (crypto : Crypto) where
  abbrev pub validate_access_token : ℕ → Text → Option JwtClaims
  validate_access_token now token = of_type access (crypto.parse now token)

  abbrev pub validate_refresh_token : ℕ → Text → Option JwtClaims
  validate_refresh_token now token = of_type refresh (crypto.parse now token)

  abbrev pub generate_token : (fresh now : ℕ) → SuperUser → TokenType → Option Text
  generate_token fresh now su type =
      crypto.sign fresh now
        record { superuser_id = su.id; username = su.username; token_type = type }

  abbrev pub info_of : Option JwtClaims → TokenInfo
  info_of none = record { valid = false; superuser_id = 0; username = 0 }
  info_of (some c) = record { valid = true; superuser_id = c.superuser_id; username = c.username }

  -- It asks neither for the session nor for the account.
  unfoldable pub validate_token : ℕ → Text → TokenInfo
  validate_token now token = info_of (validate_access_token now token)

module _ (fails : ℕ → Bool) where
  unfoldable pub log_audit :
      (now by : ℕ)
      → Action
      → Option TargetType
      → Option ℕ
      → Details
      → Option Text
      → Exec Error Tables (Unit {0})
  log_audit now by action type target details ip = ignore (
      exec fails (
        insert_audit_log record {
          superuser_id = by;
          action = action;
          target_type = type;
          target_id = target;
          details = details;
          ip_address = ip;
          created_at = now;
        }))

  -- The index refuses a second open session with the same hash.
  abbrev pub create_session : Session → Exec Error Tables (Unit {0})
  create_session x s =
      statement (fails s.statements || has_open_session x.token_hash s.tables) tt
        (insert_session x s.tables) s

  module _ (crypto : Crypto) where
    abbrev pub new_session : (now : ℕ) → SuperUser → Text → Option Text → Session
    new_session now su token ip = record {
      superuser_id = su.id;
      token_hash = crypto.hash_token token;
      ip_address = ip;
      expires_at = now + crypto.refresh_token_duration;
      created_at = now;
      revoked_at = none;
    }

    unfoldable pub login : (now fresh username password : ℕ) → Text → Exec Error Tables LoginResult
    unfolding log_audit
    login now fresh username password ip = do
      row ← query fails (superuser_by_username username)
      su ← found invalid_credentials row
      branch (not su.is_active) (fail account_disabled) do
        branch (not (is_verified (crypto.verify password su.password))) (fail invalid_credentials)
            do
              access_token ← found crypto_failed (generate_token crypto fresh now su access)
              refresh_token ← found crypto_failed (generate_token crypto (suc fresh) now su refresh)
              ignore (create_session (new_session now su refresh_token (some ip)))
              ignore (exec fails (update_login_info now su.id ip))
              log_audit now su.id Superuser.login none none (Superuser.ip ip) (some ip)
              pure record {
                superuser = su;
                access_token = access_token;
                refresh_token = refresh_token;
              }

    unfoldable pub logout : ℕ → Text → Exec Error Tables (Unit {0})
    unfolding log_audit
    logout now token = do
      claims ← found session_expired (validate_access_token crypto now token)
      ignore (exec fails (revoke_where (λ s. s.superuser_id == claims.superuser_id) now))
      log_audit now claims.superuser_id Superuser.logout none none Superuser.nothing none

    unfoldable pub refresh_token : (now fresh : ℕ) → Text → Exec Error Tables LoginResult
    refresh_token now fresh token = do
      claims ← found session_expired (validate_refresh_token crypto now token)
      row ← or_else session_expired (query fails (session_of now (crypto.hash_token token)))
      session ← found session_expired row
      user_row ← or_else not_found (query fails (superuser_by_id claims.superuser_id))
      su ← found not_found user_row
      branch (not su.is_active) (fail account_disabled) do
        access_token ← found crypto_failed (generate_token crypto fresh now su access)
        new_token ← found crypto_failed (generate_token crypto (suc fresh) now su refresh)
        ignore (exec fails (revoke_where (λ s. s.token_hash == crypto.hash_token token) now))
        ignore (create_session (new_session now su new_token session.ip_address))
        pure record { superuser = su; access_token = access_token; refresh_token = new_token }

  unfoldable pub get_user : ℕ → Exec Error Tables UserRow
  get_user id = query fails (user_by_id id) >>= found not_found

  -- The row refers to a user, and an index allows one active ban of him.
  abbrev pub create_ban : ℕ → Ban → Exec Error Tables (Unit {0})
  create_ban id b s =
      statement
        (fails s.statements
          || (not (is_some (user_by_id id s.tables)) || is_some (s.tables.bans id)))
        tt (insert_ban id b s.tables) s

  unfoldable pub ban_user : (now by id : ℕ) → Text → ℤ → Exec Error Tables (Unit {0})
  unfolding log_audit
  ban_user now by id reason seconds = do
    ignore (exec fails (deactivate_ban id))
    create_ban id record { reason = reason; expires_at = until now seconds; operator_id = by }
    log_audit now by Superuser.ban_user (some Superuser.user) (some id)
        (Superuser.ban reason seconds) none

  unfoldable pub unban_user : (now by id : ℕ) → Exec Error Tables (Unit {0})
  unfolding log_audit
  unban_user now by id = do
    exec fails (deactivate_ban id)
    log_audit now by Superuser.unban_user (some Superuser.user) (some id) Superuser.nothing none

  unfoldable pub delete_user : (now by id : ℕ) → Bool → Exec Error Tables (Unit {0})
  unfolding log_audit
  delete_user now by id hard = do
    branch hard (exec fails (hard_delete_user id)) (exec fails (soft_delete_user id))
    log_audit now by Superuser.delete_user (some Superuser.user) (some id)
        (Superuser.hard_delete hard) none

  -- A user who is not there any more is answered with a nil user, and no error.
  unfoldable pub update_user : (now by : ℕ) → UserRow → Exec Error Tables (Option UserRow)
  unfolding log_audit
  update_user now by u = do
    exec fails (update_user_row u)
    log_audit now by Superuser.update_user (some Superuser.user) (some u.id)
        (Superuser.names u.username u.display_name) none
    query fails (user_by_id u.id)

  abbrev pub delete_content_row : Bool → ℕ → Exec Error Tables (Unit {0})
  delete_content_row hard id =
      branch hard (exec fails (hard_delete_content id)) (exec fails (soft_delete_content id))

  unfoldable pub delete_content : (now by id : ℕ) → Bool → Exec Error Tables (Unit {0})
  unfolding log_audit
  delete_content now by id hard = do
    delete_content_row hard id
    log_audit now by Superuser.delete_content (some Superuser.content) (some id)
        (Superuser.hard_delete hard) none

  abbrev pub counted : ℕ → Result Error (Unit {0}) → ℕ × List ℕ → ℕ × List ℕ
  counted id (ok a) (deleted, failed) = (suc deleted, failed)
  counted id (err e) (deleted, failed) = (deleted, id ∷ failed)

  -- How many were deleted, and those that were not.
  unfoldable pub batch_delete : Bool → List ℕ → Exec Error Tables (ℕ × List ℕ)
  batch_delete hard [] = pure (0, [])
  batch_delete hard (id ∷ ids) = λ s.
      let (r, t) = delete_content_row hard id s in
      (batch_delete hard ids >>= λ rest. pure (counted id r rest)) t

  unfoldable pub batch_delete_contents :
      (now by : ℕ) → List ℕ → Bool → Exec Error Tables (ℕ × List ℕ)
  unfolding log_audit
  batch_delete_contents now by ids hard = do
    (deleted, failed) ← batch_delete hard ids
    log_audit now by Superuser.batch_delete_contents (some Superuser.content) none
        (Superuser.batch ids hard deleted failed) none
    pure (deleted, failed)
