-- ===== src/Auth/Service.antt =====
-- The operations of service/auth/internal/logic/auth_service.go, on a database and a Redis whose
-- statements may fail. The time of a call, `time.Now()`, is an argument.
use lesser.Common.{
  ℕ, suc, ◌+◌, Bool, true, false, ◌||◌, not, Option, none, some, List, [], ◌∷◌, ◌==◌, ltb, leb,
  if◌then◌else◌,
}
use lesser.Db.{ok, err, Exec, pure, fail, ◌>>=◌, ◌>>◌, ignore, branch, statement, query, exec}
use lesser.Auth.{
  User, Ban, BanInfo, Tables, Error, user_exists, password_too_weak, invalid_credentials,
  account_locked, user_banned, user_not_active, invalid_token, token_expired, crypto_failed,
  Attempts, AuthResult, Claims, valid, expired, malformed, Crypto, Config,
}

-- SELECT … FROM users WHERE …
abbrev pub find_user : (User → Bool) → List User → Option User
find_user p [] = none
find_user p (u ∷ us) = if p u then some u else find_user p us

-- UPDATE users SET password = $1 WHERE id = $3
unfoldable pub set_password : ℕ → ℕ → List User → List User
set_password id h [] = []
set_password id h (u ∷ us) =
    (if u.id == id then record u { password = h } else u) ∷ set_password id h us

abbrev pub is_some {ℓ} : {A : Type ℓ} → Option A → Bool
is_some none = false
is_some (some _) = true

abbrev pub set_at {ℓ} : {V : Type ℓ} → ℕ → V → (ℕ → V) → ℕ → V
set_at k v f i = if i == k then v else f i

-- UPDATE user_bans SET is_active = false WHERE user_id = $1 AND is_active = true
unfoldable pub deactivate_ban : ℕ → Tables → Tables
deactivate_ban u t = record t { bans = set_at u none t.bans }

unfoldable pub insert_ban : ℕ → Ban → Tables → Tables
insert_ban u b t = record t { bans = set_at u (some b) t.bans }

unfoldable pub set_ban_cache : ℕ → Option BanInfo → Tables → Tables
set_ban_cache u e t = record t { ban_cache = set_at u e t.ban_cache }

unfoldable pub set_attempts : ℕ → Option Attempts → Tables → Tables
set_attempts u e t = record t { attempts = set_at u e t.attempts }

-- What Redis has of a key at a time: a key is gone from the time of its expiry on.
abbrev pub is_gone : ℕ → Option ℕ → Bool
is_gone now none = false
is_gone now (some e) = leb e now

abbrev pub live_attempts : ℕ → Option Attempts → Option Attempts
live_attempts now none = none
live_attempts now (some a) = if is_gone now a.expires_at then none else some a

abbrev pub failure_count : Option Attempts → ℕ
failure_count none = 0
failure_count (some a) = a.count

-- INCR keeps the expiry of a key, and makes a key that has none.
abbrev pub incremented : Option Attempts → Attempts
incremented none = record { count = 1; expires_at = none }
incremented (some a) = record a { count = suc a.count }

-- EXPIRE; a key that is not there stays away.
abbrev pub expiring : ℕ → Option Attempts → Option Attempts
expiring e none = none
expiring e (some a) = some (record a { expires_at = some e })

-- A duration that is not positive bans for ever.
abbrev pub until : ℕ → ℕ → Option ℕ
until now duration = if ltb 0 duration then some (now + duration) else none

-- `ban.ExpiresAt != nil && ban.ExpiresAt.Before(now)`
abbrev pub is_past : ℕ → Option ℕ → Bool
is_past now none = false
is_past now (some e) = ltb e now

abbrev pub unix : Option ℕ → ℕ
unix none = 0
unix (some e) = e

abbrev pub info_of : Option Ban → BanInfo
info_of none = record { banned = false; reason = 0; expires_at = 0 }
info_of (some b) = record { banned = true; reason = b.reason; expires_at = unix b.expires_at }

abbrev pub when : Bool → Exec Error Tables (Unit {0}) → Exec Error Tables (Unit {0})
when b m = branch b m (pure tt)

-- A reading whose error is logged and dropped.
abbrev pub or_else {ℓ} : {A : Type ℓ} → A → Exec Error Tables A → Exec Error Tables A
or_else a m s = let (r, t) = m s in (ok (elim r [ ok b ↦ b | err _ ↦ a ]), t)

module _ (cfg : Config) (fails : ℕ → Bool) where
  -- The index on the active bans refuses a second one.
  abbrev pub create_ban : ℕ → Ban → Exec Error Tables (Unit {0})
  create_ban u b s =
      statement (fails s.statements || is_some (s.tables.bans u)) tt (insert_ban u b s.tables) s

  unfoldable pub ban_user : ℕ → ℕ → ℕ → ℕ → ℕ → Exec Error Tables (Unit {0})
  ban_user now u reason duration operator = do
    ignore (exec fails (deactivate_ban u))
    create_ban u
        (record { reason = reason; expires_at = until now duration; created_by = operator })
    when cfg.has_ban_cache (ignore (exec fails (set_ban_cache u none)))

  unfoldable pub unban_user : ℕ → Exec Error Tables (Unit {0})
  unban_user u = do
    exec fails (deactivate_ban u)
    when cfg.has_ban_cache (ignore (exec fails (set_ban_cache u none)))

  -- What `IsUserBanned` makes of the row: one that is past is deleted.
  abbrev pub live_ban : ℕ → ℕ → Option Ban → Exec Error Tables (Option Ban)
  live_ban now u none = pure none
  live_ban now u (some b) =
      branch (is_past now b.expires_at) (ignore (exec fails (deactivate_ban u)) >> pure none)
        (pure (some b))

  unfoldable pub is_user_banned : ℕ → ℕ → Exec Error Tables (Option Ban)
  is_user_banned now u = query fails (λ t. t.bans u) >>= live_ban now u

  abbrev pub cached_ban : ℕ → Exec Error Tables (Option BanInfo)
  cached_ban u =
      branch cfg.has_ban_cache (or_else none (query fails (λ t. t.ban_cache u))) (pure none)

  abbrev pub read_banned : ℕ → ℕ → Option BanInfo → Exec Error Tables BanInfo
  read_banned now u (some e) = pure e
  read_banned now u none = is_user_banned now u >>= λ ban.
      when cfg.has_ban_cache (ignore (exec fails (set_ban_cache u (some (info_of ban)))))
      >> pure (info_of ban)

  unfoldable pub check_banned : ℕ → ℕ → Exec Error Tables BanInfo
  unfolding is_user_banned
  check_banned now u = cached_ban u >>= read_banned now u

  module _ (crypto : Crypto) where
    abbrev pub or_crypto : Option ℕ → Exec Error Tables ℕ
    or_crypto none = fail crypto_failed
    or_crypto (some x) = pure x

    unfoldable pub generate_tokens : User → Exec Error Tables AuthResult
    generate_tokens user = do
      access ← or_crypto (crypto.access_token user.id)
      refresh ← or_crypto (crypto.refresh_token user.id)
      pure (record { user = user; access_token = access; refresh_token = refresh })

    -- `id` is the new user's.
    unfoldable pub register : ℕ → ℕ → ℕ → ℕ → Exec Error Tables AuthResult
    unfolding generate_tokens
    register id username email password =
        branch (not (crypto.is_strong password)) (fail password_too_weak) do
          taken ←
              query fails
                (λ t. is_some (find_user (λ u. u.email == email || u.username == username) t.users))
          branch taken (fail user_exists) do
            hashed ← or_crypto (crypto.hash password)
            let user : User = record {
              id = id;
              username = username;
              email = email;
              password = hashed;
              is_active = true;
            }
            exec fails (λ t. record t { users = user ∷ t.users })
            generate_tokens user

    abbrev pub found : Error → Option User → Exec Error Tables User
    found e none = fail e
    found e (some u) = pure u

    abbrev pub is_locked : ℕ → ℕ → Exec Error Tables Bool
    is_locked now u =
        branch cfg.has_attempt_cache
          (or_else false (
            query fails
              (λ t. leb cfg.max_login_attempts (failure_count (live_attempts now (t.attempts u))))))
          (pure false)

    -- The new hash is stored if it could be made, and the error of storing it is dropped.
    abbrev pub store_hash : ℕ → Option ℕ → Exec Error Tables (Unit {0})
    store_hash u none = pure tt
    store_hash u (some h) = ignore (exec fails (λ t. record t { users = set_password u h t.users }))

    -- The statement gives the new count.
    abbrev pub incr : ℕ → ℕ → Exec Error Tables ℕ
    incr now u s =
        let a = incremented (live_attempts now (s.tables.attempts u)) in
        statement (fails s.statements) a.count (set_attempts u (some a) s.tables) s

    -- The errors of both statements are dropped, and after one of the first there is no second.
    abbrev pub count_failure : ℕ → ℕ → Exec Error Tables (Unit {0})
    count_failure now u = when cfg.has_attempt_cache (
        ignore do
          count ← incr now u
          when (count == 1) (
              exec fails
                λ t. set_attempts u (expiring (now + cfg.attempt_window) (t.attempts u)) t))

    -- From the check of the password on; the last login changes only a time stamp.
    unfoldable pub after_verify : ℕ → ℕ → User → Option Bool → Exec Error Tables AuthResult
    unfolding generate_tokens
    after_verify now password user none = fail crypto_failed
    after_verify now password user (some false) =
        count_failure now user.id >> fail invalid_credentials
    after_verify now password user (some true) = do
      when cfg.has_attempt_cache (ignore (exec fails (set_attempts user.id none)))
      when (crypto.needs_rehash user.password) (store_hash user.id (crypto.hash password))
      ignore (exec fails (λ t. t))
      generate_tokens user

    unfoldable pub login : ℕ → ℕ → ℕ → Exec Error Tables AuthResult
    unfolding check_banned after_verify
    login now email password = do
      user ←
          query fails (λ t. find_user (λ u. u.email == email) t.users) >>= found invalid_credentials
      locked ← is_locked now user.id
      branch locked (fail account_locked) do
        info ← check_banned now user.id
        branch info.banned (fail user_banned) (
            branch (not user.is_active) (fail user_not_active)
              (after_verify now password user (crypto.verify password user.password)))

    abbrev pub refresh_user : Claims → Exec Error Tables User
    refresh_user (valid u) =
        query fails (λ t. find_user (λ x. x.id == u) t.users) >>= found invalid_token
    refresh_user expired = fail token_expired
    refresh_user malformed = fail invalid_token

    unfoldable pub refresh_token : ℕ → ℕ → Exec Error Tables AuthResult
    unfolding check_banned generate_tokens
    refresh_token now token = do
      user ← refresh_user (crypto.validate_refresh_token token)
      info ← check_banned now user.id
      branch info.banned (fail user_banned)
          (branch (not user.is_active) (fail user_not_active) (generate_tokens user))
