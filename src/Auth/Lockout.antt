-- ===== src/Auth/Lockout.antt =====
-- Failed logins lock the account while their counter is in Redis, which is until a window after the
-- first of them has passed.
use lesser.Common.{
  ℕ, suc, ◌+◌, ◌≤◌, ◌<◌, ◌≡◌, Bool, true, false, none, some, List, [], ◌∷◌, ◌==◌, leb,
  if◌then◌else◌, arith, ap, ◌∙◌, length, All, Option-cases, Bool-cases, inl, inr,
}
use lesser.Db.{Store, err, reject}
use lesser.Auth.{User, BanInfo, Tables, account_locked, Crypto, Config}
use lesser.Auth.Service.{
  find_user, set_attempts, set_ban_cache, after_verify, check_banned, is_user_banned, login,
  live_attempts, failure_count,
}

abbrev never : ℕ → Bool
never n = false

module _ (cfg : Config) (crypto : Crypto) (user : User) (email : ℕ) where
  abbrev after_login : ℕ → ℕ → Store Tables → Store Tables
  after_login now password s = (login cfg never crypto now email password s).1

  -- The e-mail address is the user's, who is active and not banned.
  pub record IsOpen (t : Tables) : Type 0 where
    pub found : find_user (λ u. u.email == email) t.users ≡ some user
    pub free : t.bans user.id ≡ none
    pub cached_free : (e : BanInfo) → t.ban_cache user.id ≡ some e → e.banned ≡ false

  -- The store after logins at these times with these passwords, the first one first.
  unfoldable pub after_logins : List (ℕ × ℕ) → Store Tables → Store Tables
  after_logins [] s = s
  after_logins ((now, p) ∷ ps) s = after_logins ps (after_login now p s)

  -- The login comes before this time, with a password that does not fit.
  abbrev pub IsWrong : ℕ → ℕ × ℕ → Type 0
  IsWrong end (now, p) = (now < end) × (crypto.verify p user.password ≡ some false)

  module _ (active : user.is_active ≡ true) (counted : cfg.has_attempt_cache ≡ true) where
    step-found :
        (now password : ℕ) (s : Store Tables)
        → IsOpen s.tables
        → crypto.verify password user.password ≡ some false
        → (after_login now password s).tables.users ≡ s.tables.users
    unfolding login check_banned is_user_banned after_verify set_attempts set_ban_cache
    step-found now password s v wrong = ground (arith, v.found)

    step-bans :
        (now password : ℕ) (s : Store Tables)
        → IsOpen s.tables
        → crypto.verify password user.password ≡ some false
        → (after_login now password s).tables.bans ≡ s.tables.bans
    unfolding login check_banned is_user_banned after_verify set_attempts set_ban_cache
    step-bans now password s v wrong = ground (arith, v.found, v.free)

    -- A live counter that has an expiry keeps it.
    step-count :
        (now password c end : ℕ) (s : Store Tables)
        → IsOpen s.tables
        → crypto.verify password user.password ≡ some false
        → s.tables.attempts user.id ≡ some (record { count = suc c; expires_at = some end })
        → now < end
        → (after_login now password s).tables.attempts user.id
          ≡ some (record {
            count = if leb cfg.max_login_attempts (suc c) then suc c else suc (suc c);
            expires_at = some end;
          })
    unfolding login check_banned is_user_banned after_verify set_attempts set_ban_cache
    step-count now password c end s v wrong entry early =
        elim (Option-cases (s.tables.ban_cache user.id)) [
          | inl missing ↦ ground (arith, v.found, v.free)
          | inr (e, cached) ↦ ground (arith, v.found, v.free, v.cached_free e cached)
        ]

    -- The first failure makes the counter.
    step-first :
        (now password : ℕ) (s : Store Tables)
        → IsOpen s.tables
        → crypto.verify password user.password ≡ some false
        → live_attempts now (s.tables.attempts user.id) ≡ none
        → 0 < cfg.max_login_attempts
        → (after_login now password s).tables.attempts user.id
          ≡ some (record { count = 1; expires_at = some (now + cfg.attempt_window) })
    unfolding login check_banned is_user_banned after_verify set_attempts set_ban_cache
    step-first now password s v wrong new limit = elim (Option-cases (s.tables.ban_cache user.id)) [
      | inl missing ↦ ground (arith, v.found, v.free)
      | inr (e, cached) ↦ ground (arith, v.found, v.free, v.cached_free e cached)
    ]

    step-cache :
        (now password : ℕ) (s : Store Tables)
        → IsOpen s.tables
        → crypto.verify password user.password ≡ some false
        → (e : BanInfo) → (after_login now password s).tables.ban_cache user.id ≡ some e
        → e.banned ≡ false
    unfolding login check_banned is_user_banned after_verify set_attempts set_ban_cache
    step-cache now password s v wrong f h = elim (Option-cases (s.tables.ban_cache user.id)) [
      | inl missing ↦ ground (arith, v.found, v.free)
      | inr (e, cached) ↦ ground (arith, v.found, v.free, v.cached_free e cached)
    ]

    step-IsOpen :
        (now password : ℕ) (s : Store Tables)
        → IsOpen s.tables
        → crypto.verify password user.password ≡ some false
        → IsOpen (after_login now password s).tables
    step-IsOpen now password s v wrong = record {
      found = ap (find_user (λ u. u.email == email)) (step-found now password s v wrong) ∙ v.found;
      free = ap (λ b. b user.id) (step-bans now password s v wrong) ∙ v.free;
      cached_free = step-cache now password s v wrong;
    }

    locked-refused :
        (now password : ℕ) (s : Store Tables)
        → IsOpen s.tables
        → cfg.max_login_attempts ≤ failure_count (live_attempts now (s.tables.attempts user.id))
        → (login cfg never crypto now email password s).0 ≡ err (reject account_locked)
    unfolding login
    locked-refused now password s v full = ground (arith, v.found)

    after_logins-locked :
        (ps : List (ℕ × ℕ)) (c end : ℕ) (s : Store Tables) (now password : ℕ)
        → IsOpen s.tables
        → s.tables.attempts user.id ≡ some (record { count = suc c; expires_at = some end })
        → All (IsWrong end) ps
        → cfg.max_login_attempts ≤ length ps + suc c
        → now < end
        → (login cfg never crypto now email password (after_logins ps s)).0
          ≡ err (reject account_locked)
    unfolding after_logins
    after_logins-locked [] c end s now password v entry wrong enough early =
        locked-refused now password s v (ground (arith, entry, enough, early))
    after_logins-locked ((t, p) ∷ ps) c end s now password v entry ((before, now_wrong), wrong)
          enough early =
        let next = step-count t p c end s v now_wrong entry before in
        let open_still = step-IsOpen t p s v now_wrong in
        elim (Bool-cases (leb cfg.max_login_attempts (suc c))) [
          | inl full ↦
              after_logins-locked ps c end (after_login t p s) now password open_still
                (ground (arith, next, full)) wrong (ground (arith, full)) early
          | inr more ↦
              after_logins-locked ps (suc c) end (after_login t p s) now password open_still
                (ground (arith, next, more)) wrong (ground (arith, enough)) early
        ]

    -- Once as many logins with wrong passwords have run as the limit, which is not 0, allows, a login with any
    -- password, the right one too, is refused because the account is locked, if it and all of them
    -- come before the window has passed that began with the first of them: for an active user who is
    -- not banned and whose earlier failures, if any, are gone from Redis at that first login, with the
    -- counter configured and no statement failing.
    pub login-locked :
        (first wrong_password : ℕ) (ps : List (ℕ × ℕ)) (s : Store Tables) (now password : ℕ)
        → IsOpen s.tables
        → live_attempts first (s.tables.attempts user.id) ≡ none
        → crypto.verify wrong_password user.password ≡ some false
        → All (IsWrong (first + cfg.attempt_window)) ps
        → 0 < cfg.max_login_attempts
        → cfg.max_login_attempts ≤ suc (length ps)
        → now < first + cfg.attempt_window
        → (login cfg never crypto now email password
            (after_logins ((first, wrong_password) ∷ ps) s)).0
          ≡ err (reject account_locked)
    unfolding after_logins
    login-locked first p ps s now password v new now_wrong wrong limit enough early =
        after_logins-locked ps 0 (first + cfg.attempt_window) (after_login first p s) now password
          (step-IsOpen first p s v now_wrong) (step-first first p s v now_wrong new limit) wrong
          (omega (arith, enough)) early
