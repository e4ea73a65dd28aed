-- ===== src/Auth/Bans.antt =====
-- What a ban stops, and how it can fail to.
use lesser.Common.{
  ℕ, suc, ◌≡◌, ◌≢◌, sym, subst, Bool, true, false, not, none, some, ◌==◌, arith, Option-cases, inl,
  inr,
}
use lesser.Db.{Store, Result, ok, err, sql}
use lesser.Auth.{User, Ban, BanInfo, Tables, Error, AuthResult, Crypto, Config, valid}
use lesser.Auth.Service.{
  deactivate_ban, insert_ban, set_ban_cache, is_past, until, ban_user, is_user_banned, check_banned,
  login, refresh_token, find_user,
}

-- An active ban is in force at a time.
abbrev pub IsBanned : ℕ → ℕ → Tables → Type 0
IsBanned now u t = (b : Ban) × (t.bans u ≡ some b) × (is_past now b.expires_at ≡ false)

-- The cache does not say that the user is free.
abbrev pub NotFree : ℕ → Tables → Type 0
NotFree u t = (e : BanInfo) → t.ban_cache u ≡ some e → e.banned ≡ true

abbrev says_free : Result Error BanInfo → Bool
says_free (ok i) = not i.banned
says_free (err _) = false

module _ (cfg : Config) (fails : ℕ → Bool) (now u : ℕ) (s : Store Tables) where
  check_banned-IsBanned :
      IsBanned now u s.tables
      → NotFree u s.tables
      → says_free (check_banned cfg fails now u s).0 ≡ false
  unfolding check_banned is_user_banned
  check_banned-IsBanned (b, row, live) free = elim (Option-cases (s.tables.ban_cache u)) [
    | inl missing ↦ ground arith
    | inr (e, cached) ↦ ground (arith, free e cached)
  ]

-- The store after some statements that changed nothing.
abbrev after : ℕ → Store Tables → Store Tables
after n s = record s { statements = n }

module _ (cfg : Config) (fails : ℕ → Bool) (crypto : Crypto) (now : ℕ) (s : Store Tables)
    (user : User) (ban : IsBanned now user.id s.tables) (free : NotFree user.id s.tables) where
  -- A user whose ban is in force gets no tokens from a login, with whatever password and whatever
  -- statements fail, unless the cache says that the user is free.
  pub login-banned_refused :
      (email password : ℕ) (r : AuthResult)
      → find_user (λ u. u.email == email) s.tables.users ≡ some user
      → (login cfg fails crypto now email password s).0 ≢ ok r
  unfolding login
  login-banned_refused email password r found h = ground (
    arith,
    check_banned-IsBanned cfg fails now user.id (after (suc s.statements) s) ban free,
    check_banned-IsBanned cfg fails now user.id (after (suc (suc s.statements)) s) ban free,
  )

  -- A user whose ban is in force gets no tokens from a refresh token, whatever statements fail,
  -- unless the cache says that the user is free.
  pub refresh_token-banned_refused :
      (token : ℕ) (r : AuthResult)
      → crypto.validate_refresh_token token ≡ valid user.id
      → find_user (λ u. u.id == user.id) s.tables.users ≡ some user
      → (refresh_token cfg fails crypto now token s).0 ≢ ok r
  unfolding refresh_token
  refresh_token-banned_refused token r claims found h =
      ground
        (arith, check_banned-IsBanned cfg fails now user.id (after (suc s.statements) s) ban free)

module _ (cfg : Config) (fails : ℕ → Bool) (since u reason duration operator : ℕ)
    (s : Store Tables) where
  -- A `BanUser` that returns no error, and whose deletion of the cached entry, the third statement,
  -- does not fail, leaves the ban in the table and nothing in the cache.
  pub ban_user-ok :
      cfg.has_ban_cache ≡ true
      → fails (suc (suc s.statements)) ≡ false
      → (ban_user cfg fails since u reason duration operator s).0 ≡ ok tt
      → let t = (ban_user cfg fails since u reason duration operator s).1.tables in
        (t.bans u
          ≡ some (record {
            reason = reason;
            expires_at = until since duration;
            created_by = operator;
          }))
        × (t.ban_cache u ≡ none)
  unfolding ban_user insert_ban deactivate_ban set_ban_cache
  ban_user-ok cached up h = ground arith

  ban_user-users :
      (ban_user cfg fails since u reason duration operator s).1.tables.users ≡ s.tables.users
  unfolding ban_user insert_ban deactivate_ban set_ban_cache
  ban_user-users = ground arith

  -- When its second statement fails and the first did not, `BanUser` returns the error and has
  -- lifted the ban that was there.
  pub ban_user-lifts :
      fails s.statements ≡ false
      → fails (suc s.statements) ≡ true
      → ((ban_user cfg fails since u reason duration operator s).0 ≡ err sql)
        × ((ban_user cfg fails since u reason duration operator s).1.tables.bans u ≡ none)
  unfolding ban_user insert_ban deactivate_ban set_ban_cache
  ban_user-lifts up down = ground arith

  -- When the deletion of the cached entry fails, `BanUser` reports success, and the next check
  -- answers from the cache that the user is free.
  pub ban_user-stale :
      (e : BanInfo) (now : ℕ)
      → cfg.has_ban_cache ≡ true
      → s.tables.ban_cache u ≡ some e
      → fails s.statements ≡ false
      → fails (suc s.statements) ≡ false
      → fails (suc (suc s.statements)) ≡ true
      → fails (suc (suc (suc s.statements))) ≡ false
      → let t = (ban_user cfg fails since u reason duration operator s).1 in
        ((ban_user cfg fails since u reason duration operator s).0 ≡ ok tt)
        × ((check_banned cfg fails now u t).0 ≡ ok e)
  unfolding ban_user insert_ban deactivate_ban set_ban_cache check_banned is_user_banned
  ban_user-stale e now cached entry a b c d = ground arith

-- After a `BanUser` that returns no error, and whose deletion of the cached entry does not fail, the
-- user gets no tokens from a login until the ban ends, with whatever password and whatever else fails.
pub ban_user-login_refused :
    (cfg : Config) (fails : ℕ → Bool) (crypto : Crypto) (user : User)
    (since reason duration operator : ℕ) (s : Store Tables) (now email password : ℕ)
    (r : AuthResult)
    → cfg.has_ban_cache ≡ true
    → fails (suc (suc s.statements)) ≡ false
    → find_user (λ u. u.email == email) s.tables.users ≡ some user
    → is_past now (until since duration) ≡ false
    → let (result, t) = ban_user cfg fails since user.id reason duration operator s in
      result ≡ ok tt → (login cfg fails crypto now email password t).0 ≢ ok r
ban_user-login_refused cfg fails crypto user since reason duration operator s now email password r
      cached up found live done =
    let (row, empty) =
      ban_user-ok cfg fails since user.id reason duration operator s cached up done in
    login-banned_refused cfg fails crypto now
      (ban_user cfg fails since user.id reason duration operator s).1 user (_, row, live)
      (λ e cached_e. cc (cached_e, empty)) email password r
      (subst (λ us. find_user (λ u. u.email == email) us ≡ some user)
        (sym (ban_user-users cfg fails since user.id reason duration operator s)) found)
