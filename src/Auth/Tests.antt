-- ===== src/Auth/Tests.antt =====
-- Logins, bans and lockouts at fixed tables.
use lesser.Common.{ℕ, ◌≡◌, ◌≢◌, refl, Bool, true, false, none, some, [], ◌∷◌, ◌==◌, arith}
use lesser.Db.{Store, ok, err, reject}
use lesser.Auth.{User, Ban, BanInfo, Tables, account_locked, AuthResult, valid, Crypto, Config}
use lesser.Auth.Service.{
  ban_user, check_banned, is_user_banned, login, after_verify, generate_tokens, deactivate_ban,
  set_ban_cache, set_attempts,
}
use lesser.Auth.Bans.{ban_user-login_refused}
use lesser.Auth.Logout.{set_blacklisted, logout}
use lesser.Auth.Lockout.{IsOpen, after_logins, login-locked}

-- A password is its own hash, and a token its user.
abbrev crypto : Crypto
crypto = record {
  is_strong = λ p. true;
  hash = λ p. some p;
  verify = λ p h. some (p == h);
  needs_rehash = λ h. false;
  access_token = λ u. some u;
  refresh_token = λ u. some u;
  validate_refresh_token = λ t. valid t;
  token_id = λ t. some t;
  token_expiry = λ t. some 90;
}

abbrev cfg : Config
cfg = record {
  has_ban_cache = true;
  has_attempt_cache = true;
  has_blacklist = true;
  max_login_attempts = 2;
  attempt_window = 900;
}

abbrev ann : User
ann = record { id = 1; username = 10; email = 20; password = 30; is_active = true }

abbrev spam : Ban
spam = record { reason = 5; expires_at = some 100; created_by = 9 }

abbrev tables : Tables
tables = record {
  users = ann ∷ [];
  bans = λ u. none;
  ban_cache = λ u. none;
  attempts = λ u. none;
  blacklist = λ k. false;
}

abbrev start : Store Tables
start = record { tables = tables; statements = 0 }

abbrev banned : Store Tables
banned = record { tables = record tables { bans = λ u. some spam }; statements = 0 }

abbrev free : BanInfo
free = record { banned = false; reason = 0; expires_at = 0 }

abbrev cached : Store Tables
cached = record { tables = record tables { ban_cache = λ u. some free }; statements = 0 }

abbrev never : ℕ → Bool
never n = false

abbrev second : ℕ → Bool
second n = n == 1

abbrev third : ℕ → Bool
third n = n == 2

abbrev tokens : AuthResult
tokens = record { user = ann; access_token = 1; refresh_token = 1 }

login-ban_past : (login cfg never crypto 101 20 30 banned).0 ≡ ok tokens
unfolding login check_banned is_user_banned after_verify generate_tokens set_attempts set_ban_cache
    deactivate_ban
login-ban_past = refl

ban_user-done : (ban_user cfg never 40 1 5 60 9 cached).0 ≡ ok tt
unfolding ban_user deactivate_ban
ban_user-done = refl

tables-IsOpen : IsOpen cfg crypto ann 20 tables
tables-IsOpen = record { found = refl; free = refl; cached_free = λ e h. cc h }

ban_user-login_refused_example :
    (login cfg never crypto 60 20 30 (ban_user cfg never 40 1 5 60 9 cached).1).0 ≢ ok tokens
ban_user-login_refused_example =
    ban_user-login_refused cfg never crypto ann 40 5 60 9 cached 60 20 30 tokens refl refl refl refl
      ban_user-done

login-locked_example :
    (login cfg never crypto 849 20 30
      (after_logins cfg crypto ann 20 ((50, 31) ∷ (700, 32) ∷ []) start)).0
    ≡ err (reject account_locked)
login-locked_example =
    login-locked cfg crypto ann 20 refl refl 50 31 ((700, 32) ∷ []) start 849 30 tables-IsOpen refl
      refl ((omega arith, refl), tt) (omega arith) (omega arith) (omega arith)

-- After the window the right password is good again.
login-after_window :
    (login cfg never crypto 950 20 30
      (after_logins cfg crypto ann 20 ((50, 31) ∷ (700, 32) ∷ []) start)).0
    ≡ ok tokens
unfolding after_logins login check_banned is_user_banned after_verify generate_tokens set_attempts
    set_ban_cache
login-after_window = refl

logout-lists : (logout cfg never crypto 50 1 start).1.tables.blacklist 1 ≡ true
unfolding logout set_blacklisted
logout-lists = refl
