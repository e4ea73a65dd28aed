-- ===== src/Auth.antt =====
-- The auth service's tables and Redis keys, service/auth/internal/data_access. Identifiers, e-mail
-- addresses, passwords, hashes, tokens and reasons are only compared or handed on, so they are
-- numbers. Times are in seconds. A Redis key that is missing is `none`.
pub mod Service
pub mod Bans
pub mod Login
pub mod Lockout
pub mod Logout
mod Tests
use lesser.Common.{ℕ, Bool, Option, List}

pub record User : Type 0 where
  pub id : ℕ
  pub username : ℕ
  pub email : ℕ
  pub password : ℕ
  pub is_active : Bool

pub record Ban : Type 0 where
  pub reason : ℕ
  pub expires_at : Option ℕ
  pub created_by : ℕ

-- Also the entry of the cache; a time of 0 means for ever.
pub record BanInfo : Type 0 where
  pub banned : Bool
  pub reason : ℕ
  pub expires_at : ℕ

-- The counter of failed logins of a user, and when Redis drops it.
pub record Attempts : Type 0 where
  pub count : ℕ
  pub expires_at : Option ℕ

-- `bans` holds the active ban of a user, of which an index of the database allows one.
pub record Tables : Type 0 where
  pub users : List User
  pub bans : ℕ → Option Ban
  pub ban_cache : ℕ → Option BanInfo
  pub attempts : ℕ → Option Attempts
  pub blacklist : ℕ → Bool

pub data Error : Type 0 where
  user_exists user_not_found password_too_weak : Error
  invalid_credentials account_locked user_banned user_not_active : Error
  invalid_token token_expired crypto_failed : Error

pub record AuthResult : Type 0 where
  pub user : User
  pub access_token : ℕ
  pub refresh_token : ℕ

-- What the refresh token says, if it is signed, of its kind and not expired.
pub data Claims : Type 0 where
  valid : (user_id : ℕ) → Claims
  expired malformed : Claims

-- The package service/auth/internal/crypto, which wraps Argon2 and JWT; `none` is its error. A hash
-- has no salt and a token no time stamp, since neither is read again.
pub record Crypto : Type 0 where
  pub is_strong : ℕ → Bool
  pub hash : ℕ → Option ℕ
  pub verify : ℕ → ℕ → Option Bool
  pub needs_rehash : ℕ → Bool
  pub access_token : ℕ → Option ℕ
  pub refresh_token : ℕ → Option ℕ
  pub validate_refresh_token : ℕ → Claims
  pub token_id : ℕ → Option ℕ
  pub token_expiry : ℕ → Option ℕ

-- Which of the caches are configured, the failures after which an account is locked, and the time
-- after the first of them at which they are forgotten.
pub record Config : Type 0 where
  pub has_ban_cache : Bool
  pub has_attempt_cache : Bool
  pub has_blacklist : Bool
  pub max_login_attempts : ℕ
  pub attempt_window : ℕ
