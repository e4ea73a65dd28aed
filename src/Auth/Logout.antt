-- ===== src/Auth/Logout.antt =====
-- `Logout` of service/auth/internal/logic/auth_service.go and its blacklist of tokens,
-- service/auth/internal/data_access/token_data_access.go.
use lesser.Common.{ℕ, ◌≡◌, Bool, true, false, not, Option, none, some, leb, arith}
use lesser.Db.{Store, Exec, pure, branch, exec}
use lesser.Auth.{Tables, Error, Crypto, Config}
use lesser.Auth.Service.{set_at, generate_tokens, is_user_banned, check_banned, refresh_token}

unfoldable pub set_blacklisted : ℕ → Tables → Tables
set_blacklisted id t = record t { blacklist = set_at id true t.blacklist }

-- `Add`: a token that has expired needs no entry.
abbrev pub add_token : (ℕ → Bool) → ℕ → ℕ → ℕ → Exec Error Tables (Unit {0})
add_token fails now id expires_at =
    branch (leb expires_at now) (pure tt) (exec fails (set_blacklisted id))

-- A token that cannot be read is let through.
abbrev pub add_read : (ℕ → Bool) → ℕ → Option ℕ → Option ℕ → Exec Error Tables (Unit {0})
add_read fails now none _ = pure tt
add_read fails now (some id) none = pure tt
add_read fails now (some id) (some e) = add_token fails now id e

unfoldable pub logout : Config → (ℕ → Bool) → Crypto → ℕ → ℕ → Exec Error Tables (Unit {0})
logout cfg fails crypto now token =
    branch (not cfg.has_blacklist) (pure tt)
      (add_read fails now (crypto.token_id token) (crypto.token_expiry token))

abbrev never : ℕ → Bool
never n = false

-- What a refresh token gives is the same after a `Logout`, with any token, the refresh token itself
-- too, as before it, when no statement fails.
pub logout-refresh_same :
    (cfg : Config) (crypto : Crypto) (now later given token : ℕ) (s : Store Tables)
    → (refresh_token cfg never crypto later token (logout cfg never crypto now given s).1).0
      ≡ (refresh_token cfg never crypto later token s).0
unfolding logout set_blacklisted refresh_token check_banned is_user_banned generate_tokens
logout-refresh_same cfg crypto now later given token s = ground arith
