-- ===== src/Superuser/Sessions.antt =====
-- Which sessions a token opens.
use lesser.Common.{
  ℕ, ◌≡◌, ◌≢◌, refl, Bool, false, ◌&&◌, not, none, some, List, [], ◌∷◌, map, ◌==◌, any, find, arith,
  if◌then◌else◌,
}
use lesser.Common.Text.{Text}
use lesser.Db.{Store, ok, err, reject}
use lesser.Superuser.{Session, Tables, Crypto, JwtClaims, LoginResult, session_expired}
use lesser.Superuser.Statements.{is_open, is_live, session_of}
use lesser.Superuser.Service.{validate_access_token, refresh_token, logout, log_audit}

abbrev pub never : ℕ → Bool
never n = false

abbrev revoke : (Session → Bool) → ℕ → Session → Session
revoke test now s = if test s && is_open s then record s { revoked_at = some now } else s

-- No session that the test meets is live after the revocation.
revoked_none :
    (test : Session → Bool) (now later hash : ℕ) (ss : List Session)
    → any (λ s. s.token_hash == hash && not (test s)) ss ≡ false
    → find (is_live later hash) (map (revoke test now) ss) ≡ none
revoked_none test now later hash [] h = refl
revoked_none test now later hash (s ∷ ss) h = ground (arith, h, revoked_none test now later hash ss)

own_hash :
    (hash : ℕ) (ss : List Session)
    → any (λ s. s.token_hash == hash && not (s.token_hash == hash)) ss ≡ false
own_hash hash [] = refl
own_hash hash (s ∷ ss) = ground (arith, own_hash hash ss)

module _ (crypto : Crypto) where
  -- A token without a live session is refused, whatever fails.
  pub refresh_token-refused :
      (fails : ℕ → Bool) (now fresh : ℕ) (token : Text) (s : Store Tables)
      → session_of now (crypto.hash_token token) s.tables ≡ none
      → (refresh_token fails crypto now fresh token s).0 ≡ err (reject session_expired)
  unfolding refresh_token
  refresh_token-refused fails now fresh token s h = ground (arith, h)

  rotated :
      (now later fresh : ℕ) (token : Text) (s : Store Tables) (r : LoginResult)
      → (refresh_token never crypto now fresh token s).0 ≡ ok r
      → crypto.hash_token r.refresh_token ≢ crypto.hash_token token
      → session_of later
          (crypto.hash_token token)
          (refresh_token never crypto now fresh token s).1.tables
        ≡ none
  unfolding refresh_token
  rotated now later fresh token s r done other =
      let old =
        revoked_none (λ x. x.token_hash == crypto.hash_token token) now later
          (crypto.hash_token token) s.tables.sessions
          (own_hash (crypto.hash_token token) s.tables.sessions) in
      ground (arith, done, other, old)

  -- When no statement fails in a refresh that returns, and the new token has another hash: refreshing
  -- with the old token is refused at any later time, whatever fails then.
  pub refresh_token-once :
      (now later fresh newer : ℕ) (fails : ℕ → Bool) (token : Text) (s : Store Tables)
      (r : LoginResult)
      → (refresh_token never crypto now fresh token s).0 ≡ ok r
      → crypto.hash_token r.refresh_token ≢ crypto.hash_token token
      → (refresh_token fails crypto later newer token
          (refresh_token never crypto now fresh token s).1).0
        ≡ err (reject session_expired)
  refresh_token-once now later fresh newer fails token s r done other =
      refresh_token-refused fails later newer token (refresh_token never crypto now fresh token s).1
        (rotated now later fresh token s r done other)

  logged_out :
      (now later : ℕ) (access token : Text) (s : Store Tables) (c : JwtClaims)
      → validate_access_token crypto now access ≡ some c
      → any
          (λ x. x.token_hash == crypto.hash_token token && not (x.superuser_id == c.superuser_id))
          s.tables.sessions
        ≡ false
      → session_of later (crypto.hash_token token) (logout never crypto now access s).1.tables
        ≡ none
  unfolding logout log_audit
  logged_out now later access token s c e his =
      let gone =
        revoked_none (λ x. x.superuser_id == c.superuser_id) now later (crypto.hash_token token)
          s.tables.sessions his in
      rw (e) gone

  -- After a logout in which no statement fails, with an access token of a user: each refresh token
  -- that only sessions of his have is refused at any later time, whatever fails then.
  pub logout-revokes :
      (now later fresh : ℕ) (fails : ℕ → Bool) (access token : Text) (s : Store Tables)
      (c : JwtClaims)
      → validate_access_token crypto now access ≡ some c
      → any
          (λ x. x.token_hash == crypto.hash_token token && not (x.superuser_id == c.superuser_id))
          s.tables.sessions
        ≡ false
      → (refresh_token fails crypto later fresh token (logout never crypto now access s).1).0
        ≡ err (reject session_expired)
  logout-revokes now later fresh fails access token s c e his =
      refresh_token-refused fails later fresh token (logout never crypto now access s).1
        (logged_out now later access token s c e his)
