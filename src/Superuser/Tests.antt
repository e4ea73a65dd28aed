-- ===== src/Superuser/Tests.antt =====
-- Runs of the administrators' service, and an instance of each theorem about it. The library of the
-- tokens is a text of the claims with the token's number.
use lesser.Common.{
  ℕ, suc, ◌+◌, ◌*◌, ◌≡◌, ◌≤◌, ◌<◌, ◌≢◌, refl, Bool, true, false, Option, none, some, List, [], ◌∷◌,
  ◌⊎◌, arith, ◌==◌, if◌then◌else◌,
}
use lesser.Common.Int.{ℤ, pos, ltb_ℤ}
use lesser.Common.Text.{Text, codes}
use lesser.Db.{Store, ok, err, reject}
use lesser.Superuser
use lesser.Superuser.{
  SuperUser, Session, Tables, Crypto, JwtClaims, TokenType, access, refresh, Ban, UserRow,
  LoginResult, session_expired,
}
use lesser.Superuser.Service
use lesser.Superuser.Handler
use lesser.Superuser.Handler.{
  Metadata, Backend, Request, Response, Code, unauthenticated, serve, to_grpc,
}
use lesser.Superuser.Query.{is_refused, limited_query, has_inner_semicolon, QueryResult}
use lesser.Superuser.Access.{IsOperator, serve-authenticated}
use lesser.Superuser.Sessions.{never, refresh_token-once}
use lesser.Superuser.Audit.{IsLogged}
use lesser.Superuser.Trail.{serve-IsLogged}
use lesser.Superuser.Writes.{IsRecorded, serve-IsRecorded}
use lesser.Superuser.Single.{limited_query-single}
use lesser.Superuser.Until.{ban_user-expires}

abbrev parse_token : ℕ → Text → Option JwtClaims
parse_token now (id ∷ name ∷ type ∷ fresh ∷ []) = some record {
  superuser_id = id;
  username = name;
  token_type = if type == 0 then access else refresh;
}
parse_token now _ = none

abbrev token_number : Text → ℕ
token_number (id ∷ name ∷ type ∷ fresh ∷ []) = fresh
token_number _ = 0

abbrev type_number : TokenType → ℕ
type_number access = 0
type_number refresh = 1

abbrev toy : Crypto
toy = record {
  verify = λ password hash. some (password == hash);
  sign = λ fresh now c. some (c.superuser_id ∷ c.username ∷ type_number c.token_type ∷ fresh ∷ []);
  parse = parse_token;
  hash_token = token_number;
  refresh_token_duration = 1000;
}

abbrev ada : SuperUser
ada = record {
  id = 1;
  username = 11;
  email = 12;
  password = 99;
  display_name = 13;
  is_active = true;
  last_login_at = none;
  last_login_ip = none;
  login_count = 0;
}

abbrev bob : UserRow
bob = record {
  id = 5;
  username = 51;
  email = 52;
  display_name = 53;
  bio = 0;
  is_active = true;
  created_at = 2;
}

abbrev store : Store Tables
store = record {
  tables = record {
    superusers = ada ∷ [];
    sessions = [];
    audit_logs = [];
    users = bob ∷ [];
    bans = λ _. none;
    contents = [];
  };
  statements = 0;
}

abbrev backend : Backend
backend = record {
  user_like = λ _ _. true;
  sorted_users = λ _ _ us. us;
  content_like = λ _ _. true;
  sorted_contents = λ _ _ cs. cs;
  comment_count = 0;
  like_count = 0;
  run = λ text t. some record { columns = []; rows = []; row_count = 0 };
}

-- The tokens that a login at the time 10 with the number 7 gives.
abbrev first_access : Text
first_access = 1 ∷ 11 ∷ 0 ∷ 7 ∷ []

abbrev first_refresh : Text
first_refresh = 1 ∷ 11 ∷ 1 ∷ 8 ∷ []

abbrev logged_in : Store Tables
unfolding Service.login
logged_in = (Service.login never toy 10 7 11 99 (codes "::1") store).1

abbrev operator : Option Metadata
operator = some record { authorization = first_access ∷ []; x_forwarded_for = []; x_real_ip = [] }

login-tokens :
    (Service.login never toy 10 7 11 99 (codes "::1") store).0
    ≡ ok record { superuser = ada; access_token = first_access; refresh_token = first_refresh }
unfolding Service.login
login-tokens = refl

login-wrong_password :
    (Service.login never toy 10 7 11 98 [] store).0 ≡ err (reject Superuser.invalid_credentials)
unfolding Service.login
login-wrong_password = refl

is_refused-created_at : is_refused (codes "SELECT created_at FROM users") ≡ true
unfolding is_refused lesser.Superuser.Query.normalized_query lesser.Common.Text.trim_space
    lesser.Superuser.Query.to_upper
is_refused-created_at = refl

serve-authenticated_example :
    ((by : ℕ) × IsOperator toy 20 none by)
    ⊎ (serve toy 20 backend never 9 none (Request.get_user (some 5)) store
        ≡ (err (reject unauthenticated), store))
serve-authenticated_example =
    serve-authenticated toy 20 backend never 9 none store (Request.get_user (some 5)) refl

-- The operator as the login leaves her.
abbrev ada_in : SuperUser
ada_in = record ada { last_login_at = some 10; last_login_ip = some (codes "::1"); login_count = 1 }

refreshed :
    (Service.refresh_token never toy 20 12 first_refresh logged_in).0
    ≡ ok record {
      superuser = ada_in;
      access_token = 1 ∷ 11 ∷ 0 ∷ 12 ∷ [];
      refresh_token = 1 ∷ 11 ∷ 1 ∷ 13 ∷ [];
    }
unfolding Service.refresh_token logged_in
refreshed = refl

refresh_token-once_example :
    (Service.refresh_token never toy 30 20 first_refresh
      (Service.refresh_token never toy 20 12 first_refresh logged_in).1).0
    ≡ err (reject session_expired)
refresh_token-once_example =
    refresh_token-once toy 20 30 12 20 never first_refresh logged_in
      record {
        superuser = ada_in;
        access_token = 1 ∷ 11 ∷ 0 ∷ 12 ∷ [];
        refresh_token = 1 ∷ 11 ∷ 1 ∷ 13 ∷ [];
      }
      refreshed (omega arith)

-- The access token is accepted after the logout.
validate_token-logged_out :
    (serve toy 30 backend never 9 operator
      (Request.get_user (some 5))
      (Service.logout never toy 20 first_access logged_in).1).0
    ≡ ok (Response.user bob)
unfolding serve Service.logout Service.validate_token Service.get_user logged_in
    Handler.validate_auth
validate_token-logged_out = refl

authorized : Handler.validate_auth toy 20 operator ≡ some 1
unfolding Handler.validate_auth Service.validate_token
authorized = refl

serve-IsLogged_example :
    IsLogged 20 1 []
      (serve toy 20 backend
        (λ n. n == 3)
        9
        operator
        (Request.unban_user (some 5))
        store).1.tables.audit_logs
serve-IsLogged_example =
    serve-IsLogged (λ n. n == 3) toy 20 1 backend 9 operator store authorized
      (Request.unban_user (some 5)) refl

banned :
    (serve toy 20 backend never 9 operator (Request.ban_user (some 5) [] (pos 60)) store).0
    ≡ ok Response.empty
unfolding serve Service.ban_user Handler.validate_auth Service.validate_token Service.log_audit
banned = refl

serve-IsRecorded_example :
    IsRecorded 20 1 []
      (serve toy 20 backend never 9 operator
        (Request.ban_user (some 5) [] (pos 60))
        store).1.tables.audit_logs
serve-IsRecorded_example =
    serve-IsRecorded toy 20 1 backend 9 operator store authorized
      (Request.ban_user (some 5) [] (pos 60)) Response.empty refl banned

accepted : is_refused (codes "SELECT id FROM users;") ≡ false
unfolding is_refused lesser.Superuser.Query.normalized_query lesser.Common.Text.trim_space
    lesser.Superuser.Query.to_upper
accepted = refl

limited :
    limited_query (codes "SELECT id FROM users; ") (pos 5000)
    ≡ codes "SELECT id FROM users LIMIT 1000"
unfolding limited_query lesser.Superuser.Query.normalized_query lesser.Common.Text.trim_space
    lesser.Superuser.Query.to_upper
limited = refl

limited_query-single_example :
    has_inner_semicolon (limited_query (codes "SELECT id FROM users;") (pos 50)) ≡ false
limited_query-single_example =
    limited_query-single (codes "SELECT id FROM users;") (pos 50) accepted

ban_user-expires_example :
    (e : ℤ) × (((Service.ban_user never 20 1 5 [] (pos 9223372037) store).1.tables.bans 5
        ≡ some record { reason = []; expires_at = some e; operator_id = 1 })
      × (((9223372037 ≤ 9223372036) × (e ≡ pos (20 + 9223372037 * 1000000000)))
          ⊎ ((9223372036 < 9223372037) × (ltb_ℤ e (pos 20) ≡ true))))
ban_user-expires_example =
    ban_user-expires 20 1 5 [] store bob refl 9223372037 (omega arith) (omega arith)
