-- ===== src/Superuser/Handler/Requests.antt =====
-- The requests of the gRPC handlers, their metadata and their answers. An identifier of a request is
-- what uuid.Parse makes of its text, `none` for an error.
use lesser.Common.{ℕ, Bool, Option, none, some, List, [], ◌∷◌, ◌==◌, if◌then◌else◌, drop}
use lesser.Common.Int.{ℤ}
use lesser.Common.Text.{Text, codes, has_prefix}
use lesser.Superuser.{UserRow, ContentRow, AuditLog, LoginResult, TokenInfo}
use lesser.Superuser.Lists.{UserFilter, ContentFilter, AuditLogFilter, SystemStats}
use lesser.Superuser.Query.{QueryResult}

pub record Metadata : Type 0 where
  pub authorization : List Text
  pub x_forwarded_for : List Text
  pub x_real_ip : List Text

abbrev pub trim_bearer : Text → Text
trim_bearer s = if has_prefix s (codes "Bearer ") then drop 7 s else s

-- `strings.Split(s, ",")[0]`
abbrev pub first_part : Text → Text
first_part [] = []
first_part (c ∷ s) = if c == 44 then [] else c ∷ first_part s

abbrev pub ip_of : List Text → List Text → Text
ip_of (x ∷ xs) ys = first_part x
ip_of [] (y ∷ ys) = y
ip_of [] [] = codes "unknown"

abbrev pub get_client_ip : Option Metadata → Text
get_client_ip none = codes "unknown"
get_client_ip (some md) = ip_of md.x_forwarded_for md.x_real_ip

pub record UpdateUserRequest : Type 0 where
  pub user_id : Option ℕ
  pub username : Option ℕ
  pub email : Option ℕ
  pub display_name : Option ℕ
  pub bio : Option ℕ
  pub is_active : Option Bool

abbrev pub given {ℓ} : {A : Type ℓ} → Option A → A → A
given none old = old
given (some new) old = new

abbrev pub with_update : UpdateUserRequest → UserRow → UserRow
with_update r u = record u {
  username = given r.username u.username;
  email = given r.email u.email;
  display_name = given r.display_name u.display_name;
  bio = given r.bio u.bio;
  is_active = given r.is_active u.is_active;
}

pub data Request : Type 0 where
  login : (username password : ℕ) → Request
  logout refresh_token validate_token : Text → Request
  list_users : UserFilter → Request
  get_user : Option ℕ → Request
  ban_user : Option ℕ → Text → ℤ → Request
  unban_user : Option ℕ → Request
  delete_user : Option ℕ → Bool → Request
  update_user : UpdateUserRequest → Request
  list_contents : ContentFilter → Request
  delete_content : Option ℕ → Bool → Request
  batch_delete_contents : List (Option ℕ) → Bool → Request
  get_system_stats : Request
  run_query : Text → ℤ → Request
  get_audit_logs : AuditLogFilter → Request

pub data Response : Type 0 where
  empty : Response
  logged_in : LoginResult → Response
  token_info : TokenInfo → Response
  users : List UserRow × ℕ → Response
  user : UserRow → Response
  contents : List ContentRow × ℕ → Response
  deleted : ℕ × List ℕ → Response
  stats : SystemStats → Response
  result : QueryResult → Response
  logs : List AuditLog × ℕ → Response
