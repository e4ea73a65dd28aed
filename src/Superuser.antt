-- ===== src/Superuser.antt =====
-- The administrators' service, service/superuser/internal: its tables, and those of the other services
-- that it writes. Identifiers, names, passwords and hashes are only compared or handed on, so they are
-- numbers; the identifier 0 is uuid.Nil. Times are in nanoseconds, and a nil pointer is `none`.
pub mod Statements
pub mod Service
pub mod Lists
pub mod Query
pub mod Handler
pub mod Access
pub mod Audit
pub mod Trail
pub mod Writes
pub mod Sessions
pub mod Single
pub mod Until
mod Tests
use lesser.Common.{ℕ, Bool, Option, List}
use lesser.Common.Int.{ℤ}
use lesser.Common.Text.{Text}

pub record SuperUser : Type 0 where
  pub id : ℕ
  pub username : ℕ
  pub email : ℕ
  pub password : ℕ
  pub display_name : ℕ
  pub is_active : Bool
  pub last_login_at : Option ℕ
  pub last_login_ip : Option Text
  pub login_count : ℕ

pub record Session : Type 0 where
  pub superuser_id : ℕ
  pub token_hash : ℕ
  pub ip_address : Option Text
  pub expires_at : ℕ
  pub created_at : ℕ
  pub revoked_at : Option ℕ

pub data Action : Type 0 where
  login logout ban_user unban_user delete_user update_user : Action
  delete_content batch_delete_contents execute_query : Action

pub data TargetType : Type 0 where
  user content system : TargetType

pub data Details : Type 0 where
  nothing : Details
  ip : Text → Details
  ban : Text → ℤ → Details
  hard_delete : Bool → Details
  names : (username display_name : ℕ) → Details
  batch : List ℕ → Bool → ℕ → List ℕ → Details
  queried : Text → ℕ → Details

pub record AuditLog : Type 0 where
  pub superuser_id : ℕ
  pub action : Action
  pub target_type : Option TargetType
  pub target_id : Option ℕ
  pub details : Details
  pub ip_address : Option Text
  pub created_at : ℕ

pub record Ban : Type 0 where
  pub reason : Text
  pub expires_at : Option ℤ
  pub operator_id : ℕ

pub record UserRow : Type 0 where
  pub id : ℕ
  pub username : ℕ
  pub email : ℕ
  pub display_name : ℕ
  pub bio : ℕ
  pub is_active : Bool
  pub created_at : ℕ

pub record ContentRow : Type 0 where
  pub id : ℕ
  pub author_id : ℕ
  pub type : ℕ
  pub status : ℕ
  pub created_at : ℕ

-- `bans` holds the active ban of a user, of which an index allows one. The newest row comes first. A
-- constraint of the database that no definition writes out is among the failures of a statement.
pub record Tables : Type 0 where
  pub superusers : List SuperUser
  pub sessions : List Session
  pub audit_logs : List AuditLog
  pub users : List UserRow
  pub bans : ℕ → Option Ban
  pub contents : List ContentRow

pub data Error : Type 0 where
  invalid_credentials account_disabled session_expired not_found : Error
  crypto_failed query_refused : Error

pub data TokenType : Type 0 where
  access refresh : TokenType

pub record JwtClaims : Type 0 where
  pub superuser_id : ℕ
  pub username : ℕ
  pub token_type : TokenType

-- Argon2 and the JWT library: `none` is an error. A signed token has an identifier of its own, which
-- is the argument `fresh`; a text parses at a time into claims if it is signed and not expired.
pub record Crypto : Type 0 where
  pub verify : (password hash : ℕ) → Option Bool
  pub sign : (fresh now : ℕ) → JwtClaims → Option Text
  pub parse : (now : ℕ) → Text → Option JwtClaims
  pub hash_token : Text → ℕ
  pub refresh_token_duration : ℕ

pub record LoginResult : Type 0 where
  pub superuser : SuperUser
  pub access_token : Text
  pub refresh_token : Text

pub record TokenInfo : Type 0 where
  pub valid : Bool
  pub superuser_id : ℕ
  pub username : ℕ
