-- ===== src/Superuser/Handler.antt =====
-- The gRPC handlers of service/superuser/internal/handler/superuser_handler.go. The conversion
-- of answers to messages of protobuf is left out.
pub mod Requests
pub use Requests.*
use lesser.Common.{
  ℕ, Bool, false, ◌||◌, Option, none, some, List, [], ◌∷◌, map, ◌==◌, if◌then◌else◌, drop,
}
use lesser.Common.Int.{ℤ}
use lesser.Common.Text.{Text, codes, has_prefix, is_empty}
use lesser.Db.{ok, err, sql, reject, Failure, Exec, pure, fail, ◌>>=◌, ◌>>◌, branch}
use lesser.Superuser.{
  Crypto, Tables, Error, UserRow, ContentRow, AuditLog, LoginResult, TokenInfo, invalid_credentials,
  account_disabled, session_expired, not_found, crypto_failed, query_refused,
}
use lesser.Superuser.Service
use lesser.Superuser.Lists
use lesser.Superuser.Lists.{UserFilter, ContentFilter, AuditLogFilter, SystemStats}
use lesser.Superuser.Query.{QueryResult, execute_query}

pub data Code : Type 0 where
  unauthenticated invalid_argument missing permission_denied internal panics : Code

-- Errors that wrap none of the package's own are internal.
unfoldable pub to_grpc_error : Failure Error → Code
to_grpc_error sql = internal
to_grpc_error (reject invalid_credentials) = unauthenticated
to_grpc_error (reject account_disabled) = permission_denied
to_grpc_error (reject session_expired) = unauthenticated
to_grpc_error (reject not_found) = missing
to_grpc_error (reject crypto_failed) = internal
to_grpc_error (reject query_refused) = internal

abbrev pub to_grpc {ℓ} : {A : Type ℓ} → Exec Error Tables A → Exec Code Tables A
to_grpc m s =
    let (r, t) = m s in (elim r [ ok a ↦ ok a | err e ↦ err (reject (to_grpc_error e)) ], t)

-- Errors of uuid.Parse that are dropped leave uuid.Nil.
abbrev pub or_nil : Option ℕ → ℕ
or_nil none = 0
or_nil (some id) = id

abbrev pub parsed : Option ℕ → Exec Code Tables ℕ
parsed none = fail invalid_argument
parsed (some id) = pure id

-- The user that the update gives back is dereferenced.
abbrev pub dereferenced : Option UserRow → Exec Code Tables Response
dereferenced none = fail panics
dereferenced (some u) = pure (user u)

-- What a database does with the lists and the queries.
pub record Backend : Type 0 where
  pub user_like : Text → UserRow → Bool
  pub sorted_users : Text → Bool → List UserRow → List UserRow
  pub content_like : Text → ContentRow → Bool
  pub sorted_contents : Text → Bool → List ContentRow → List ContentRow
  pub comment_count : ℕ
  pub like_count : ℕ
  pub run : Text → Tables → Option QueryResult

module _ (crypto : Crypto) (now : ℕ) where
  abbrev pub auth_of : List Text → Option ℕ
  auth_of [] = none
  auth_of (header ∷ headers) =
      let info = Service.validate_token crypto now (trim_bearer header) in
      if info.valid then some info.superuser_id else none

  unfoldable pub validate_auth : Option Metadata → Option ℕ
  validate_auth none = none
  validate_auth (some md) = auth_of md.authorization

  -- A handler that wants an operator begins with validateAuth.
  abbrev pub with_auth :
      Option Metadata → (ℕ → Exec Code Tables Response) → Exec Code Tables Response
  with_auth md f s = elim (validate_auth md) [
    | none ↦ (err (reject unauthenticated), s)
    | some by ↦ f by s
  ]

  module _ (db : Backend) (fails : ℕ → Bool) (fresh : ℕ) where
    abbrev pub handle_login : Option Metadata → (username password : ℕ) → Exec Code Tables Response
    handle_login md username password =
        branch (username == 0 || password == 0) (fail invalid_argument) (
          to_grpc (Service.login fails crypto now fresh username password (get_client_ip md))
          >>= λ r. pure (logged_in r))

    abbrev pub handle_logout : Text → Exec Code Tables Response
    handle_logout token =
        branch (is_empty token) (fail invalid_argument)
          (to_grpc (Service.logout fails crypto now token) >>= λ _. pure empty)

    abbrev pub handle_refresh_token : Text → Exec Code Tables Response
    handle_refresh_token token =
        branch (is_empty token) (fail invalid_argument)
          (to_grpc (Service.refresh_token fails crypto now fresh token) >>= λ r. pure (logged_in r))

    abbrev pub handle_validate_token : Text → Exec Code Tables Response
    handle_validate_token token = pure (
        token_info (
          if is_empty token
          then record { valid = false; superuser_id = 0; username = 0 }
          else Service.validate_token crypto now token))

    abbrev pub handle_ban_user : Option ℕ → Text → ℤ → ℕ → Exec Code Tables Response
    handle_ban_user id reason seconds by = do
      u ← parsed id
      to_grpc (Service.ban_user fails now by u reason seconds)
      pure empty

    abbrev pub handle_unban_user : Option ℕ → ℕ → Exec Code Tables Response
    handle_unban_user id by = do
      u ← parsed id
      to_grpc (Service.unban_user fails now by u)
      pure empty

    abbrev pub handle_delete_user : Option ℕ → Bool → ℕ → Exec Code Tables Response
    handle_delete_user id hard by = do
      u ← parsed id
      to_grpc (Service.delete_user fails now by u hard)
      pure empty

    abbrev pub handle_update_user : UpdateUserRequest → ℕ → Exec Code Tables Response
    handle_update_user r by = do
      id ← parsed r.user_id
      u ← to_grpc (Service.get_user fails id)
      updated ← to_grpc (Service.update_user fails now by (with_update r u))
      dereferenced updated

    abbrev pub handle_delete_content : Option ℕ → Bool → ℕ → Exec Code Tables Response
    handle_delete_content id hard by = do
      c ← parsed id
      to_grpc (Service.delete_content fails now by c hard)
      pure empty

    abbrev pub handle_batch_delete_contents : List (Option ℕ) → Bool → ℕ → Exec Code Tables Response
    handle_batch_delete_contents ids hard by =
        to_grpc (Service.batch_delete_contents fails now by (map or_nil ids) hard) >>= λ r.
        pure (deleted r)

    abbrev pub handle_execute_query : Text → ℤ → ℕ → Exec Code Tables Response
    handle_execute_query text limit by =
        branch (is_empty text) (fail invalid_argument)
          (to_grpc (execute_query fails db.run now by text limit) >>= λ r. pure (result r))

    abbrev pub handle_list_users : UserFilter → ℕ → Exec Code Tables Response
    handle_list_users f by =
        to_grpc (Lists.list_users fails db.user_like db.sorted_users f) >>= λ r. pure (users r)

    abbrev pub handle_get_user : Option ℕ → ℕ → Exec Code Tables Response
    handle_get_user id by = do u ← parsed id; r ← to_grpc (Service.get_user fails u); pure (user r)

    abbrev pub handle_list_contents : ContentFilter → ℕ → Exec Code Tables Response
    handle_list_contents f by =
        to_grpc (Lists.list_contents fails db.content_like db.sorted_contents f) >>= λ r.
        pure (contents r)

    abbrev pub handle_get_system_stats : ℕ → Exec Code Tables Response
    handle_get_system_stats by =
        to_grpc (Lists.get_system_stats fails db.comment_count db.like_count) >>= λ r.
        pure (stats r)

    abbrev pub handle_get_audit_logs : AuditLogFilter → ℕ → Exec Code Tables Response
    handle_get_audit_logs f by = to_grpc (Lists.get_audit_logs fails f) >>= λ r. pure (logs r)

    unfoldable pub serve : Option Metadata → Request → Exec Code Tables Response
    serve md (login username password) = handle_login md username password
    serve md (logout token) = handle_logout token
    serve md (refresh_token token) = handle_refresh_token token
    serve md (validate_token token) = handle_validate_token token
    serve md (list_users f) = with_auth md (handle_list_users f)
    serve md (get_user id) = with_auth md (handle_get_user id)
    serve md (ban_user id reason seconds) = with_auth md (handle_ban_user id reason seconds)
    serve md (unban_user id) = with_auth md (handle_unban_user id)
    serve md (delete_user id hard) = with_auth md (handle_delete_user id hard)
    serve md (update_user r) = with_auth md (handle_update_user r)
    serve md (list_contents f) = with_auth md (handle_list_contents f)
    serve md (delete_content id hard) = with_auth md (handle_delete_content id hard)
    serve md (batch_delete_contents ids hard) = with_auth md (handle_batch_delete_contents ids hard)
    serve md get_system_stats = with_auth md handle_get_system_stats
    serve md (run_query text limit) = with_auth md (handle_execute_query text limit)
    serve md (get_audit_logs f) = with_auth md (handle_get_audit_logs f)
