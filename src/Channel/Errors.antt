-- ===== src/Channel/Errors.antt =====
-- The status that a client receives: service/channel/internal/logic/errors.go.
use lesser.Common.{ℕ, ◌≡◌, Bool, false, arith}
use lesser.Db.{Store, Failure, sql, reject, Result, ok, err}
use lesser.Channel.{
  Tables, Error, not_found, already_subscribed, not_subscribed, not_channel_owner,
  not_channel_admin, cannot_remove_owner, invalid_channel_name, invalid_post_content,
}
use lesser.Channel.Statements.{has}
use lesser.Channel.Service.{unsubscribe}
use lesser.Channel.Subscribers.{delete_subscription-absent}

pub data Code : Type 0 where
  ok_code not_found_code already_exists permission_denied invalid_argument internal : Code

-- The data access layer's ErrNotSubscribed has no case: the case ErrNotSubscribed is of the value of
-- this package, with another code and message.
unfoldable pub to_grpc_error : Failure Error → Code
to_grpc_error (reject not_found) = not_found_code
to_grpc_error (reject already_subscribed) = already_exists
to_grpc_error (reject not_channel_owner) = permission_denied
to_grpc_error (reject not_channel_admin) = permission_denied
to_grpc_error (reject cannot_remove_owner) = invalid_argument
to_grpc_error (reject invalid_channel_name) = invalid_argument
to_grpc_error (reject invalid_post_content) = invalid_argument
to_grpc_error (reject not_subscribed) = internal
to_grpc_error sql = internal

abbrev pub status_of : {A : Type 0} → Result Error A → Code
status_of (ok _) = ok_code
status_of (err e) = to_grpc_error e

-- An `Unsubscribe` by a user who is not subscribed answers with the code of an internal error, and
-- changes no table.
pub unsubscribe-internal :
    (fails : ℕ → Bool) (c u : ℕ) (s : Store Tables)
    → has c u s.tables.subscriptions ≡ false
    → (status_of (unsubscribe fails c u s).0 ≡ internal)
      × ((unsubscribe fails c u s).1.tables ≡ s.tables)
unfolding unsubscribe to_grpc_error
unsubscribe-internal fails c u s h = ground (arith, delete_subscription-absent c u s.tables h)
