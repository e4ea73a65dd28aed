-- ===== src/Timeline/Handler.antt =====
-- The gRPC handlers of service/timeline/internal/handler/timeline_handler.go. The conversion of answers
-- to messages of protobuf is left out.
use lesser.Common.{ℕ, Bool, Option, none, some, List, ◌==◌, if◌then◌else◌}
use lesser.Common.Int.{ℤ, pos, int32}
use lesser.Common.Text.{Text, codes, is_empty}
use lesser.Db.{ok, err, sql, reject, Failure, Exec, pure, fail, ◌>>=◌, branch}
use lesser.Page
use lesser.Page.{new_request, limit, offset}
use lesser.Timeline.{FeedItem, FeedItemWithStatus, Tables, Error, content_not_found}
use lesser.Timeline.Service
use lesser.Timeline.Service.{InteractionClient}

pub data Code : Type 0 where
  not_found invalid_argument internal : Code

abbrev pub to_grpc_error : Failure Error → Code
to_grpc_error sql = internal
to_grpc_error (reject content_not_found) = not_found

abbrev pub to_grpc {ℓ} : {A : Type ℓ} → Exec Error Tables A → Exec Code Tables A
to_grpc m s =
    let (r, t) = m s in (elim r [ ok a ↦ ok a | err e ↦ err (reject (to_grpc_error e)) ], t)

-- The page and the page size of a request, if it has them.
abbrev pub extract_pagination : Option (ℤ × ℤ) → Page.Request
extract_pagination none = new_request (pos 1) (pos 20)
extract_pagination (some (page, size)) = new_request page size

pub record FeedResponse : Type 0 where
  pub items : List FeedItemWithStatus
  pub page : ℤ
  pub page_size : ℤ
  pub total : ℤ

abbrev pub respond : Page.Request → List FeedItemWithStatus × ℕ → Exec Code Tables FeedResponse
respond r (items, total) =
    pure record { items = items; page = r.page; page_size = r.page_size; total = int32 (pos total) }

abbrev pub or_week : Text → Text
or_week range = if is_empty range then codes "week" else range

module _ (fails : ℕ → Bool) (ties : ℕ → FeedItem → ℕ) (client : Option InteractionClient) (now : ℕ)
    (pagination : Option (ℤ × ℤ)) where
  unfoldable pub handle_get_following_feed : ℕ → Exec Code Tables FeedResponse
  handle_get_following_feed user =
      let r = extract_pagination pagination in
      branch (user == 0) (fail invalid_argument) (
        to_grpc (Service.get_following_feed fails ties client now user (limit r) (offset r))
        >>= respond r)

  unfoldable pub handle_get_recommend_feed : (ℕ → FeedItem → ℕ) → ℕ → Exec Code Tables FeedResponse
  handle_get_recommend_feed score user =
      let r = extract_pagination pagination in
      to_grpc (Service.get_recommend_feed fails ties client now score user (limit r) (offset r))
      >>= respond r

  unfoldable pub handle_get_user_feed : (user viewer : ℕ) → Exec Code Tables FeedResponse
  handle_get_user_feed user viewer =
      let r = extract_pagination pagination in
      branch (user == 0) (fail invalid_argument) (
        to_grpc (Service.get_user_feed fails ties client now user viewer (limit r) (offset r))
        >>= respond r)

  unfoldable pub handle_get_hot_feed : ℕ → Text → Exec Code Tables FeedResponse
  handle_get_hot_feed user range =
      let r = extract_pagination pagination in
      to_grpc (Service.get_hot_feed fails ties client now user (or_week range) (limit r) (offset r))
      >>= respond r

  unfoldable pub handle_get_content_detail :
      (content viewer : ℕ) → Exec Code Tables FeedItemWithStatus
  handle_get_content_detail content viewer =
      branch (content == 0) (fail invalid_argument)
        (to_grpc (Service.get_content_detail fails client now content viewer))
