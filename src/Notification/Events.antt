-- ===== src/Notification/Events.antt =====
-- The handlers of the events, service/notification/internal/messaging/event_worker.go. A handler that
-- returns an error has the broker deliver the event again.
use lesser.Common.{ℕ, suc, Bool, ◌&&◌, not, Option, none, some, ◌==◌}
use lesser.Common.Text.{Text}
use lesser.Db.{Exec, pure, ◌>>=◌, ◌>>◌, branch}
use lesser.Notification.{TargetType, Notification, Tables, Error}
use lesser.Notification.Service.{
  create_like_notification, create_comment_notification, create_reply_notification,
  create_bookmark_notification, create_follow_notification, create_repost_notification,
  create_mention_notification, create_comment_like_notification,
}

-- The events by their fields, as far as the handlers read them.
pub data Event : Type 0 where
  content_liked : (author liker content : ℕ) → Event
  content_bookmarked : (author bookmarker content : ℕ) → Event
  content_reposted : (author reposter content : ℕ) → Event
  comment_created :
      (comment author content content_author parent parent_author : ℕ) (text : Text) → Event
  comment_liked : (author liker comment : ℕ) → Event
  user_followed : (follower following : ℕ) → Event
  user_mentioned : (mentioned mentioner : ℕ) (target_type : TargetType) (target : ℕ) → Event

-- What was made is dropped, and an error is not.
abbrev pub or_error : Exec Error Tables (Option Notification) → Exec Error Tables (Unit {0})
or_error m = m >>= λ _. pure tt

module _ (fails : ℕ → Bool) where
  abbrev pub handle_content_liked : (fresh author liker content : ℕ) → Exec Error Tables (Unit {0})
  handle_content_liked fresh author liker content =
      or_error (create_like_notification fails fresh author liker content)

  abbrev pub handle_content_bookmarked :
      (fresh author bookmarker content : ℕ) → Exec Error Tables (Unit {0})
  handle_content_bookmarked fresh author bookmarker content =
      or_error (create_bookmark_notification fails fresh author bookmarker content)

  abbrev pub handle_content_reposted :
      (fresh author reposter content : ℕ) → Exec Error Tables (Unit {0})
  handle_content_reposted fresh author reposter content =
      or_error (create_repost_notification fails fresh author reposter content)

  -- A reply is told to the parent's author, and a comment to the content's, unless they are the same.
  abbrev pub handle_comment_created :
      (fresh comment author content content_author parent parent_author : ℕ)
      → Text
      → Exec Error Tables (Unit {0})
  handle_comment_created fresh comment author content content_author parent parent_author text = do
    branch (not (parent == 0) && not (parent_author == 0))
        (or_error (create_reply_notification fails fresh parent_author author comment text))
        (pure tt)
    branch (not (content_author == 0) && not (content_author == parent_author))
        (or_error
          (create_comment_notification fails (suc fresh) content_author author content text))
        (pure tt)

  abbrev pub handle_comment_liked : (fresh author liker comment : ℕ) → Exec Error Tables (Unit {0})
  handle_comment_liked fresh author liker comment =
      or_error (create_comment_like_notification fails fresh author liker comment)

  abbrev pub handle_user_followed : (fresh follower following : ℕ) → Exec Error Tables (Unit {0})
  handle_user_followed fresh follower following =
      or_error (create_follow_notification fails fresh following follower)

  abbrev pub handle_user_mentioned :
      (fresh mentioned mentioner : ℕ) → TargetType → ℕ → Exec Error Tables (Unit {0})
  handle_user_mentioned fresh mentioned mentioner target_type target =
      or_error (create_mention_notification fails fresh mentioned mentioner target_type target)

  -- One queue per event. A body that is no event is dropped without an error.
  unfoldable pub handle : ℕ → Option Event → Exec Error Tables (Unit {0})
  handle fresh none = pure tt
  handle fresh (some (content_liked author liker content)) =
      handle_content_liked fresh author liker content
  handle fresh (some (content_bookmarked author bookmarker content)) =
      handle_content_bookmarked fresh author bookmarker content
  handle fresh (some (content_reposted author reposter content)) =
      handle_content_reposted fresh author reposter content
  handle fresh
        (some (comment_created comment author content content_author parent parent_author text)) =
      handle_comment_created fresh comment author content content_author parent parent_author text
  handle fresh (some (comment_liked author liker comment)) =
      handle_comment_liked fresh author liker comment
  handle fresh (some (user_followed follower following)) =
      handle_user_followed fresh follower following
  handle fresh (some (user_mentioned mentioned mentioner target_type target)) =
      handle_user_mentioned fresh mentioned mentioner target_type target
