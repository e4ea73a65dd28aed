-- ===== src/Notification/Service.antt =====
-- The operations of service/notification/internal/logic/notification_service.go, with their SQL
-- statements.
use lesser.Common.{
  ℕ, ◌-◌, Bool, true, false, ◌&&◌, ◌||◌, not, Option, none, some, List, [], ◌∷◌, ◌++◌, map, ◌==◌,
  ltb, leb, length, take, drop, any, filter, count_by, if◌then◌else◌,
}
use lesser.Common.Int.{ℤ, pos, leb_ℤ, ltb_ℤ, pos_part}
use lesser.Common.Text.{Text}
use lesser.Db.{Exec, pure, fail, ◌>>=◌, ◌>>◌, branch, query, exec, statement}
use lesser.Notification.{
  TargetType, content, comment, user, Notification, Tables, Error, invalid_input,
  notification_not_found,
}

abbrev pub notification_type_like : ℕ
notification_type_like = 1

abbrev pub notification_type_comment : ℕ
notification_type_comment = 2

abbrev pub notification_type_reply : ℕ
notification_type_reply = 3

abbrev pub notification_type_bookmark : ℕ
notification_type_bookmark = 4

abbrev pub notification_type_mention : ℕ
notification_type_mention = 5

abbrev pub notification_type_follow : ℕ
notification_type_follow = 6

abbrev pub notification_type_repost : ℕ
notification_type_repost = 7

-- A column that may be NULL against a value: NULL equals nothing.
abbrev pub equals : ℕ → ℕ → Bool
equals column value = not (column == 0) && column == value

-- WHERE user_id = $1 AND actor_id = $2 AND target_id = $3 AND type = $4
abbrev pub is_duplicate : (user actor target type : ℕ) → Notification → Bool
is_duplicate u actor target type n =
    n.user_id == u && equals n.actor_id actor && equals n.target_id target && n.type == type

-- WHERE user_id = $1 AND is_read = false
abbrev pub is_unread : ℕ → Notification → Bool
is_unread u n = n.user_id == u && not n.is_read

-- UPDATE notifications SET is_read = true WHERE …
abbrev pub mark_read : (Notification → Bool) → Tables → Tables
mark_read test t = record t {
  notifications = map (λ n. if test n then record n { is_read = true } else n) t.notifications;
}

-- The dots stand for themselves.
unfoldable pub truncate_text : Text → ℕ → Text
truncate_text text max =
    if leb max 3
    then text
    else if leb (length text) max
    then text
    else take (max - 3) text ++ 46 ∷ 46 ∷ 46 ∷ []

-- `limit <= 0`, `limit > 100` and `offset < 0`.
abbrev pub limit_of : ℤ → ℕ
limit_of limit =
    if leb_ℤ limit (pos 0) then 20 else if ltb 100 (pos_part limit) then 100 else pos_part limit

abbrev pub offset_of : ℤ → ℕ
offset_of offset = if ltb_ℤ offset (pos 0) then 0 else pos_part offset

abbrev pub listed : ℕ → Bool → Notification → Bool
listed u unread_only n = n.user_id == u && (not unread_only || not n.is_read)

module _ (fails : ℕ → Bool) where
  abbrev pub insert_notification : Notification → Exec Error Tables (Unit {0})
  insert_notification n = exec fails (λ t. record t { notifications = n ∷ t.notifications })

  -- `fresh` is the identifier that a new row gets; that nothing is to be done gives `none`.
  unfoldable pub create :
      (fresh u type actor : ℕ) → TargetType → ℕ → Text → Exec Error Tables (Option Notification)
  create fresh u type actor target_type target message = branch (u == 0) (fail invalid_input) (
      branch (u == actor) (pure none) do
        exists ← query fails (λ t. any (is_duplicate u actor target type) t.notifications)
        branch exists (pure none) do
          let new : Notification = record {
            id = fresh;
            user_id = u;
            type = type;
            actor_id = actor;
            target_type = target_type;
            target_id = target;
            message = message;
            is_read = false;
          }
          insert_notification new
          pure (some new))

  abbrev pub create_like_notification :
      (fresh author liker content_id : ℕ) → Exec Error Tables (Option Notification)
  create_like_notification fresh author liker content_id =
      create fresh author notification_type_like liker content content_id []

  abbrev pub create_comment_notification :
      (fresh author commenter content_id : ℕ) → Text → Exec Error Tables (Option Notification)
  create_comment_notification fresh author commenter content_id text =
      create fresh author notification_type_comment commenter content content_id
        (truncate_text text 100)

  abbrev pub create_reply_notification :
      (fresh parent_author replier comment_id : ℕ) → Text → Exec Error Tables (Option Notification)
  create_reply_notification fresh parent_author replier comment_id text =
      create fresh parent_author notification_type_reply replier comment comment_id
        (truncate_text text 100)

  abbrev pub create_bookmark_notification :
      (fresh author bookmarker content_id : ℕ) → Exec Error Tables (Option Notification)
  create_bookmark_notification fresh author bookmarker content_id =
      create fresh author notification_type_bookmark bookmarker content content_id []

  abbrev pub create_follow_notification :
      (fresh following follower : ℕ) → Exec Error Tables (Option Notification)
  create_follow_notification fresh following follower =
      create fresh following notification_type_follow follower user follower []

  abbrev pub create_repost_notification :
      (fresh author reposter content_id : ℕ) → Exec Error Tables (Option Notification)
  create_repost_notification fresh author reposter content_id =
      create fresh author notification_type_repost reposter content content_id []

  abbrev pub create_mention_notification :
      (fresh mentioned mentioner : ℕ) → TargetType → ℕ → Exec Error Tables (Option Notification)
  create_mention_notification fresh mentioned mentioner target_type target =
      create fresh mentioned notification_type_mention mentioner target_type target []

  abbrev pub create_comment_like_notification :
      (fresh author liker comment_id : ℕ) → Exec Error Tables (Option Notification)
  create_comment_like_notification fresh author liker comment_id =
      create fresh author notification_type_like liker comment comment_id []

  unfoldable pub list : ℕ → Bool → ℤ → ℤ → Exec Error Tables (List Notification × ℕ)
  list u unread_only limit offset = branch (u == 0) (fail invalid_input) do
    total ← query fails (λ t. count_by (listed u unread_only) t.notifications)
    page ← query fails (λ t.
        take (limit_of limit)
          (drop (offset_of offset) (filter (listed u unread_only) t.notifications)))
    pure (page, total)

  unfoldable pub get_unread_count : ℕ → Exec Error Tables ℕ
  get_unread_count u =
      branch (u == 0) (fail invalid_input)
        (query fails (λ t. count_by (is_unread u) t.notifications))

  -- The two updates give how many rows they met.
  abbrev pub mark_rows : (Notification → Bool) → Exec Error Tables ℕ
  mark_rows test s =
      statement (fails s.statements) (count_by test s.tables.notifications)
        (mark_read test s.tables) s

  unfoldable pub mark_as_read : ℕ → ℕ → Exec Error Tables (Unit {0})
  mark_as_read id u = branch (id == 0 || u == 0) (fail invalid_input) (
      mark_rows (λ n. n.id == id && n.user_id == u) >>= λ rows.
      branch (rows == 0) (fail notification_not_found) (pure tt))

  unfoldable pub mark_all_as_read : ℕ → Exec Error Tables ℕ
  mark_all_as_read u = branch (u == 0) (fail invalid_input) (mark_rows (is_unread u))
