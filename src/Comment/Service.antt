-- ===== src/Comment/Service.antt =====
-- The operations of service/comment/internal/logic/comment_service.go, with the data access that they
-- call, on a database whose statements may fail.
use lesser.Common.{
  ℕ, Bool, true, false, ◌&&◌, not, Option, none, some, List, [], ◌∷◌, ◌++◌, ◌==◌, ltb, leb, length,
  take, drop, if◌then◌else◌, any, filter, count_by,
}
use lesser.Common.Int.{ℤ, pos, negsuc, leb_ℤ, ltb_ℤ, pos_part}
use lesser.Common.Text.{Text, is_empty}
use lesser.Db.{
  sql, reject, ok, err, Exec, pure, fail, ◌>>=◌, ◌>>◌, branch, query, exec, statement, tx,
  with_transaction,
}
use lesser.Content.{CounterType}
use lesser.Content.Client.{Delivery}
use lesser.Comment.{
  Comment, Event, comment_created, comment_liked, user_mentioned, State, Error, empty_text,
  text_too_long, content_not_found, comments_disabled, invalid_parent, unauthorized,
  comment_not_found, missing_row, already_liked, not_liked, SortBy, OrderClause,
}
use lesser.Comment.Statements.{
  row_of, is_undeleted, insert_comment, increment_reply_count, decrement_reply_count, set_deleted,
  is_like, insert_like, delete_like, increment_like_count, decrement_like_count, counted, listed,
  build_order_clause,
}
use lesser.Comment.Remote.{remote_check, remote_counter, content_author}

abbrev pub max_comment_length : ℕ
max_comment_length = 2000

-- `truncateText`: the dots stand for themselves.
abbrev pub truncate_text : Text → ℕ → Text
truncate_text text max = if leb (length text) max then text else take max text ++ 46 ∷ 46 ∷ 46 ∷ []

abbrev pub mentions : ℕ → ℕ → List ℕ → List Event → List Event
mentions author id [] events = events
mentions author id (u ∷ us) events =
    mentions author id us (if u == author then events else user_mentioned u author id ∷ events)

-- Handing over events, which returns nothing, if there is a publisher.
abbrev pub publish : Bool → (List Event → List Event) → Exec Error State (Unit {0})
publish b f s =
    (ok tt, if b then record s { tables = record s.tables { events = f s.tables.events } } else s)

-- No row is the given error.
abbrev pub or_fail : Error → Option Comment → Exec Error State Comment
or_fail e none = fail e
or_fail e (some c) = pure c

-- `if err != nil { return ErrInvalidParent }`: whatever the error was.
abbrev pub or_invalid_parent : Exec Error State Comment → Exec Error State Comment
or_invalid_parent m s =
    let (r, t) = m s in (elim r [ ok c ↦ ok c | err _ ↦ err (reject invalid_parent) ], t)

-- `if err != nil { createdComment = comment }`
abbrev pub or_given : Comment → Exec Error State Comment → Exec Error State Comment
or_given c m s = let (r, t) = m s in (elim r [ ok d ↦ ok d | err _ ↦ ok c ], t)

module _ (fails : ℕ → Bool) where
  -- GetByID, with the error of the logic or that of the data access for no row.
  abbrev pub get_by_id : Error → ℕ → Exec Error State Comment
  get_by_id e id = query fails (λ t. row_of id t.comments) >>= or_fail e

  abbrev pub when : Bool → Exec Error State (Unit {0}) → Exec Error State (Unit {0})
  when b m = branch b m (pure tt)

  -- The data access's Create.
  unfoldable pub create_row : Comment → Exec Error State (Unit {0})
  unfolding with_transaction
  create_row c = do
    when (not (c.parent_id == 0)) do
      exists ← query fails (λ t. is_undeleted (row_of c.parent_id t.comments))
      branch exists (pure tt) (fail invalid_parent)
    with_transaction fails tx do
      exec fails (insert_comment c)
      when (not (c.parent_id == 0)) (exec fails (increment_reply_count c.parent_id))

  -- The data access's Delete.
  unfoldable pub delete_row : ℕ → Exec Error State Comment
  unfolding with_transaction
  delete_row id = do
    c ← get_by_id missing_row id
    branch c.is_deleted (fail missing_row) do
      with_transaction fails tx do
        exec fails (set_deleted id)
        when (not (c.parent_id == 0)) (exec fails (decrement_reply_count c.parent_id))
      pure c

  -- UPDATE … RETURNING like_count, an error when there is no row.
  abbrev pub returning_likes : ℕ → Exec Error State (Unit {0}) → Exec Error State ℕ
  returning_likes id update s =
      (update >>= λ _. λ t. elim (row_of id t.tables.comments) [
        | none ↦ (err sql, t)
        | some c ↦ (ok c.like_count, t)
      ])
        s

  -- The data access's LikeComment.
  unfoldable pub like_row : ℕ → ℕ → Exec Error State ℕ
  unfolding with_transaction
  like_row user id = with_transaction fails tx do
    exists ← query fails (λ t. is_undeleted (row_of id t.comments))
    branch (not exists) (fail comment_not_found) do
      already_there ← query fails (λ t. any (is_like user id) t.likes)
      branch already_there (fail already_liked) do
        exec fails (insert_like user id)
        returning_likes id (exec fails (increment_like_count id))

  -- The deletion gives whether a row was affected.
  abbrev pub delete_like_row : ℕ → ℕ → Exec Error State Bool
  delete_like_row user id s =
      statement (fails s.statements) (any (is_like user id) s.tables.likes)
        (delete_like user id s.tables) s

  -- The data access's UnlikeComment.
  unfoldable pub unlike_row : ℕ → ℕ → Exec Error State ℕ
  unfolding with_transaction
  unlike_row user id = with_transaction fails tx do
    deleted ← delete_like_row user id
    branch (not deleted) (fail not_liked)
        (returning_likes id (exec fails (decrement_like_count id)))

  unfoldable pub get_comment : ℕ → Exec Error State Comment
  get_comment id =
      get_by_id comment_not_found id >>= λ c. branch c.is_deleted (fail comment_not_found) (pure c)

  unfoldable pub like_comment : Bool → ℕ → ℕ → Exec Error State ℕ
  unfolding like_row
  like_comment has_publisher user id = do
    c ← get_by_id comment_not_found id
    count ← like_row user id
    publish (has_publisher && not (c.author_id == user))
        (λ es. comment_liked id c.author_id user ∷ es)
    pure count

  unfoldable pub unlike_comment : ℕ → ℕ → Exec Error State ℕ
  unfolding unlike_row
  unlike_comment user id = unlike_row user id

  unfoldable pub check_liked : ℕ → ℕ → Exec Error State Bool
  check_liked user id = query fails (λ t. any (is_like user id) t.likes)

  unfoldable pub get_comment_count : ℕ → Exec Error State ℕ
  get_comment_count content = query fails (λ t. count_by (counted content) t.comments)

  -- The map of the counts, where a content that is not asked for has none.
  unfoldable pub batch_get_comment_count : List ℕ → Exec Error State (ℕ → Option ℕ)
  batch_get_comment_count contents s =
      branch (leb (length contents) 0) (pure (λ _. none))
        (query fails (λ t content.
          if any (λ d. d == content) contents
          then some (count_by (counted content) t.comments)
          else none))
        s

  -- `sorted` is the sorting of the database.
  unfoldable pub list_comments :
      (OrderClause → List Comment → List Comment)
      → ℕ
      → ℕ
      → SortBy
      → ℤ
      → ℤ
      → Exec Error State (List Comment × ℕ)
  unfolding build_order_clause
  list_comments sorted content parent sort_by limit offset = do
    let size =
        if leb_ℤ limit (pos 0) then 20 else if ltb 100 (pos_part limit) then 100 else pos_part limit
    let skipped = if ltb_ℤ offset (pos 0) then 0 else pos_part offset
    total ← query fails (λ t. count_by (listed content parent) t.comments)
    page ← query fails (λ t. take size (
        drop skipped (
          sorted (build_order_clause sort_by (not (parent == 0)))
            (filter (listed content parent) t.comments))))
    pure (page, total)

module _ (fails : ℕ → Bool) (net : ℕ → Delivery) (content_fails : ℕ → Bool) where
  -- The author of the parent, for the event.
  unfoldable pub parent_author : ℕ → Exec Error State ℕ
  parent_author parent =
      branch (parent == 0) (pure 0)
        (or_invalid_parent (get_by_id fails comment_not_found parent) >>= λ c. pure c.author_id)

  unfoldable pub publish_created : Bool → ℕ → ℕ → Comment → List ℕ → Exec Error State (Unit {0})
  unfolding content_author
  publish_created has_publisher by id c mentioned = branch (not has_publisher) (pure tt) do
    author ← content_author net content_fails c.content_id
    publish true (λ es. mentions c.author_id id mentioned (
        comment_created id c.author_id c.content_id author c.parent_id by (truncate_text c.text 100)
        ∷ es))

  -- What is done once the parent is known: the row, the counter, the event.
  unfoldable pub post_comment : Bool → ℕ → Comment → List ℕ → Exec Error State (Comment × ℕ)
  unfolding create_row remote_counter publish_created
  post_comment has_publisher by new mentioned = do
    create_row fails new
    count ← remote_counter net content_fails new.content_id CounterType.comment (pos 1)
    created ← or_given new (get_by_id fails comment_not_found new.id)
    publish_created has_publisher by created.id new mentioned
    pure (created, count)

  -- The comment is built, and posted after its parent has been looked up. `fresh` is the identifier
  -- that the row gets.
  unfoldable pub create_checked :
      Bool → ℕ → ℕ → ℕ → ℕ → Text → List ℕ → Exec Error State (Comment × ℕ)
  unfolding parent_author post_comment
  create_checked has_publisher fresh author content parent text mentioned = do
    by ← parent_author parent
    post_comment has_publisher by
        (record {
          id = fresh;
          author_id = author;
          content_id = content;
          parent_id = parent;
          text = text;
          is_deleted = false;
          reply_count = 0;
          like_count = 0;
        })
        mentioned

  unfoldable pub create_comment :
      Bool → ℕ → ℕ → ℕ → ℕ → Text → List ℕ → Exec Error State (Comment × ℕ)
  unfolding remote_check create_checked
  create_comment has_publisher fresh author content parent text mentioned =
      branch (is_empty text) (fail empty_text) (
        branch (ltb max_comment_length (length text)) (fail text_too_long) do
          checked ← remote_check net content_fails content
          branch (not checked.0) (fail content_not_found) (
              branch checked.1 (fail comments_disabled)
                (create_checked has_publisher fresh author content parent text mentioned)))

  unfoldable pub delete_comment : ℕ → ℕ → Exec Error State ℕ
  unfolding delete_row remote_counter
  delete_comment id user = do
    c ← get_by_id fails comment_not_found id
    branch (not (c.author_id == user)) (fail unauthorized) (
        branch c.is_deleted (fail comment_not_found) do
          deleted ← delete_row fails id
          remote_counter net content_fails deleted.content_id CounterType.comment (negsuc 0))
