-- ===== src/Comment/Statements.antt =====
-- The SQL statements of service/comment/internal/data_access/comment_data_access.go.
use lesser.Common.{
  ℕ, ◌+◌, ◌-◌, Bool, true, false, ◌&&◌, not, Option, none, some, List, ◌∷◌, map, ◌==◌,
  if◌then◌else◌, remove, find,
}
use lesser.Comment.{Comment, State, SortBy, OrderClause}

-- SELECT … FROM comments WHERE id = $1, deleted or not
abbrev pub row_of : ℕ → List Comment → Option Comment
row_of id = find (λ c. c.id == id)

abbrev pub is_undeleted : Option Comment → Bool
is_undeleted none = false
is_undeleted (some c) = not c.is_deleted

-- UPDATE comments SET … WHERE id = $1
abbrev pub update_comment : ℕ → (Comment → Comment) → List Comment → List Comment
update_comment id f = map (λ c. if c.id == id then f c else c)

abbrev pub on_comments : (List Comment → List Comment) → State → State
on_comments f t = record t { comments = f t.comments }

abbrev pub insert_comment : Comment → State → State
insert_comment c = on_comments (λ cs. c ∷ cs)

abbrev pub increment_reply_count : ℕ → State → State
increment_reply_count id =
    on_comments (update_comment id (λ c. record c { reply_count = c.reply_count + 1 }))

-- GREATEST(reply_count - 1, 0): the subtraction of naturals.
abbrev pub decrement_reply_count : ℕ → State → State
decrement_reply_count id =
    on_comments (update_comment id (λ c. record c { reply_count = c.reply_count - 1 }))

abbrev pub set_deleted : ℕ → State → State
set_deleted id = on_comments (update_comment id (λ c. record c { is_deleted = true }))

abbrev pub is_like : ℕ → ℕ → ℕ × ℕ → Bool
is_like user id l = l.0 == user && l.1 == id

abbrev pub insert_like : ℕ → ℕ → State → State
insert_like user id t = record t { likes = (user, id) ∷ t.likes }

abbrev pub delete_like : ℕ → ℕ → State → State
delete_like user id t = record t { likes = remove (is_like user id) t.likes }

abbrev pub increment_like_count : ℕ → State → State
increment_like_count id =
    on_comments (update_comment id (λ c. record c { like_count = c.like_count + 1 }))

-- GREATEST(like_count - 1, 0)
abbrev pub decrement_like_count : ℕ → State → State
decrement_like_count id =
    on_comments (update_comment id (λ c. record c { like_count = c.like_count - 1 }))

-- WHERE post_id = $1 AND is_deleted = false
abbrev pub counted : ℕ → Comment → Bool
counted content c = c.content_id == content && not c.is_deleted

-- WHERE post_id = $1 AND parent_id = $2 (or IS NULL) AND is_deleted = false
abbrev pub listed : ℕ → ℕ → Comment → Bool
listed content parent c = counted content c && c.parent_id == parent

unfoldable pub build_order_clause : SortBy → Bool → OrderClause
build_order_clause SortBy.oldest is_reply = OrderClause.created_at_asc
build_order_clause SortBy.hottest is_reply = OrderClause.like_count_desc
build_order_clause SortBy.recommended is_reply = OrderClause.like_count_desc
build_order_clause SortBy.newest is_reply =
    if is_reply then OrderClause.created_at_asc else OrderClause.created_at_desc
build_order_clause SortBy.unspecified is_reply =
    if is_reply then OrderClause.created_at_asc else OrderClause.created_at_desc
