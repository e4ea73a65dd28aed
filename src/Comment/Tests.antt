-- ===== src/Comment/Tests.antt =====
-- Small runs of the operations on comments.
use lesser.Common.{
  ℕ, ◌≡◌, ◌≢◌, refl, Bool, true, false, none, some, [], ◌∷◌, ◌==◌, if◌then◌else◌, arith,
}
use lesser.Db.{Store, err, reject, with_transaction}
use lesser.Content.{Content, ContentType, ContentStatus}
use lesser.Content.Statements.{update_where}
use lesser.Content.Client.{Delivery}
use lesser.Content.Service.{check_content_exists, update_counter, get}
use lesser.Comment.{Comment, State, SortBy, created_at_asc, unauthorized}
use lesser.Comment.Statements.{row_of, build_order_clause}
use lesser.Comment.Remote.{remote_check, remote_counter, content_author}
use lesser.Comment.Service.{
  create_row, like_comment, parent_author, publish_created, post_comment, create_checked,
  create_comment, delete_comment,
}
use lesser.Comment.Tallies.{IsTallied}
use lesser.Comment.Steps.{Reach, here, next, create_step, like_step, delete_step, Reach-IsTallied}

abbrev up : ℕ → Bool
up _ = false

abbrev net : ℕ → Delivery
net _ = Delivery.answered

abbrev short : Content
short = record {
  author_id = 3;
  type = ContentType.short;
  status = ContentStatus.published;
  title = [];
  text = 97 ∷ [];
  summary = [];
  media_urls = [];
  tags = [];
  reply_to_id = 0;
  quote_id = 0;
  counters = λ _. 0;
  view_count = 0;
  is_published = true;
  expires_at = none;
  is_pinned = false;
  comments_disabled = false;
}

abbrev empty_store : Store State
empty_store = record {
  tables = record {
    comments = [];
    likes = [];
    events = [];
    content = record {
      tables = record {
        contents = λ k. if k == 7 then some short else none;
        ids = 7 ∷ [];
        events = [];
      };
      statements = 0;
    };
  };
  statements = 0;
}

abbrev posted : Store State
posted = (create_comment up net up true 20 5 7 0 (97 ∷ []) [] empty_store).1

abbrev answered : Store State
answered = (create_comment up net up true 21 6 7 20 (98 ∷ []) [] posted).1

abbrev liked : Store State
liked = (like_comment up true 9 20 answered).1

reply_counted : Store State → ℕ
reply_counted s = elim (row_of 20 s.tables.comments) [ none ↦ 0 | some c ↦ c.reply_count ]

answered_count : reply_counted answered ≡ 1
unfolding reply_counted create_comment create_checked post_comment parent_author create_row
    with_transaction remote_check remote_counter content_author publish_created check_content_exists
    update_counter get update_where
answered_count = refl

delete_by_another : (delete_comment up net up 20 9 posted).0 ≡ err (reject unauthorized)
unfolding create_comment create_checked post_comment parent_author create_row with_transaction
    remote_check remote_counter content_author publish_created check_content_exists update_counter
    get update_where delete_comment
delete_by_another = refl

-- The newest replies are asked for, and the oldest come first.
newest_replies : build_order_clause SortBy.newest true ≡ created_at_asc
unfolding build_order_clause
newest_replies = refl

empty-IsTallied : IsTallied empty_store.tables.comments empty_store.tables.likes
empty-IsTallied = record {
  liked = λ id. refl;
  replied = λ id ne. refl;
  unique = λ id. ground arith;
  once = λ user id. ground arith;
}

posted_21 : row_of 21 posted.tables.comments ≡ none
unfolding create_comment create_checked post_comment parent_author create_row with_transaction
    remote_check remote_counter content_author publish_created check_content_exists update_counter
    get update_where
posted_21 = refl

twenty : ◌≢◌ {A = ℕ} 20 0
twenty = ground arith

twenty_one : ◌≢◌ {A = ℕ} 21 0
twenty_one = ground arith

abbrev run : Reach empty_store (delete_comment up net up 21 6 liked).1
run =
    next
      (next
        (next (next here (create_step up net up true 20 5 7 0 (97 ∷ []) [] empty_store twenty refl))
          (create_step up net up true 21 6 7 20 (98 ∷ []) [] posted twenty_one posted_21))
        (like_step up true 9 20 answered))
      (delete_step up net up 21 6 liked)

Reach-IsTallied_example :
    IsTallied
      (delete_comment up net up 21 6 liked).1.tables.comments
      (delete_comment up net up 21 6 liked).1.tables.likes
Reach-IsTallied_example = Reach-IsTallied run empty-IsTallied

abbrev first : Comment
first = record {
  id = 20;
  author_id = 5;
  content_id = 7;
  parent_id = 0;
  text = 97 ∷ [];
  is_deleted = false;
  reply_count = 0;
  like_count = 0;
}

abbrev one_comment : Store State
one_comment = record empty_store { tables = record empty_store.tables { comments = first ∷ [] } }

one-IsTallied : IsTallied one_comment.tables.comments one_comment.tables.likes
one-IsTallied = record {
  liked = λ id. ground arith;
  replied = λ id ne. ground arith;
  unique = λ id. ground arith;
  once = λ user id. ground arith;
}
