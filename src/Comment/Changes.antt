-- ===== src/Comment/Changes.antt =====
-- What each operation can do to the comments and their likes, with statements and calls failing.
use lesser.Common.{
  ℕ, suc, ◌+◌, ◌∷◌, ◌≡◌, ◌≢◌, sym, subst, Bool, true, false, some, List, any, arith,
}
use lesser.Common.Int.{ℤ}
use lesser.Common.Text.{Text}
use lesser.Db.{Store, with_transaction}
use lesser.Db.Laws.{bind-after}
use lesser.Content.{CounterType}
use lesser.Content.Client.{Delivery}
use lesser.Content.Service.{get, update_counter, check_content_exists}
use lesser.Comment.{Comment, State}
use lesser.Comment.Statements.{
  row_of, is_undeleted, update_comment, insert_comment, increment_reply_count,
  decrement_reply_count, set_deleted, is_like,
}
use lesser.Comment.Remote.{remote_check, remote_counter, content_author}
use lesser.Comment.Service.{
  create_row, delete_row, like_row, unlike_row, like_comment, unlike_comment, post_comment,
  create_checked, create_comment, delete_comment, parent_author, publish_created,
}
use lesser.Comment.Tallies.{liked_by, unliked_by}

abbrev pub OnRows {ℓ} : (List Comment → List (ℕ × ℕ) → Type ℓ) → Store State → Type ℓ
OnRows P s = P s.tables.comments s.tables.likes

module _ (P : List Comment → List (ℕ × ℕ) → Type 0) (fails : ℕ → Bool) (s : Store State)
    (same : OnRows P s) where
  pub like_comment_cases :
      (p : Bool) (user id : ℕ)
      → (is_undeleted (row_of id s.tables.comments) ≡ true
          → any (is_like user id) s.tables.likes ≡ false
          → P (liked_by user id s.tables).comments (liked_by user id s.tables).likes)
      → OnRows P (like_comment fails p user id s).1
  unfolding like_comment like_row with_transaction
  like_comment_cases p user id new = grind arith

  pub unlike_comment_cases :
      (user id : ℕ)
      → (any (is_like user id) s.tables.likes ≡ true
          → P (unliked_by user id s.tables).comments (unliked_by user id s.tables).likes)
      → OnRows P (unlike_comment fails user id s).1
  unfolding unlike_comment unlike_row with_transaction
  unlike_comment_cases user id gone = grind arith

  pub create_row_cases :
      (c : Comment)
      → (c.parent_id ≡ 0 → P (insert_comment c s.tables).comments s.tables.likes)
      → (c.parent_id ≢ 0
          → is_undeleted (row_of c.parent_id s.tables.comments) ≡ true
          → P
              (increment_reply_count c.parent_id (insert_comment c s.tables)).comments
              s.tables.likes)
      → OnRows P (create_row fails c s).1
  unfolding create_row with_transaction
  create_row_cases c top reply = grind arith

  pub delete_row_cases :
      (id : ℕ)
      → ((c : Comment)
          → row_of id s.tables.comments ≡ some c
          → c.is_deleted ≡ false
          → c.parent_id ≡ 0
          → P (set_deleted id s.tables).comments s.tables.likes)
      → ((c : Comment)
          → row_of id s.tables.comments ≡ some c
          → c.is_deleted ≡ false
          → c.parent_id ≢ 0
          → P (decrement_reply_count c.parent_id (set_deleted id s.tables)).comments s.tables.likes)
      → OnRows P (delete_row fails id s).1
  unfolding delete_row with_transaction
  delete_row_cases id top reply = grind arith

-- The calls of the content service and the events touch no comment and no like.
module _ (net : ℕ → Delivery) (content_fails : ℕ → Bool) (s : Store State) where
  remote_check-same :
      (id : ℕ)
      → ((remote_check net content_fails id s).1.tables.comments ≡ s.tables.comments)
        × ((remote_check net content_fails id s).1.tables.likes ≡ s.tables.likes)
  unfolding remote_check check_content_exists
  remote_check-same id = ground arith

  parent_author-same :
      (fails : ℕ → Bool) (parent : ℕ)
      → ((parent_author fails net content_fails parent s).1.tables.comments ≡ s.tables.comments)
        × ((parent_author fails net content_fails parent s).1.tables.likes ≡ s.tables.likes)
  unfolding parent_author
  parent_author-same fails parent = ground arith

  pub remote_counter-same :
      (id : ℕ) (k : CounterType) (delta : ℤ)
      → ((remote_counter net content_fails id k delta s).1.tables.comments ≡ s.tables.comments)
        × ((remote_counter net content_fails id k delta s).1.tables.likes ≡ s.tables.likes)
  unfolding remote_counter update_counter
  remote_counter-same id k delta = ground arith

  publish_created-same :
      (fails : ℕ → Bool) (p : Bool) (by id : ℕ) (c : Comment) (mentioned : List ℕ)
      → ((publish_created fails net content_fails p by id c mentioned s).1.tables.comments
          ≡ s.tables.comments)
        × ((publish_created fails net content_fails p by id c mentioned s).1.tables.likes
            ≡ s.tables.likes)
  unfolding publish_created content_author get
  publish_created-same fails p by id c mentioned = ground arith

module _ (P : List Comment → List (ℕ × ℕ) → Type 0) (fails : ℕ → Bool) (net : ℕ → Delivery)
    (content_fails : ℕ → Bool) (s : Store State) where
  delete_comment-rows :
      (id user : ℕ)
      → OnRows P s
      → OnRows P (delete_row fails id (record s { statements = suc s.statements })).1
      → OnRows P (delete_comment fails net content_fails id user s).1
  unfolding delete_comment
  delete_comment-rows id user same gone = grind (arith, remote_counter-same net content_fails)

  post_comment-rows :
      (p : Bool) (by : ℕ) (new : Comment) (mentioned : List ℕ)
      → OnRows P (create_row fails new s).1
      → OnRows P (post_comment fails net content_fails p by new mentioned s).1
  unfolding post_comment
  post_comment-rows p by new mentioned there =
      grind (arith, remote_counter-same net content_fails, publish_created-same net content_fails)

-- What creating `new` and deleting `id` can make of the rows.
abbrev pub Created :
    (List Comment → List (ℕ × ℕ) → Type 0) → Comment → List Comment → List (ℕ × ℕ) → Type 0
Created P new cs ls =
    P cs ls
    × (new.parent_id ≡ 0 → P (new ∷ cs) ls)
    × (new.parent_id ≢ 0
        → is_undeleted (row_of new.parent_id cs) ≡ true
        → P
            (update_comment new.parent_id (λ x. record x { reply_count = x.reply_count + 1 })
              (new ∷ cs))
            ls)

module _ (P : List Comment → List (ℕ × ℕ) → Type 0) (fails : ℕ → Bool) (net : ℕ → Delivery)
    (content_fails : ℕ → Bool) (s : Store State) where
  pub delete_comment_cases :
      (id user : ℕ)
      → OnRows P s
      → ((c : Comment)
          → row_of id s.tables.comments ≡ some c
          → c.is_deleted ≡ false
          → c.parent_id ≡ 0
          → P (set_deleted id s.tables).comments s.tables.likes)
      → ((c : Comment)
          → row_of id s.tables.comments ≡ some c
          → c.is_deleted ≡ false
          → c.parent_id ≢ 0
          → P (decrement_reply_count c.parent_id (set_deleted id s.tables)).comments s.tables.likes)
      → OnRows P (delete_comment fails net content_fails id user s).1
  delete_comment_cases id user same top reply =
      delete_comment-rows P fails net content_fails s id user same
        (delete_row_cases P fails (record s { statements = suc s.statements }) same id top reply)

  post_comment_cases :
      (p : Bool) (by : ℕ) (new : Comment) (mentioned : List ℕ)
      → OnRows (Created P new) s
      → OnRows P (post_comment fails net content_fails p by new mentioned s).1
  post_comment_cases p by new mentioned (same, top, reply) =
      post_comment-rows P fails net content_fails s p by new mentioned
        (create_row_cases P fails s same new top reply)

abbrev pub new_comment : (fresh author content parent : ℕ) → Text → Comment
new_comment fresh author content parent text = record {
  id = fresh;
  author_id = author;
  content_id = content;
  parent_id = parent;
  text = text;
  is_deleted = false;
  reply_count = 0;
  like_count = 0;
}

module _ (P : List Comment → List (ℕ × ℕ) → Type 0) (fails : ℕ → Bool) (net : ℕ → Delivery)
    (content_fails : ℕ → Bool) (p : Bool) (fresh author content parent : ℕ) (text : Text)
    (mentioned : List ℕ) where
  create_checked-rows :
      (s : Store State)
      → OnRows (Created P (new_comment fresh author content parent text)) s
      → OnRows P
          (create_checked fails net content_fails p fresh author content parent text mentioned s).1
  unfolding create_checked
  create_checked-rows s all =
      let new = new_comment fresh author content parent text in
      let t : Store State = (parent_author fails net content_fails parent s).1 in
      let (same_comments, same_likes) = parent_author-same net content_fails s fails parent in
      let now : OnRows (Created P new) t =
        subst (λ cs. Created P new cs t.tables.likes) (sym same_comments)
          (subst (Created P new s.tables.comments) (sym same_likes) all) in
      bind-after (OnRows P) (λ by. post_comment fails net content_fails p by new mentioned)
        (parent_author fails net content_fails parent) s now.0
        (λ by. post_comment_cases P fails net content_fails t p by new mentioned now)

  create_comment-checks :
      (s : Store State)
      → OnRows P s
      → OnRows P
          (create_checked fails net content_fails p fresh author content parent text mentioned
            (remote_check net content_fails content s).1).1
      → OnRows P
          (create_comment fails net content_fails p fresh author content parent text mentioned s).1
  unfolding create_comment
  create_comment-checks s same rest = grind (arith, remote_check-same net content_fails s content)

  pub create_comment_cases :
      (s : Store State)
      → OnRows (Created P (new_comment fresh author content parent text)) s
      → OnRows P
          (create_comment fails net content_fails p fresh author content parent text mentioned s).1
  create_comment_cases s all =
      let new = new_comment fresh author content parent text in
      let t : Store State = (remote_check net content_fails content s).1 in
      let (same_comments, same_likes) = remote_check-same net content_fails s content in
      let now : OnRows (Created P new) t =
        subst (λ cs. Created P new cs t.tables.likes) (sym same_comments)
          (subst (Created P new s.tables.comments) (sym same_likes) all) in
      create_comment-checks s all.0 (create_checked-rows t now)
