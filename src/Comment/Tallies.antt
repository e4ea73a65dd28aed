-- ===== src/Comment/Tallies.antt =====
-- The counts in a comment's row against the rows that they count, statement by statement.
use lesser.Common.{
  ℕ, ◌+◌, ◌-◌, ◌≤◌, ◌≡◌, ◌≢◌, refl, true, false, ◌&&◌, not, Option, none, some, List, [], ◌∷◌, ◌==◌,
  if◌then◌else◌, any, remove, count_by, arith, count_by-any, count_by-absent, count_by-remove_le,
  Bool-cases, inl, inr,
}
use lesser.Comment.{Comment, State}
use lesser.Comment.Statements.{
  row_of, is_undeleted, update_comment, insert_comment, increment_reply_count,
  decrement_reply_count, set_deleted, is_like, insert_like, delete_like, increment_like_count,
  decrement_like_count,
}

-- The rows that a count stands for.
abbrev pub likes_of : ℕ → List (ℕ × ℕ) → ℕ
likes_of id = count_by (λ l. l.1 == id)

abbrev pub replies_of : ℕ → List Comment → ℕ
replies_of id = count_by (λ c. c.parent_id == id && not c.is_deleted)

abbrev pub rows_with : ℕ → List Comment → ℕ
rows_with id = count_by (λ c. c.id == id)

-- The counts that the row has, 0 when there is no row.
abbrev pub like_count_of : Option Comment → ℕ
like_count_of none = 0
like_count_of (some c) = c.like_count

abbrev pub reply_count_of : Option Comment → ℕ
reply_count_of none = 0
reply_count_of (some c) = c.reply_count

-- Each comment counts its likes and the replies that are not deleted; a comment that is not there has
-- none; identifiers are unique and not 0, and a user likes a comment once at most.
pub record IsTallied (comments : List Comment) (likes : List (ℕ × ℕ)) : Type 0 where
  pub liked : (id : ℕ) → like_count_of (row_of id comments) ≡ likes_of id likes
  pub replied : (id : ℕ) → id ≢ 0 → reply_count_of (row_of id comments) ≡ replies_of id comments
  pub unique : (id : ℕ) → rows_with id comments ≤ 1
  pub once : (user id : ℕ) → count_by (is_like user id) likes ≤ 1

-- A change of a row that keeps its identifier, its parent and its state.
abbrev pub IsQuiet : (Comment → Comment) → Type 0
IsQuiet f =
    (c : Comment)
    → (f c).id ≡ c.id × (f c).parent_id ≡ c.parent_id × (f c).is_deleted ≡ c.is_deleted

abbrev pub updated_row : ℕ → ℕ → (Comment → Comment) → Option Comment → Option Comment
updated_row i id f none = none
updated_row i id f (some c) = if i == id then some (f c) else some c

pub row_of-update :
    (i id : ℕ) (f : Comment → Comment)
    → ((c : Comment) → (f c).id ≡ c.id)
    → (cs : List Comment) → row_of i (update_comment id f cs) ≡ updated_row i id f (row_of i cs)
row_of-update i id f same [] = refl
row_of-update i id f same (c ∷ cs) = ground (arith, same c, row_of-update i id f same cs)

rows_with-update :
    (i id : ℕ) (f : Comment → Comment)
    → ((c : Comment) → (f c).id ≡ c.id)
    → (cs : List Comment) → rows_with i (update_comment id f cs) ≡ rows_with i cs
rows_with-update i id f same [] = refl
rows_with-update i id f same (c ∷ cs) = ground (arith, same c, rows_with-update i id f same cs)

replies_of-quiet :
    (i id : ℕ) (f : Comment → Comment)
    → IsQuiet f
    → (cs : List Comment) → replies_of i (update_comment id f cs) ≡ replies_of i cs
replies_of-quiet i id f quiet [] = refl
replies_of-quiet i id f quiet (c ∷ cs) =
    let (a, p, d) = quiet c in ground (arith, a, p, d, replies_of-quiet i id f quiet cs)

-- An absent row is counted nowhere.
rows_with-absent : (id : ℕ) (cs : List Comment) → row_of id cs ≡ none → rows_with id cs ≡ 0
rows_with-absent id [] h = refl
rows_with-absent id (c ∷ cs) h = ground (arith, rows_with-absent id cs)

rows_with-present :
    (id : ℕ) (c : Comment) (cs : List Comment)
    → row_of id cs ≡ some c
    → (c.id ≡ id) × (1 ≤ rows_with id cs)
rows_with-present id c [] h = ground arith
rows_with-present id c (d ∷ cs) h = ground (arith, rows_with-present id c cs)

update-absent :
    (i id : ℕ) (f : Comment → Comment) (cs : List Comment)
    → rows_with id cs ≡ 0
    → replies_of i (update_comment id f cs) ≡ replies_of i cs
update-absent i id f [] h = refl
update-absent i id f (c ∷ cs) h = ground (arith, update-absent i id f cs)

-- Deleting the only row with an identifier takes one reply from its parent, if it was not deleted.
replies_of-set_deleted :
    (i id : ℕ) (c : Comment) (cs : List Comment)
    → row_of id cs ≡ some c
    → rows_with id cs ≤ 1
    → c.is_deleted ≡ false
    → replies_of i (update_comment id (λ x. record x { is_deleted = true }) cs)
        + (if i == c.parent_id then 1 else 0)
      ≡ replies_of i cs
replies_of-set_deleted i id c [] h one live = ground arith
replies_of-set_deleted i id c (d ∷ cs) h one live = elim (Bool-cases (d.id == id)) [
  | inl here ↦ ground (arith, update-absent i id (λ x. record x { is_deleted = true }) cs)
  | inr there ↦ ground (arith, replies_of-set_deleted i id c cs)
]

-- The tables after the statements of a deletion, of a like and of an unlike.
abbrev pub deleted : ℕ → Comment → State → State
deleted id c t =
    if c.parent_id == 0
    then set_deleted id t
    else decrement_reply_count c.parent_id (set_deleted id t)

abbrev pub liked_by : ℕ → ℕ → State → State
liked_by user id t = increment_like_count id (insert_like user id t)

abbrev pub unliked_by : ℕ → ℕ → State → State
unliked_by user id t = decrement_like_count id (delete_like user id t)

likes_of-remove :
    (user id i : ℕ) (ls : List (ℕ × ℕ))
    → likes_of i (remove (is_like user id) ls)
        + (if i == id then count_by (is_like user id) ls else 0)
      ≡ likes_of i ls
likes_of-remove user id i [] = ground arith
likes_of-remove user id i (l ∷ ls) = ground (arith, likes_of-remove user id i ls)

module _ (t : State) (v : IsTallied t.comments t.likes) where
  pub liked_by-IsTallied :
      (user id : ℕ)
      → is_undeleted (row_of id t.comments) ≡ true
      → any (is_like user id) t.likes ≡ false
      → IsTallied (liked_by user id t).comments (liked_by user id t).likes
  liked_by-IsTallied user id there new =
      let up : Comment → Comment = λ c. record c { like_count = c.like_count + 1 } in
      record {
        liked = λ i. ground (arith, v.liked i, row_of-update i id up (λ c. refl) t.comments);
        replied = λ i ne. ground (
          arith,
          v.replied i ne,
          row_of-update i id up (λ c. refl) t.comments,
          replies_of-quiet i id up (λ c. (refl, refl, refl)) t.comments,
        );
        unique = λ i. ground (arith, v.unique i, rows_with-update i id up (λ c. refl) t.comments);
        once = λ u i. ground (arith, v.once u i, count_by-absent (is_like user id) t.likes);
      }

  pub unliked_by-IsTallied :
      (user id : ℕ)
      → any (is_like user id) t.likes ≡ true
      → IsTallied (unliked_by user id t).comments (unliked_by user id t).likes
  unliked_by-IsTallied user id old =
      let up : Comment → Comment = λ c. record c { like_count = c.like_count - 1 } in
      record {
        liked = λ i. ground (
          arith,
          v.liked i,
          v.once user id,
          count_by-any (is_like user id) t.likes,
          likes_of-remove user id i t.likes,
          row_of-update i id up (λ c. refl) t.comments,
        );
        replied = λ i ne. ground (
          arith,
          v.replied i ne,
          row_of-update i id up (λ c. refl) t.comments,
          replies_of-quiet i id up (λ c. (refl, refl, refl)) t.comments,
        );
        unique = λ i. ground (arith, v.unique i, rows_with-update i id up (λ c. refl) t.comments);
        once = λ u i.
            ground (arith, v.once u i, count_by-remove_le (is_like user id) (is_like u i) t.likes);
      }

  module _ (c : Comment) (fresh : row_of c.id t.comments ≡ none) (named : c.id ≢ 0)
      (live : c.is_deleted ≡ false) (no_likes : c.like_count ≡ 0)
      (no_replies : c.reply_count ≡ 0) where
    pub inserted-IsTallied :
        c.parent_id ≡ 0 → IsTallied (insert_comment c t).comments (insert_comment c t).likes
    inserted-IsTallied top = record {
      liked = λ i. ground (arith, v.liked i);
      replied = λ i ne. ground (arith, v.replied i ne);
      unique = λ i. ground (arith, v.unique i, rows_with-absent c.id t.comments);
      once = v.once;
    }

    pub replied-IsTallied :
        c.parent_id ≢ 0
        → is_undeleted (row_of c.parent_id t.comments) ≡ true
        → IsTallied (increment_reply_count c.parent_id (insert_comment c t)).comments t.likes
    replied-IsTallied ne there =
        let up : Comment → Comment = λ x. record x { reply_count = x.reply_count + 1 } in
        record {
          liked =
              λ i. ground (arith, v.liked i, row_of-update i c.parent_id up (λ x. refl) t.comments);
          replied = λ i nz. ground (
            arith,
            v.replied i nz,
            row_of-update i c.parent_id up (λ x. refl) t.comments,
            replies_of-quiet i c.parent_id up (λ x. (refl, refl, refl)) t.comments,
          );
          unique = λ i. ground (
            arith,
            v.unique i,
            rows_with-absent c.id t.comments,
            rows_with-update i c.parent_id up (λ x. refl) t.comments,
          );
          once = v.once;
        }

  -- The row of a comment before its deletion.
  module _ (id : ℕ) (c : Comment) (there : row_of id t.comments ≡ some c)
      (live : c.is_deleted ≡ false) where
    pub set_deleted-IsTallied : c.parent_id ≡ 0 → IsTallied (set_deleted id t).comments t.likes
    set_deleted-IsTallied top =
        let gone : Comment → Comment = λ x. record x { is_deleted = true } in
        record {
          liked = λ i. ground (arith, v.liked i, row_of-update i id gone (λ x. refl) t.comments);
          replied = λ i nz. ground (
            arith,
            v.replied i nz,
            v.unique id,
            row_of-update i id gone (λ x. refl) t.comments,
            replies_of-set_deleted i id c t.comments,
          );
          unique =
              λ i. ground (arith, v.unique i, rows_with-update i id gone (λ x. refl) t.comments);
          once = v.once;
        }

    pub reply_deleted-IsTallied :
        c.parent_id ≢ 0
        → IsTallied (decrement_reply_count c.parent_id (set_deleted id t)).comments t.likes
    reply_deleted-IsTallied ne =
        let gone : Comment → Comment = λ x. record x { is_deleted = true } in
        let down : Comment → Comment = λ x. record x { reply_count = x.reply_count - 1 } in
        let rest = update_comment id gone t.comments in
        record {
          liked = λ i. ground (
            arith,
            v.liked i,
            row_of-update i id gone (λ x. refl) t.comments,
            row_of-update i c.parent_id down (λ x. refl) rest,
          );
          replied = λ i nz. ground (
            arith,
            v.replied i nz,
            v.unique id,
            row_of-update i id gone (λ x. refl) t.comments,
            row_of-update i c.parent_id down (λ x. refl) rest,
            replies_of-quiet i c.parent_id down (λ x. (refl, refl, refl)) rest,
            replies_of-set_deleted i id c t.comments,
          );
          unique = λ i. ground (
            arith,
            v.unique i,
            rows_with-update i id gone (λ x. refl) t.comments,
            rows_with-update i c.parent_id down (λ x. refl) rest,
          );
          once = v.once;
        }
