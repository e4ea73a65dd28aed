-- ===== src/Comment/Refusals.antt =====
-- Who may delete a comment, and what a deleted comment still allows.
use lesser.Common.{
  ℕ, ◌+◌, ◌-◌, ◌≡◌, ◌≢◌, refl, ap, ◌∙◌, Bool, true, false, some, arith, Option-cases, inl, inr,
}
use lesser.Db.{Store, ok, with_transaction}
use lesser.Content.Client.{Delivery}
use lesser.Comment.{Comment, State}
use lesser.Comment.Statements.{row_of, is_undeleted, update_comment}
use lesser.Comment.Service.{
  delete_comment, delete_row, get_comment, like_comment, like_row, create_row,
}
use lesser.Comment.Tallies.{IsTallied, likes_of, deleted, row_of-update}
use lesser.Comment.Changes.{remote_counter-same}

row_of-deleted :
    (id : ℕ) (c : Comment) (t : State) → is_undeleted (row_of id (deleted id c t).comments) ≡ false
row_of-deleted id c t =
    let gone : Comment → Comment = λ x. record x { is_deleted = true } in
    let down : Comment → Comment = λ x. record x { reply_count = x.reply_count - 1 } in
    ground (
      arith,
      row_of-update id id gone (λ x. refl) t.comments,
      row_of-update id c.parent_id down (λ x. refl) (update_comment id gone t.comments),
    )

-- What a deleted comment refuses.
module _ (fails : ℕ → Bool) (id : ℕ) (s : Store State)
    (gone : is_undeleted (row_of id s.tables.comments) ≡ false) where
  get_comment-deleted : (c : Comment) → (get_comment fails id s).0 ≢ ok c
  unfolding get_comment
  get_comment-deleted c e = ground arith

  like_comment-deleted : (p : Bool) (user n : ℕ) → (like_comment fails p user id s).0 ≢ ok n
  unfolding like_comment like_row with_transaction
  like_comment-deleted p user n e = ground arith

  create_row-deleted :
      (reply : Comment) → reply.parent_id ≡ id → id ≢ 0 → (create_row fails reply s).0 ≢ ok tt
  unfolding create_row with_transaction
  create_row-deleted reply same ne e = grind arith

module _ (fails : ℕ → Bool) (net : ℕ → Delivery) (content_fails : ℕ → Bool) (id user : ℕ)
    (s : Store State) where
  -- DeleteComment returns only to the author of a comment that was there and not deleted.
  pub delete_comment-author :
      (n : ℕ)
      → (delete_comment fails net content_fails id user s).0 ≡ ok n
      → (c : Comment) × (row_of id s.tables.comments ≡ some c)
        × (c.author_id ≡ user)
        × (c.is_deleted ≡ false)
  unfolding delete_comment
  delete_comment-author n e = elim (Option-cases (row_of id s.tables.comments)) [
    | inl missing ↦ ground arith
    | inr (c, found) ↦ (c, found, ground arith, ground arith)
  ]

  delete_comment-written :
      (n : ℕ) (c : Comment)
      → row_of id s.tables.comments ≡ some c
      → (delete_comment fails net content_fails id user s).0 ≡ ok n
      → (delete_comment fails net content_fails id user s).1.tables.comments
        ≡ (deleted id c s.tables).comments
  unfolding delete_comment delete_row with_transaction
  delete_comment-written n c found e = grind (arith, remote_counter-same net content_fails)

  -- When DeleteComment returns, the comment is read, liked and replied to no more: on the tables that
  -- it leaves, GetComment and LikeComment of the comment and the insertion of a reply to it never
  -- return a result, whoever calls them and whatever statements fail.
  pub delete_comment-gone :
      (n : ℕ)
      → (delete_comment fails net content_fails id user s).0 ≡ ok n
      → (t : Store State) → t.tables ≡ (delete_comment fails net content_fails id user s).1.tables
      → (later : ℕ → Bool)
      → ((c : Comment) → (get_comment later id t).0 ≢ ok c)
        × ((p : Bool) (liker m : ℕ) → (like_comment later p liker id t).0 ≢ ok m)
        × ((reply : Comment) → reply.parent_id ≡ id → id ≢ 0 → (create_row later reply t).0 ≢ ok tt)
  delete_comment-gone n e t same later =
      let (c, found, _, _) = delete_comment-author n e in
      let comments = ap (λ x. x.comments) same ∙ delete_comment-written n c found e in
      let gone = ap (λ cs. is_undeleted (row_of id cs)) comments ∙ row_of-deleted id c s.tables in
      (
        get_comment-deleted later id t gone,
        like_comment-deleted later id t gone,
        create_row-deleted later id t gone,
      )

module _ (fails : ℕ → Bool) (user id n : ℕ) (s : Store State)
    (v : IsTallied s.tables.comments s.tables.likes) where
  -- On tables where the counts are right, a call of LikeComment that returns gives the number of the
  -- comment's likes before it and one more, whatever statements fail.
  pub like_comment-count :
      (p : Bool) → (like_comment fails p user id s).0 ≡ ok n → n ≡ likes_of id s.tables.likes + 1
  unfolding like_comment like_row with_transaction
  like_comment-count p e = elim (Option-cases (row_of id s.tables.comments)) [
    | inl missing ↦ ground arith
    | inr (c, found) ↦ ground (
      arith,
      v.liked id,
      row_of-update id id (λ x. record x { like_count = x.like_count + 1 }) (λ x. refl)
          s.tables.comments,
    )
  ]
