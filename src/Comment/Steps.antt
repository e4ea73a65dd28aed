-- ===== src/Comment/Steps.antt =====
-- Runs of the operations on comments, with statements and calls failing anywhere.
use lesser.Common.{ℕ, ◌≡◌, ◌≢◌, refl, Bool, none, List}
use lesser.Common.Text.{Text}
use lesser.Db.{Store}
use lesser.Content.Client.{Delivery}
use lesser.Comment.{State}
use lesser.Comment.Statements.{row_of}
use lesser.Comment.Service.{create_comment, delete_comment, like_comment, unlike_comment}
use lesser.Comment.Tallies.{
  IsTallied, liked_by-IsTallied, unliked_by-IsTallied, inserted-IsTallied, replied-IsTallied,
  set_deleted-IsTallied, reply_deleted-IsTallied,
}
use lesser.Comment.Changes.{
  new_comment, like_comment_cases, unlike_comment_cases, create_comment_cases, delete_comment_cases,
}

-- A call by whomever. The identifier of a created comment is a new one, and not the empty one.
pub data Step : Store State → Store State → Type 0 where
  create_step :
      (fails : ℕ → Bool) (net : ℕ → Delivery) (content_fails : ℕ → Bool) (p : Bool)
      (fresh author content parent : ℕ) (text : Text) (mentioned : List ℕ) (s : Store State)
      → fresh ≢ 0
      → row_of fresh s.tables.comments ≡ none
      → Step s
          (create_comment fails net content_fails p fresh author content parent text mentioned s).1
  delete_step :
      (fails : ℕ → Bool) (net : ℕ → Delivery) (content_fails : ℕ → Bool) (id user : ℕ)
      (s : Store State)
      → Step s (delete_comment fails net content_fails id user s).1
  like_step :
      (fails : ℕ → Bool) (p : Bool) (user id : ℕ) (s : Store State)
      → Step s (like_comment fails p user id s).1
  unlike_step :
      (fails : ℕ → Bool) (user id : ℕ) (s : Store State) → Step s (unlike_comment fails user id s).1

pub data Reach (s : Store State) : Store State → Type 0 where
  here : Reach s s
  next : {t u : Store State} → Reach s t → Step t u → Reach s u

Step-IsTallied :
    {s t : Store State}
    → Step s t
    → IsTallied s.tables.comments s.tables.likes
    → IsTallied t.tables.comments t.tables.likes
Step-IsTallied
      (create_step fails net content_fails p fresh author content parent text mentioned s ne new)
      v =
    let c = new_comment fresh author content parent text in
    create_comment_cases IsTallied fails net content_fails p fresh author content parent text
      mentioned s
      (
        v,
        inserted-IsTallied s.tables v c new ne refl refl refl,
        replied-IsTallied s.tables v c new ne refl refl refl,
      )
Step-IsTallied (delete_step fails net content_fails id user s) v =
    delete_comment_cases IsTallied fails net content_fails s id user v
      (set_deleted-IsTallied s.tables v id) (reply_deleted-IsTallied s.tables v id)
Step-IsTallied (like_step fails p user id s) v =
    like_comment_cases IsTallied fails s v p user id (liked_by-IsTallied s.tables v user id)
Step-IsTallied (unlike_step fails user id s) v =
    unlike_comment_cases IsTallied fails s v user id (unliked_by-IsTallied s.tables v user id)

-- Over any run of CreateComment, DeleteComment, LikeComment and UnlikeComment with new identifiers,
-- where statements and calls of the content service fail anywhere: if at the start every comment's
-- like_count is the number of its likes and its reply_count the number of its replies that are not
-- deleted, with unique identifiers and one like at most of a user for a comment, then so it is at the
-- end.
pub Reach-IsTallied :
    {s t : Store State}
    → Reach s t
    → IsTallied s.tables.comments s.tables.likes
    → IsTallied t.tables.comments t.tables.likes
Reach-IsTallied here v = v
Reach-IsTallied (next run step) v = Step-IsTallied step (Reach-IsTallied run v)
