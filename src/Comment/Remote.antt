-- ===== src/Comment/Remote.antt =====
-- The calls of service/comment/internal/remote/content_client.go, with the methods that they reach.
use lesser.Common.{ℕ, Bool, false}
use lesser.Common.Int.{ℤ}
use lesser.Db.{ok, err, Exec}
use lesser.Content.{CounterType}
use lesser.Content.Service.{get, update_counter, check_content_exists}
use lesser.Content.Client.{Delivery, Link, remote}
use lesser.Comment.{State, Error, remote_error}

abbrev pub link : Link State Error
link = record {
  content_of = λ t. t.content;
  with_content = λ c t. record t { content = c };
  remote_error = remote_error;
}

-- `content_fails` says which statements of the content service fail. An error of `UpdateCounter` is
-- dropped by every caller, who then has the count 0, and one of the author's name gives no author.
module _ (net : ℕ → Delivery) (content_fails : ℕ → Bool) where
  unfoldable pub remote_check : ℕ → Exec Error State (Bool × Bool)
  unfolding check_content_exists
  remote_check id = remote link net (check_content_exists content_fails false id)

  unfoldable pub remote_counter : ℕ → CounterType → ℤ → Exec Error State ℕ
  unfolding update_counter
  remote_counter id k delta s =
      let (r, t) = remote link net (update_counter content_fails false id k delta) s in
      (ok (elim r [ ok n ↦ n | err _ ↦ 0 ]), t)

  unfoldable pub content_author : ℕ → Exec Error State ℕ
  unfolding get
  content_author id s =
      let (r, t) = remote link net (get content_fails false id 0) s in
      (ok (elim r [ ok c ↦ c.author_id | err _ ↦ 0 ]), t)
