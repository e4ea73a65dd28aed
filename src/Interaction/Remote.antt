-- ===== src/Interaction/Remote.antt =====
-- The calls of service/interaction/internal/remote/content_client.go, with the methods that they reach.
use lesser.Common.{ℕ, Bool, false, Option, none, some}
use lesser.Common.Int.{ℤ}
use lesser.Db.{ok, err, Exec}
use lesser.Content.{CounterType}
use lesser.Content.Service.{get, update_counter, check_content_exists}
use lesser.Content.Client.{Delivery, Link, remote}
use lesser.Interaction.{Tables, Error, remote_error}

abbrev pub link : Link Tables Error
link = record {
  content_of = λ t. t.content;
  with_content = λ c t. record t { content = c };
  remote_error = remote_error;
}

-- `content_fails` says which statements of the content service fail.
module _ (net : ℕ → Delivery) (content_fails : ℕ → Bool) where
  unfoldable pub remote_check : ℕ → Exec Error Tables (Bool × Bool)
  unfolding check_content_exists
  remote_check id = remote link net (check_content_exists content_fails false id)

  unfoldable pub remote_counter : ℕ → CounterType → ℤ → Exec Error Tables ℕ
  unfolding update_counter
  remote_counter id k delta = remote link net (update_counter content_fails false id k delta)

  -- The author is read with `GetContent`, for no viewer. An error is not told apart from no author.
  unfoldable pub content_author : ℕ → Exec Error Tables (Option ℕ)
  unfolding get
  content_author id s =
      let (r, t) = remote link net (get content_fails false id 0) s in
      (ok (elim r [ ok c ↦ some c.author_id | err _ ↦ none ]), t)
