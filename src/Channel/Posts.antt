-- ===== src/Channel/Posts.antt =====
-- Posts: the last part of service/channel/internal/logic/channel_service.go.
use lesser.Common.{ℕ, Bool, false, ◌&&◌, not, List, ◌==◌, take, drop, length}
use lesser.Common.Text.{Text, is_empty, is_blank, trim_space}
use lesser.Db.{Exec, pure, fail, ◌>>=◌, ◌>>◌, ignore, branch, query, exec}
use lesser.Channel.{ChannelPost, Tables, Error, not_found, not_channel_admin, invalid_post_content}
use lesser.Channel.Statements.{
  find_post, insert_post, delete_post_row, increment_view_count, increment_post_count,
  decrement_post_count, posts_of,
}
use lesser.Channel.Service.{found, is_admin, is_some, exec_rows}

pub record PublishPostRequest : Type 0 where
  pub channel_id : ℕ
  pub content : Text
  pub media_urls : List Text

module _ (fails : ℕ → Bool) where
  abbrev pub get_post_row : ℕ → Exec Error Tables ChannelPost
  get_post_row p = query fails (λ t. find_post p t.posts) >>= found fails

  unfoldable pub publish_post : ℕ → ℕ → PublishPostRequest → Exec Error Tables ChannelPost
  publish_post fresh user req =
      branch (is_blank req.content && is_empty req.media_urls) (fail invalid_post_content) do
        admin ← is_admin fails req.channel_id user
        branch (not admin) (fail not_channel_admin) do
          let post : ChannelPost = record {
            id = fresh;
            channel_id = req.channel_id;
            author_id = user;
            content = trim_space req.content;
            media_urls = req.media_urls;
            view_count = 0;
            is_deleted = false;
          }
          exec fails (insert_post post)
          ignore (exec fails (increment_post_count req.channel_id))
          pure post

  unfoldable pub get_post : ℕ → Exec Error Tables ChannelPost
  get_post p = do post ← get_post_row p; ignore (exec fails (increment_view_count p)); pure post

  unfoldable pub get_posts : ℕ → ℕ → ℕ → Exec Error Tables (List ChannelPost × ℕ)
  get_posts c limit offset = do
    posts ← query fails (λ t. take limit (drop offset (posts_of c t.posts)))
    pure (posts, length posts)

  unfoldable pub edit_post : ℕ → ℕ → Exec Error Tables ChannelPost
  edit_post user p = do
    post ← get_post_row p
    admin ← is_admin fails post.channel_id user
    branch (not (post.author_id == user) && not admin) (fail not_channel_admin) (pure post)

  unfoldable pub delete_post : ℕ → ℕ → Exec Error Tables (Unit {0})
  delete_post p user = do
    post ← get_post_row p
    admin ← is_admin fails post.channel_id user
    branch (not (post.author_id == user) && not admin) (fail not_channel_admin) do
      exec_rows fails (λ t. is_some (find_post p t.posts)) not_found (delete_post_row p)
      ignore (exec fails (decrement_post_count post.channel_id))

  -- Pinning and unpinning check the permission and store nothing yet.
  unfoldable pub pin_post : ℕ → ℕ → Exec Error Tables (Unit {0})
  pin_post p user = do
    post ← get_post_row p
    admin ← is_admin fails post.channel_id user
    branch (not admin) (fail not_channel_admin) (pure tt)

  unfoldable pub unpin_post : ℕ → ℕ → Exec Error Tables (Unit {0})
  unpin_post p user = do
    post ← get_post_row p
    admin ← is_admin fails post.channel_id user
    branch (not admin) (fail not_channel_admin) (pure tt)
