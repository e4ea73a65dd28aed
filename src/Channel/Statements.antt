-- ===== src/Channel/Statements.antt =====
-- The SQL statements of service/channel/internal/data_access, as functions on the tables.
use lesser.Common.{
  ℕ, ◌+◌, ◌-◌, Bool, true, false, ◌&&◌, not, Option, none, some, List, [], ◌∷◌, ◌==◌, if◌then◌else◌,
}
use lesser.Channel.{Channel, ChannelPost, Tables}

abbrev pub is_pair : ℕ → ℕ → ℕ × ℕ → Bool
is_pair c u r = r.0 == c && r.1 == u

-- SELECT EXISTS(SELECT 1 FROM … WHERE channel_id = $1 AND user_id = $2)
unfoldable pub has : ℕ → ℕ → List (ℕ × ℕ) → Bool
has c u [] = false
has c u (r ∷ rs) = if is_pair c u r then true else has c u rs

-- DELETE FROM … WHERE channel_id = $1 AND user_id = $2
unfoldable pub without : ℕ → ℕ → List (ℕ × ℕ) → List (ℕ × ℕ)
without c u [] = []
without c u (r ∷ rs) = if is_pair c u r then without c u rs else r ∷ without c u rs

-- SELECT user_id FROM … WHERE channel_id = $1
unfoldable pub users_of : ℕ → List (ℕ × ℕ) → List ℕ
users_of c [] = []
users_of c (r ∷ rs) = if r.0 == c then r.1 ∷ users_of c rs else users_of c rs

-- SELECT channel_id FROM … WHERE user_id = $1
unfoldable pub channels_of : ℕ → List (ℕ × ℕ) → List ℕ
channels_of u [] = []
channels_of u (r ∷ rs) = if r.1 == u then r.0 ∷ channels_of u rs else channels_of u rs

abbrev pub live : Option Channel → Option Channel
live none = none
live (some c) = if c.is_deleted then none else some c

-- SELECT … FROM channels WHERE id = $1 AND deleted_at IS NULL
abbrev pub live_channel : ℕ → Tables → Option Channel
live_channel c t = live (t.channels c)

-- UPDATE channels SET … WHERE id = $1 AND deleted_at IS NULL
unfoldable pub update_channel_row : ℕ → (Channel → Channel) → Tables → Tables
update_channel_row c f t = record t {
  channels = λ k. if k == c then updated (t.channels k) else t.channels k;
}
  where
    updated : Option Channel → Option Channel
    updated none = none
    updated (some x) = if x.is_deleted then some x else some (f x)

unfoldable pub increment_subscriber_count : ℕ → Tables → Tables
increment_subscriber_count c =
    update_channel_row c (λ x. record x { subscriber_count = x.subscriber_count + 1 })

-- GREATEST(subscriber_count - 1, 0): the subtraction of naturals.
unfoldable pub decrement_subscriber_count : ℕ → Tables → Tables
decrement_subscriber_count c =
    update_channel_row c (λ x. record x { subscriber_count = x.subscriber_count - 1 })

unfoldable pub increment_post_count : ℕ → Tables → Tables
increment_post_count c = update_channel_row c (λ x. record x { post_count = x.post_count + 1 })

unfoldable pub decrement_post_count : ℕ → Tables → Tables
decrement_post_count c = update_channel_row c (λ x. record x { post_count = x.post_count - 1 })

-- INSERT INTO channels
unfoldable pub insert_channel : ℕ → Channel → Tables → Tables
insert_channel c x t = record t { channels = λ k. if k == c then some x else t.channels k }

-- INSERT INTO channel_admins … ON CONFLICT (channel_id, user_id) DO NOTHING
unfoldable pub insert_admin : ℕ → ℕ → Tables → Tables
insert_admin c u t = if has c u t.admins then t else record t { admins = (c, u) ∷ t.admins }

unfoldable pub delete_admin : ℕ → ℕ → Tables → Tables
delete_admin c u t = record t { admins = without c u t.admins }

unfoldable pub insert_subscription : ℕ → ℕ → Tables → Tables
insert_subscription c u t = record t { subscriptions = (c, u) ∷ t.subscriptions }

unfoldable pub delete_subscription : ℕ → ℕ → Tables → Tables
delete_subscription c u t = record t { subscriptions = without c u t.subscriptions }

-- SELECT … FROM channel_posts WHERE id = $1 AND deleted_at IS NULL
unfoldable pub find_post : ℕ → List ChannelPost → Option ChannelPost
find_post p [] = none
find_post p (x ∷ xs) = if x.id == p && not x.is_deleted then some x else find_post p xs

-- UPDATE channel_posts SET … WHERE id = $1 AND deleted_at IS NULL
unfoldable pub update_posts : ℕ → (ChannelPost → ChannelPost) → List ChannelPost → List ChannelPost
update_posts p f [] = []
update_posts p f (x ∷ xs) = (if x.id == p && not x.is_deleted then f x else x) ∷ update_posts p f xs

unfoldable pub insert_post : ChannelPost → Tables → Tables
insert_post x t = record t { posts = x ∷ t.posts }

unfoldable pub delete_post_row : ℕ → Tables → Tables
delete_post_row p t = record t {
  posts = update_posts p (λ x. record x { is_deleted = true }) t.posts;
}

unfoldable pub increment_view_count : ℕ → Tables → Tables
increment_view_count p t = record t {
  posts = update_posts p (λ x. record x { view_count = x.view_count + 1 }) t.posts;
}

-- SELECT … WHERE channel_id = $1 AND deleted_at IS NULL
unfoldable pub posts_of : ℕ → List ChannelPost → List ChannelPost
posts_of c [] = []
posts_of c (x ∷ xs) =
    if x.channel_id == c && not x.is_deleted then x ∷ posts_of c xs else posts_of c xs
