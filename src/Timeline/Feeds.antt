-- ===== src/Timeline/Feeds.antt =====
-- The queries of service/timeline/internal/data_access/timeline_data_access.go. An ORDER BY is a sort by
-- keys, the greatest first; rows with the same keys stand in any order, which may be another one in each
-- statement. A negative OFFSET is an error of the database.
use lesser.Common.{
  ℕ, suc, ◌+◌, ◌*◌, Bool, true, false, ◌&&◌, ◌||◌, not, Option, none, some, List, [], ◌∷◌, ◌==◌,
  ltb, leb, any, find, filter, count_by, take, drop, if◌then◌else◌, ◌++◌,
}
use lesser.Common.Int.{ℤ, pos, ltb_ℤ, pos_part}
use lesser.Common.Text.{Text, same_text, codes}
use lesser.Db.{Exec, pure, ◌>>=◌, query, statement}
use lesser.Timeline.{FeedItem, Tables, Error}

-- c.status = 2 AND (c.expires_at IS NULL OR c.expires_at > NOW())
abbrev pub is_expired : ℕ → Option ℕ → Bool
is_expired now none = false
is_expired now (some e) = leb e now

abbrev pub is_live : ℕ → FeedItem → Bool
is_live now c = c.status == 2 && not (is_expired now c.expires_at)

-- published_at DESC NULLS LAST
abbrev pub published_key : Option ℕ → ℕ
published_key none = 0
published_key (some t) = suc t

abbrev pub flag : Bool → ℕ
flag b = if b then 1 else 0

-- Whether the first keys come before the second, or are the same.
abbrev pub keys_before : List ℕ → List ℕ → Bool
keys_before [] ls = true
keys_before (k ∷ ks) [] = true
keys_before (k ∷ ks) (l ∷ ls) = if k == l then keys_before ks ls else ltb l k

module _ (keys : FeedItem → List ℕ) where
  abbrev pub put : FeedItem → List FeedItem → List FeedItem
  put c [] = c ∷ []
  put c (d ∷ ds) = if keys_before (keys c) (keys d) then c ∷ d ∷ ds else d ∷ put c ds

  unfoldable pub order_by : List FeedItem → List FeedItem
  order_by [] = []
  order_by (c ∷ cs) = put c (order_by cs)

abbrev pub newest_keys : FeedItem → List ℕ
newest_keys c = published_key c.published_at ∷ c.created_at ∷ []

abbrev pub pinned_keys : FeedItem → List ℕ
pinned_keys c = flag c.is_pinned ∷ published_key c.published_at ∷ c.created_at ∷ []

abbrev pub hot_keys : FeedItem → List ℕ
hot_keys c = (c.like_count + c.comment_count * 2 + c.repost_count * 3) ∷ c.created_at ∷ []

abbrev pub is_followed : ℕ → Tables → FeedItem → Bool
is_followed user t c = any (λ f. f.follower_id == user && f.following_id == c.author_id) t.follows

-- In days.
abbrev pub time_range_to_interval : Text → ℕ
time_range_to_interval range =
    if same_text range (codes "day") then 1 else if same_text range (codes "month") then 30 else 7

-- In seconds, as times are.
abbrev pub day : ℕ
day = 86400

abbrev pub is_recent : (now days : ℕ) → FeedItem → Bool
is_recent now days c = ltb now (c.created_at + days * day)

-- The keys of a statement that puts the rows with the same keys by these ranks.
abbrev pub with_ties : (FeedItem → List ℕ) → (FeedItem → ℕ) → FeedItem → List ℕ
with_ties keys rank c = keys c ++ (rank c ∷ [])

-- `ties n` ranks the rows in the `n`-th statement.
module _ (fails : ℕ → Bool) (ties : ℕ → FeedItem → ℕ) where
  -- The two statements of a feed: the number of the rows, and a part of them.
  unfoldable pub feed :
      (shown : Tables → FeedItem → Bool) (keys : FeedItem → List ℕ) (limit : ℕ) (offset : ℤ)
      → Exec Error Tables (List FeedItem × ℕ)
  unfolding order_by
  feed shown keys limit offset = do
    total ← query fails (λ t. count_by (shown t) t.contents)
    items ← λ s.
        statement (fails s.statements || ltb_ℤ offset (pos 0))
          (take limit (
            drop (pos_part offset) (
              order_by (with_ties keys (ties s.statements))
                (filter (shown s.tables) s.tables.contents))))
          s.tables s
    pure (items, total)

  abbrev pub get_following_feed : (now user limit : ℕ) → ℤ → Exec Error Tables (List FeedItem × ℕ)
  get_following_feed now user = feed (λ t c. is_followed user t c && is_live now c) newest_keys

  abbrev pub get_user_feed : (now user limit : ℕ) → ℤ → Exec Error Tables (List FeedItem × ℕ)
  get_user_feed now user = feed (λ t c. c.author_id == user && is_live now c) pinned_keys

  abbrev pub get_hot_feed :
      (now : ℕ) → Text → (limit : ℕ) → ℤ → Exec Error Tables (List FeedItem × ℕ)
  get_hot_feed now range =
      feed (λ t c. is_live now c && is_recent now (time_range_to_interval range) c) hot_keys

  -- The score, which has an exponential function, is an argument.
  abbrev pub get_recommend_feed :
      (score : ℕ → FeedItem → ℕ) (now user limit : ℕ) → ℤ → Exec Error Tables (List FeedItem × ℕ)
  get_recommend_feed score now user =
      feed
        (λ t c. is_live now c && (is_recent now 30 c && (user == 0 || not (c.author_id == user))))
        (λ c. score now c ∷ c.created_at ∷ [])

module _ (fails : ℕ → Bool) where
  -- Of any status but 4, which is that of a deleted content.
  abbrev pub get_content_by_id : ℕ → Exec Error Tables (Option FeedItem)
  get_content_by_id id =
      query fails (λ t. find (λ c. c.content_id == id && not (c.status == 4)) t.contents)
