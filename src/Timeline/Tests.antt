-- ===== src/Timeline/Tests.antt =====
-- Small feeds. The user 1 follows the user 2 and likes the content 12.
use lesser.Common.{
  ℕ, ◌+◌, ◌-◌, ◌==◌, count_by, ◌*◌, ◌≡◌, refl, Bool, true, false, ◌&&◌, ◌⊎◌, Option, none, some, [],
  ◌∷◌, map, if◌then◌else◌, arith,
}
use lesser.Common.Int.{pos}
use lesser.Db.{Store, ok, err, reject}
use lesser.Content.Client.{Delivery}
use lesser.Interaction
use lesser.Interaction.{Mark}
use lesser.Timeline.{FeedItem, FeedItemWithStatus, Tables}
use lesser.Timeline.Feeds.{is_followed, is_live, newest_keys}
use lesser.Timeline.Service.{get_content_detail, plain}
use lesser.Timeline.Handler.{
  internal, FeedResponse, handle_get_following_feed, handle_get_user_feed,
}
use lesser.Timeline.Shown.{IsFeed, handle_get_following_feed-IsFeed}
use lesser.Timeline.Statuses.{client, with_marks, handle_get_following_feed-marks}
use lesser.Timeline.Pages.{pages, pages-whole}
use lesser.Timeline.Ties.{is_before, is_in_order, is_shown}

abbrev up : ℕ → Bool
up _ = false

-- The ranks of one statement are not those of the next.
abbrev by_id : ℕ → FeedItem → ℕ
by_id n c = c.content_id * n

abbrev content : (id status created_at : ℕ) → Option ℕ → Option ℕ → Bool → FeedItem
content id status created_at published_at expires_at is_pinned = record {
  content_id = id;
  author_id = 2;
  status = status;
  text = [];
  like_count = 0;
  comment_count = 0;
  repost_count = 0;
  created_at = created_at;
  published_at = published_at;
  expires_at = expires_at;
  is_pinned = is_pinned;
}

abbrev old : FeedItem
old = content 11 2 5 (some 6) none true

abbrev new : FeedItem
new = content 12 2 7 (some 8) none false

abbrev expired : FeedItem
expired = content 13 2 7 (some 9) (some 50) false

abbrev draft : FeedItem
draft = content 14 1 9 none none false

abbrev store : Store Tables
store = record {
  tables = record {
    contents = old ∷ draft ∷ expired ∷ new ∷ [];
    follows = record { follower_id = 1; following_id = 2 } ∷ [];
  };
  statements = 0;
}

abbrev marks : Store Interaction.Tables
marks = record {
  tables = record {
    rows = λ k.
        if Interaction.same_mark k Mark.like
        then record { user_id = 1; content_id = 12; id = 1; quote = [] } ∷ []
        else [];
    events = [];
    content = record {
      tables = record { contents = λ k. none; ids = []; events = [] };
      statements = 0;
    };
  };
  statements = 0;
}

abbrev following : FeedResponse
following = record {
  items =
      record { item = new; is_liked = true; is_bookmarked = false; is_reposted = false }
      ∷ plain old
      ∷ [];
  page = pos 1;
  page_size = pos 20;
  total = pos 2;
}

following_answered :
    (handle_get_following_feed up by_id
      (some (client up (λ _. Delivery.answered) up marks true))
      60
      none
      1
      store).0
    ≡ ok following
unfolding handle_get_following_feed lesser.Timeline.Service.get_following_feed lesser.Page.offset
    lesser.Page.new_request lesser.Interaction.Service.batch_get_interaction_status
following_answered = refl

handle_get_following_feed-IsFeed_example :
    IsFeed (λ t c. is_followed 1 t c && is_live 60 c) newest_keys store.tables 100 (new ∷ old ∷ [])
handle_get_following_feed-IsFeed_example =
    handle_get_following_feed-IsFeed up by_id
      (some (client up (λ _. Delivery.answered) up marks true)) 60 none store following 1
      following_answered

handle_get_following_feed-marks_example :
    (following.items ≡ map (with_marks marks.tables.rows 1) (new ∷ old ∷ []))
    ⊎ (following.items ≡ map plain (new ∷ old ∷ []))
handle_get_following_feed-marks_example =
    handle_get_following_feed-marks up (λ _. Delivery.answered) up marks up by_id true 60 1 none
      store following following_answered

-- The time of a page, and its ranks.
abbrev read_at : ℕ → ℕ
read_at p = 60 + p

abbrev turns : ℕ → ℕ → FeedItem → ℕ
turns p n c = if p == 0 then c.content_id else 100 - c.content_id

shown_pinned_first : pages none read_at turns 2 0 1 store 2 ≡ old ∷ new ∷ []
unfolding pages handle_get_user_feed lesser.Timeline.Service.get_user_feed lesser.Page.offset
    lesser.Page.new_request
shown_pinned_first = refl

pages-whole_example :
    ((q : FeedItem → Bool)
      → count_by q (pages none read_at turns 2 0 1 store 2)
        ≡ count_by (λ c. q c && is_shown 2 60 c) store.tables.contents)
    × (is_in_order is_before (pages none read_at turns 2 0 1 store 2) ≡ true)
pages-whole_example =
    pages-whole none read_at turns 2 0 1 store refl (omega arith) (omega arith) 60
      (λ p. omega arith) (λ p. refl) refl 2 (omega arith) (omega arith) (omega arith)

-- The page 107374184 of 20 rows.
get_user_feed-far :
    (handle_get_user_feed up by_id none 60 (some (pos 107374184, pos 20)) 2 1 store).0
    ≡ err (reject internal)
unfolding handle_get_user_feed lesser.Timeline.Service.get_user_feed lesser.Page.offset
    lesser.Page.new_request
get_user_feed-far = refl

-- A draft is shown to anyone who has its identifier.
get_content_detail-draft : (get_content_detail up none 60 14 1 store).0 ≡ ok (plain draft)
unfolding get_content_detail
get_content_detail-draft = refl
