-- ===== src/Timeline/Service.antt =====
-- The operations of service/timeline/internal/logic/timeline_service.go, and the client of the
-- interaction service in internal/remote. `reached` says whether its call arrives and comes back.
use lesser.Common.{
  ℕ, Bool, true, false, Option, none, some, List, [], ◌∷◌, map, ◌==◌, if◌then◌else◌,
}
use lesser.Common.Int.{ℤ, pos, leb_ℤ, ltb_ℤ, pos_part}
use lesser.Common.Text.{Text}
use lesser.Db.{ok, err, Result, Exec, pure, fail, ◌>>=◌}
use lesser.Interaction.Service.{InteractionStatus}
use lesser.Timeline.{FeedItem, FeedItemWithStatus, Tables, Error, content_not_found}
use lesser.Timeline.Feeds

abbrev pub normalize_limit : ℤ → ℕ
normalize_limit limit =
    if leb_ℤ limit (pos 0) then 20 else if ltb_ℤ (pos 100) limit then 100 else pos_part limit

-- What a call gives, for a user and contents; `none` is an error.
abbrev pub InteractionClient : Type 0
InteractionClient = ℕ → List ℕ → Option (List InteractionStatus)

abbrev pub answer_of {ℓ κ} : {E : Type ℓ} {A : Type κ} → Bool → Result E A → Option A
answer_of false r = none
answer_of true (ok a) = some a
answer_of true (err e) = none

abbrev pub remote_status {ℓ} :
    {E : Type ℓ} → Bool → (ℕ → List ℕ → Result E (List InteractionStatus)) → InteractionClient
remote_status reached call user [] = some []
remote_status reached call user (c ∷ cs) = answer_of reached (call user (c ∷ cs))

abbrev pub plain : FeedItem → FeedItemWithStatus
plain c = record { item = c; is_liked = false; is_bookmarked = false; is_reposted = false }

abbrev pub with_status : FeedItem → Option InteractionStatus → FeedItemWithStatus
with_status c none = plain c
with_status c (some x) = record {
  item = c;
  is_liked = x.is_liked;
  is_bookmarked = x.is_bookmarked;
  is_reposted = x.is_reposted;
}

abbrev pub or_status :
    Option InteractionStatus → Option InteractionStatus → Option InteractionStatus
or_status (some x) other = some x
or_status none other = other

-- The map of the statuses by content, in which a later one takes the place of an earlier one.
abbrev pub status_map : List InteractionStatus → ℕ → Option InteractionStatus
status_map [] id = none
status_map (x ∷ xs) id = or_status (status_map xs id) (if x.content_id == id then some x else none)

abbrev pub filled : List FeedItem → Option (List InteractionStatus) → List FeedItemWithStatus
filled items none = map plain items
filled items (some statuses) = map (λ c. with_status c (status_map statuses c.content_id)) items

abbrev pub extract_content_ids : List FeedItem → List ℕ
extract_content_ids items = map (λ c. c.content_id) items

abbrev pub enriched : Option InteractionClient → ℕ → List FeedItem → List FeedItemWithStatus
enriched none user items = map plain items
enriched (some client) user items =
    if user == 0 then map plain items else filled items (client user (extract_content_ids items))

-- Nothing is asked for no items.
unfoldable pub enrich_with_interaction_status :
    Option InteractionClient → ℕ → List FeedItem → List FeedItemWithStatus
enrich_with_interaction_status client user [] = []
enrich_with_interaction_status client user (c ∷ cs) = enriched client user (c ∷ cs)

abbrev pub first_status : Option (List InteractionStatus) → Option InteractionStatus
first_status none = none
first_status (some []) = none
first_status (some (x ∷ xs)) = some x

abbrev pub detailed : Option InteractionClient → ℕ → FeedItem → FeedItemWithStatus
detailed none viewer c = plain c
detailed (some client) viewer c =
    if viewer == 0
    then plain c
    else with_status c (first_status (client viewer (c.content_id ∷ [])))

abbrev pub found : Option FeedItem → Exec Error Tables FeedItem
found none = fail content_not_found
found (some c) = pure c

module _ (fails : ℕ → Bool) (ties : ℕ → FeedItem → ℕ) (client : Option InteractionClient)
    (now : ℕ) where
  unfoldable pub get_following_feed :
      ℕ → (limit offset : ℤ) → Exec Error Tables (List FeedItemWithStatus × ℕ)
  unfolding Feeds.feed enrich_with_interaction_status
  get_following_feed user limit offset = do
    (items, total) ← Feeds.get_following_feed fails ties now user (normalize_limit limit) offset
    pure (enrich_with_interaction_status client user items, total)

  unfoldable pub get_user_feed :
      (target viewer : ℕ) (limit offset : ℤ) → Exec Error Tables (List FeedItemWithStatus × ℕ)
  unfolding Feeds.feed enrich_with_interaction_status
  get_user_feed target viewer limit offset = do
    (items, total) ← Feeds.get_user_feed fails ties now target (normalize_limit limit) offset
    pure (enrich_with_interaction_status client viewer items, total)

  unfoldable pub get_hot_feed :
      ℕ → Text → (limit offset : ℤ) → Exec Error Tables (List FeedItemWithStatus × ℕ)
  unfolding Feeds.feed enrich_with_interaction_status
  get_hot_feed user range limit offset = do
    (items, total) ← Feeds.get_hot_feed fails ties now range (normalize_limit limit) offset
    pure (enrich_with_interaction_status client user items, total)

  unfoldable pub get_recommend_feed :
      (ℕ → FeedItem → ℕ) → ℕ → (limit offset : ℤ) → Exec Error Tables (List FeedItemWithStatus × ℕ)
  unfolding Feeds.feed enrich_with_interaction_status
  get_recommend_feed score user limit offset = do
    (items, total) ←
        Feeds.get_recommend_feed fails ties score now user (normalize_limit limit) offset
    pure (enrich_with_interaction_status client user items, total)

module _ (fails : ℕ → Bool) (client : Option InteractionClient) (now : ℕ) where
  unfoldable pub get_content_detail : (content viewer : ℕ) → Exec Error Tables FeedItemWithStatus
  get_content_detail content viewer = do
    row ← Feeds.get_content_by_id fails content
    item ← found row
    pure (detailed client viewer item)
