-- ===== src/Timeline/Shown.antt =====
-- Which contents a feed shows, and in which order.
use lesser.Common.{
  ℕ, suc, ◌≡◌, ◌≤◌, refl, ◌∙◌, sym, ap, Bool, true, false, ◌&&◌, not, Option, none, some, List, [],
  ◌∷◌, map, any, length, take, drop, filter, arith, ◌==◌, Bool-cases, inl, inr, subst,
}
use lesser.Common.Int.{ℤ, pos_part}
use lesser.Db.{Store, ok, err, Result, Exec, ◌>>=◌, pure}
use lesser.Timeline.{Error, FeedItem, FeedItemWithStatus, Tables}
use lesser.Timeline.Feeds
use lesser.Timeline.Feeds.{
  feed, order_by, with_ties, is_live, is_followed, newest_keys, pinned_keys,
}
use lesser.Interaction.Service.{InteractionStatus}
use lesser.Timeline.Service
use lesser.Timeline.Service.{
  InteractionClient, enrich_with_interaction_status, enriched, filled, plain, with_status,
  status_map, normalize_limit, extract_content_ids,
}
use lesser.Page
use lesser.Page.{limit, offset}
use lesser.Timeline.Handler.{
  to_grpc, respond, extract_pagination, FeedResponse, handle_get_following_feed,
  handle_get_user_feed,
}
use lesser.Timeline.Order.{is_ordered, part-ordered, part-passes, with_ties-ordered, length-take_le}

module _ (shown : Tables → FeedItem → Bool) (keys : FeedItem → List ℕ) where
  -- A part of the contents that are shown, in the order of the keys, and no more than the limit.
  pub record IsFeed (t : Tables) (limit : ℕ) (items : List FeedItem) : Type 0 where
    pub passes : any (λ c. not (shown t c)) items ≡ false
    pub ordered : is_ordered keys items ≡ true
    pub few : length items ≤ limit

  part : (FeedItem → ℕ) → Tables → (limit : ℕ) → ℤ → List FeedItem
  part rank t limit offset =
      take limit
        (drop (pos_part offset) (order_by (with_ties keys rank) (filter (shown t) t.contents)))

  feed-part :
      (fails : ℕ → Bool) (ties : ℕ → FeedItem → ℕ) (limit : ℕ) (offset : ℤ) (s : Store Tables)
      (items : List FeedItem) (total : ℕ)
      → (feed fails ties shown keys limit offset s).0 ≡ ok (items, total)
      → items ≡ part (ties (suc s.statements)) s.tables limit offset
  unfolding feed part
  feed-part fails ties limit offset s items total done = ground (arith, done)

  part-IsFeed :
      (rank : FeedItem → ℕ) (t : Tables) (limit : ℕ) (offset : ℤ)
      → IsFeed t limit (part rank t limit offset)
  unfolding part
  part-IsFeed rank t limit offset = record {
    passes = part-passes (with_ties keys rank) (shown t) limit (pos_part offset) t.contents;
    ordered =
        with_ties-ordered keys rank (part rank t limit offset) (
          part-ordered (with_ties keys rank) limit (pos_part offset) (filter (shown t) t.contents));
    few =
        length-take_le limit
          (drop (pos_part offset) (order_by (with_ties keys rank) (filter (shown t) t.contents)));
  }

  pub feed-IsFeed :
      (fails : ℕ → Bool) (ties : ℕ → FeedItem → ℕ) (limit : ℕ) (offset : ℤ) (s : Store Tables)
      (items : List FeedItem) (total : ℕ)
      → (feed fails ties shown keys limit offset s).0 ≡ ok (items, total)
      → IsFeed s.tables limit items
  feed-IsFeed fails ties limit offset s items total done =
      subst (IsFeed s.tables limit) (sym (feed-part fails ties limit offset s items total done))
        (part-IsFeed (ties (suc s.statements)) s.tables limit offset)

item_of-plain : (cs : List FeedItem) → map (λ x. x.item) (map plain cs) ≡ cs
item_of-plain [] = refl
item_of-plain (c ∷ cs) = ap (λ ds. c ∷ ds) (item_of-plain cs)

item_of-filled :
    (cs : List FeedItem) (f : FeedItem → FeedItemWithStatus)
    → ((c : FeedItem) → (f c).item ≡ c)
    → map (λ x. x.item) (map f cs) ≡ cs
item_of-filled [] f same = refl
item_of-filled (c ∷ cs) f same = rw (same c) (ap (λ ds. c ∷ ds) (item_of-filled cs f same))

item_of-with_status : (c : FeedItem) (x : Option InteractionStatus) → (with_status c x).item ≡ c
item_of-with_status c none = refl
item_of-with_status c (some x) = refl

item_of-answer :
    (cs : List FeedItem) (answer : Option (List InteractionStatus))
    → map (λ x. x.item) (filled cs answer) ≡ cs
item_of-answer cs none = item_of-plain cs
item_of-answer cs (some xs) =
    item_of-filled cs (λ c. with_status c (status_map xs c.content_id))
      (λ c. item_of-with_status c (status_map xs c.content_id))

-- The statuses are added to the items, which stay as they are.
pub item_of-enrich :
    (client : Option InteractionClient) (user : ℕ) (cs : List FeedItem)
    → map (λ x. x.item) (enrich_with_interaction_status client user cs) ≡ cs
unfolding enrich_with_interaction_status
item_of-enrich client user [] = refl
item_of-enrich none user (c ∷ cs) = item_of-plain (c ∷ cs)
item_of-enrich (some client) user (c ∷ cs) = elim (Bool-cases (user == 0)) [
  | inl nobody ↦ rw (nobody) (item_of-plain (c ∷ cs))
  | inr reader ↦ rw (reader) (item_of-answer (c ∷ cs) (client user (extract_content_ids (c ∷ cs))))
]

normalize_limit-few : (limit : ℤ) → normalize_limit limit ≤ 100
normalize_limit-few limit = ground arith

-- What a feed was made of, when its handler answers.
module _ (g : List FeedItem → List FeedItemWithStatus) (q : Page.Request) (r : FeedResponse) where
  answered-result :
      (m : Result Error (List FeedItem × ℕ)) (s t : Store Tables)
      → ((to_grpc ((λ _. (m, t)) >>= λ p. pure (g p.0, p.1)) >>= respond q) s).0 ≡ ok r
      → (items : List FeedItem) × (total : ℕ) × ((m ≡ ok (items, total)) × (r.items ≡ g items))
  answered-result (ok (items, total)) s t done = (items, total, (refl, ground (arith, done)))
  answered-result (err e) s t done = ground (arith, done)

  pub answered :
      (m : Exec Error Tables (List FeedItem × ℕ)) (s : Store Tables)
      → ((to_grpc (m >>= λ p. pure (g p.0, p.1)) >>= respond q) s).0 ≡ ok r
      → (items : List FeedItem) × (total : ℕ) × (((m s).0 ≡ ok (items, total))
          × (r.items ≡ g items))
  answered m s done = answered-result (m s).0 s (m s).1 done

module _ (fails : ℕ → Bool) (ties : ℕ → FeedItem → ℕ) (client : Option InteractionClient) (now : ℕ)
    (pagination : Option (ℤ × ℤ)) (s : Store Tables) (r : FeedResponse) where
  abbrev asked : Page.Request
  asked = extract_pagination pagination

  pub following-answered :
      (user : ℕ)
      → (handle_get_following_feed fails ties client now pagination user s).0 ≡ ok r
      → (items : List FeedItem) × (total : ℕ) × (((Feeds.get_following_feed fails ties now user
              (normalize_limit (limit asked))
              (offset asked)
              s).0
            ≡ ok (items, total))
          × (r.items ≡ enrich_with_interaction_status client user items))
  unfolding handle_get_following_feed Service.get_following_feed
  following-answered user done = elim (Bool-cases (user == 0)) [
    | inl nobody ↦ ground (arith, rw (nobody) at done)
    | inr given ↦
        answered (enrich_with_interaction_status client user) asked r
          (Feeds.get_following_feed fails ties now user (normalize_limit (limit asked))
            (offset asked))
          s (rw (given) at done)
  ]

  user-answered :
      (user viewer : ℕ)
      → (handle_get_user_feed fails ties client now pagination user viewer s).0 ≡ ok r
      → (items : List FeedItem) × (total : ℕ) × (((Feeds.get_user_feed fails ties now user
              (normalize_limit (limit asked))
              (offset asked)
              s).0
            ≡ ok (items, total))
          × (r.items ≡ enrich_with_interaction_status client viewer items))
  unfolding handle_get_user_feed Service.get_user_feed
  user-answered user viewer done = elim (Bool-cases (user == 0)) [
    | inl nobody ↦ ground (arith, rw (nobody) at done)
    | inr given ↦
        answered (enrich_with_interaction_status client viewer) asked r
          (Feeds.get_user_feed fails ties now user (normalize_limit (limit asked)) (offset asked)) s
          (rw (given) at done)
  ]

  -- The items of an answer, without the statuses.
  items-IsFeed :
      (shown : Tables → FeedItem → Bool) (keys : FeedItem → List ℕ) (viewer total : ℕ)
      (items : List FeedItem)
      → (feed fails ties shown keys (normalize_limit (limit asked)) (offset asked) s).0
        ≡ ok (items, total)
      → r.items ≡ enrich_with_interaction_status client viewer items
      → IsFeed shown keys s.tables 100 (map (λ x. x.item) r.items)
  items-IsFeed shown keys viewer total items fed same =
      let h =
        feed-IsFeed shown keys fails ties (normalize_limit (limit asked)) (offset asked) s items
          total fed in
      subst (IsFeed shown keys s.tables 100)
        (sym (ap (map (λ x. x.item)) same ∙ item_of-enrich client viewer items))
        record {
          passes = h.passes;
          ordered = h.ordered;
          few = omega (arith, h.few, normalize_limit-few (limit asked));
        }

  -- Whatever fails: when GetFollowingFeed answers, each item is a published content that has not expired,
  -- of an author whom the user follows. The items stand with the newest publication first, and there
  -- are at most 100.
  pub handle_get_following_feed-IsFeed :
      (user : ℕ)
      → (handle_get_following_feed fails ties client now pagination user s).0 ≡ ok r
      → IsFeed
          (λ t c. is_followed user t c && is_live now c)
          newest_keys
          s.tables
          100
          (map (λ x. x.item) r.items)
  handle_get_following_feed-IsFeed user done =
      let (items, total, (fed, same)) = following-answered user done in
      items-IsFeed (λ t c. is_followed user t c && is_live now c) newest_keys user total items fed
        same

  -- Whatever fails: when GetUserFeed answers, each item is a published content of the user that has not
  -- expired. The pinned items stand first, and otherwise the newest publication, and there are at
  -- most 100.
  pub handle_get_user_feed-IsFeed :
      (user viewer : ℕ)
      → (handle_get_user_feed fails ties client now pagination user viewer s).0 ≡ ok r
      → IsFeed
          (λ t c. c.author_id == user && is_live now c)
          pinned_keys
          s.tables
          100
          (map (λ x. x.item) r.items)
  handle_get_user_feed-IsFeed user viewer done =
      let (items, total, (fed, same)) = user-answered user viewer done in
      items-IsFeed (λ t c. c.author_id == user && is_live now c) pinned_keys viewer total items fed
        same
