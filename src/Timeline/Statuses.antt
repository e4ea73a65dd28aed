-- ===== src/Timeline/Statuses.antt =====
-- The statuses of the items are the reader's marks in the interaction service.
use lesser.Common.{
  ℕ, suc, zero, ◌≡◌, ◌≤◌, refl, ◌∙◌, sym, ap, subst, Bool, true, false, Option, none, some, List,
  [], ◌∷◌, map, any, length, take, arith, ◌==◌, ◌⊎◌, inl, inr, Bool-cases,
}
use lesser.Common.Int.{ℤ}
use lesser.Db.{Store, ok}
use lesser.Db.Laws.{Result-cases}
use lesser.Content.Client.{Delivery}
use lesser.Interaction
use lesser.Interaction.Service.{batch_get_interaction_status}
use lesser.Interaction.Calls.{Rows}
use lesser.Interaction.Marks.{status_in, batch_get_interaction_status-ok}
use lesser.Timeline.{FeedItem, FeedItemWithStatus, Tables}
use lesser.Timeline.Service.{
  InteractionClient, remote_status, plain, with_status, status_map, filled, extract_content_ids,
  enrich_with_interaction_status,
}
use lesser.Timeline.Handler.{FeedResponse, handle_get_following_feed}
use lesser.Timeline.Shown.{following-answered, item_of-enrich, handle_get_following_feed-IsFeed}

-- The item with the marks of the reader that are rows of the interaction service.
abbrev pub with_marks : Rows → ℕ → FeedItem → FeedItemWithStatus
with_marks rows user c = with_status c (some (status_in rows user c.content_id))

module _ (rows : Rows) (user : ℕ) where
  status_map-absent :
      (id : ℕ) (ids : List ℕ)
      → any (λ j. j == id) ids ≡ false
      → status_map (map (status_in rows user) ids) id ≡ none
  status_map-absent id [] h = refl
  status_map-absent id (j ∷ ids) h = ground (arith, h, status_map-absent id ids)

  status_map-status_in :
      (id : ℕ) (ids : List ℕ)
      → any (λ j. j == id) ids ≡ true
      → status_map (map (status_in rows user) ids) id ≡ some (status_in rows user id)
  status_map-status_in id [] h = ground (arith, h)
  status_map-status_in id (j ∷ ids) h = elim (Bool-cases (any (λ j. j == id) ids)) [
    | inl later ↦ rw (status_map-status_in id ids later) refl
    | inr last ↦
        let same : j ≡ id = ground (arith, h, last) in
        rw (status_map-absent id ids last, same) (ground arith)
  ]

  filled-marks :
      (ids : List ℕ) (part : List FeedItem)
      → ((id : ℕ)
          → any (λ j. j == id) (extract_content_ids part) ≡ true
          → any (λ j. j == id) ids ≡ true)
      → map (λ c. with_status c (status_map (map (status_in rows user) ids) c.content_id)) part
        ≡ map (with_marks rows user) part
  filled-marks ids [] all = refl
  filled-marks ids (c ∷ part) all =
      let first = status_map-status_in c.content_id ids (all c.content_id (ground arith)) in
      let rest = filled-marks ids part (λ id h. all id (ground (arith, h))) in
      rw (first) (ap (λ ds. with_marks rows user c ∷ ds) rest)

take-short : (n : ℕ) (ids : List ℕ) → length ids ≤ n → take n ids ≡ ids
take-short zero [] h = refl
take-short zero (j ∷ ids) h = absurd (omega (arith, h))
take-short (suc n) [] h = refl
take-short (suc n) (j ∷ ids) h = ap (λ ks. j ∷ ks) (take-short n ids (omega (arith, h)))

length-ids : (cs : List FeedItem) → length (extract_content_ids cs) ≡ length cs
length-ids [] = refl
length-ids (c ∷ cs) = ap suc (length-ids cs)

module _ (fails : ℕ → Bool) (net : ℕ → Delivery) (content_fails : ℕ → Bool)
    (st : Store Interaction.Tables) where
  -- The interaction service as its client sees it.
  abbrev pub client : Bool → InteractionClient
  client reached =
      remote_status reached
        (λ u ids. (batch_get_interaction_status fails net content_fails u ids st).0)

  abbrev AreMarked : ℕ → List FeedItem → List FeedItemWithStatus → Type 0
  AreMarked user cs xs = (xs ≡ map (with_marks st.tables.rows user) cs) ⊎ (xs ≡ map plain cs)

  filled-marked :
      (reached : Bool) (user : ℕ) (c : FeedItem) (cs : List FeedItem)
      → length (c ∷ cs) ≤ 100
      → AreMarked user
          (c ∷ cs)
          (filled (c ∷ cs) (client reached user (extract_content_ids (c ∷ cs))))
  filled-marked false user c cs few = inr refl
  filled-marked true user c cs few =
      let ids = extract_content_ids (c ∷ cs) in
      elim (Result-cases (batch_get_interaction_status fails net content_fails user ids st).0) [
        | inl (found, e) ↦
            let all =
              batch_get_interaction_status-ok fails net content_fails user ids st found e
              ∙ ap (map (status_in st.tables.rows user))
                  (take-short 100 ids (omega (arith, length-ids (c ∷ cs), few))) in
            inl (
              rw (e) (
                subst
                  (λ f. filled (c ∷ cs) (some f) ≡ map (with_marks st.tables.rows user) (c ∷ cs))
                  (sym all) (filled-marks st.tables.rows user ids (c ∷ cs) (λ id h. h))))
        | inr (f, e) ↦ inr (rw (e) refl)
      ]

  enriched-marked :
      (reached : Bool) (user : ℕ) (cs : List FeedItem)
      → (user == 0) ≡ false
      → length cs ≤ 100
      → AreMarked user cs (enrich_with_interaction_status (some (client reached)) user cs)
  unfolding enrich_with_interaction_status
  enriched-marked reached user [] given few = inr refl
  enriched-marked reached user (c ∷ cs) given few = rw (given) (filled-marked reached user c cs few)

  given :
      (feed_fails : ℕ → Bool) (ties : ℕ → FeedItem → ℕ) (reached : Bool) (now user : ℕ)
      (pagination : Option (ℤ × ℤ)) (s : Store Tables) (r : FeedResponse)
      → (handle_get_following_feed feed_fails ties (some (client reached)) now pagination user s).0
        ≡ ok r
      → (user == 0) ≡ false
  unfolding handle_get_following_feed
  given feed_fails ties reached now user pagination s r done = elim (Bool-cases (user == 0)) [
    | inl nobody ↦ ground (arith, rw (nobody) at done)
    | inr reader ↦ reader
  ]

  module _ (feed_fails : ℕ → Bool) (ties : ℕ → FeedItem → ℕ) (reached : Bool) (now user : ℕ)
      (pagination : Option (ℤ × ℤ)) (s : Store Tables) (r : FeedResponse) where
    -- The client asks a run of the interaction service. When GetFollowingFeed answers, whatever fails in
    -- either service or between them: either each item has the reader's marks as the interaction
    -- service has them in its tables, or no item has any mark.
    pub handle_get_following_feed-marks :
        (handle_get_following_feed feed_fails ties (some (client reached)) now pagination user s).0
          ≡ ok r
        → (r.items ≡ map (with_marks st.tables.rows user) (map (λ x. x.item) r.items))
          ⊎ (r.items ≡ map plain (map (λ x. x.item) r.items))
    handle_get_following_feed-marks done =
        let (items, total, (fed, same)) =
          following-answered feed_fails ties (some (client reached)) now pagination s r user done in
        let whole =
          ap (map (λ x. x.item)) same ∙ item_of-enrich (some (client reached)) user items in
        let h =
          handle_get_following_feed-IsFeed feed_fails ties (some (client reached)) now pagination s
            r user done in
        let few = subst (λ cs. length cs ≤ 100) whole h.few in
        subst (λ xs. AreMarked user (map (λ x. x.item) xs) xs) (sym same)
          (subst
            (λ cs.
              AreMarked user cs (enrich_with_interaction_status (some (client reached)) user items))
            (sym (item_of-enrich (some (client reached)) user items))
            (enriched-marked reached user items
              (given feed_fails ties reached now user pagination s r done) few))
