-- ===== src/Timeline/Pages.antt =====
-- Reading a user's feed page by page.
use mathlib.Core.List.{◌++◌}
use lesser.Common.{
  ℕ, suc, zero, ◌+◌, ◌*◌, ◌^◌, ◌≡◌, ◌≤◌, ◌<◌, refl, ◌∙◌, sym, ap, false, Option, some, List, [],
  ◌∷◌, map, length, take, drop, filter, arith, ◌==◌, ltb, ◌&&◌, Bool, true, any, count_by,
}
use lesser.Common.Int.{pos}
use lesser.Db.{Store, ok, err, Result}
use lesser.Page.{new_request, limit, offset}
use lesser.Page.Laws.{offset-wraps}
use lesser.Page
use lesser.Timeline.{FeedItem, Tables}
use lesser.Timeline.Feeds
use lesser.Timeline.Feeds.{order_by, with_ties, pinned_keys}
use lesser.Timeline.Service
use lesser.Timeline.Service.{InteractionClient, enrich_with_interaction_status, normalize_limit}
use lesser.Timeline.Handler.{FeedResponse, Code, handle_get_user_feed}
use lesser.Timeline.Shown.{item_of-enrich}
use lesser.Timeline.Order.{order_by-ordered}
use lesser.Timeline.Ties.{
  is_before, is_in_order, no_ties, in_order-keys, order_by-rank, count_by-order_by, count_by-filter,
  length-count_by, is_shown, expires_by, shown-later,
}

abbrev pub items_of : Result Code FeedResponse → List FeedItem
items_of (ok r) = map (λ x. x.item) r.items
items_of (err e) = []

take-nil : (n : ℕ) → take {A = FeedItem} n [] ≡ []
take-nil zero = refl
take-nil (suc n) = refl

take-same : (m n : ℕ) (cs : List FeedItem) → m ≡ n → take m cs ≡ take n cs
take-same m n cs e = ap (λ k. take k cs) e

take-append : (m n : ℕ) (cs : List FeedItem) → take m cs ++ take n (drop m cs) ≡ take (m + n) cs
take-append zero n cs = take-same n (zero + n) cs (omega arith)
take-append (suc m) n [] = take-nil n ∙ sym (take-nil (suc m + n))
take-append (suc m) n (c ∷ cs) =
    ap (λ ds. c ∷ ds) (take-append m n cs)
    ∙ take-same (suc (m + n)) (suc m + n) (c ∷ cs) (omega arith)

take-all : (n : ℕ) (cs : List FeedItem) → length cs ≤ n → take n cs ≡ cs
take-all zero [] h = refl
take-all zero (c ∷ cs) h = absurd (omega (arith, h))
take-all (suc n) [] h = refl
take-all (suc n) (c ∷ cs) h = ap (λ ds. c ∷ ds) (take-all n cs (omega (arith, h)))

request-page :
    (p n : ℕ)
    → 0 < n
    → n ≤ 100
    → new_request (pos (suc p)) (pos n) ≡ record { page = pos (suc p); page_size = pos n }
unfolding new_request Page.normalize
request-page p n low high = ground arith

request-limit : (n : ℕ) → 0 < n → n ≤ 100 → normalize_limit (pos n) ≡ n
request-limit n low high = ground arith

-- The page p is read at the time `now p`, and by the ranks `ties p` of its statements.
module _ (client : Option InteractionClient) (now : ℕ → ℕ) (ties : ℕ → ℕ → FeedItem → ℕ)
    (user viewer n : ℕ) (s : Store Tables) where
  abbrev pub page : ℕ → List FeedItem
  page p =
      items_of
        (handle_get_user_feed (λ _. false) (ties p) client (now p) (some (pos (suc p), pos n)) user
          viewer s).0

  -- The items of the pages from the first to the k-th, as the handler answers them.
  unfoldable pub pages : ℕ → List FeedItem
  pages zero = []
  pages (suc p) = pages p ++ page p

  module _ (given : (user == 0) ≡ false) (low : 0 < n) (high : n ≤ 100) where
    page-items :
        (p : ℕ)
        → suc p < 2 ^ 31
        → p * n < 2 ^ 31
        → page p
          ≡ take n (
              drop (p * n) (
                order_by
                  (with_ties pinned_keys (ties p (suc s.statements)))
                  (filter (is_shown user (now p)) s.tables.contents)))
    unfolding handle_get_user_feed Service.get_user_feed Feeds.feed
    page-items p small fits =
        let at_offset : offset (record { page = pos (suc p); page_size = pos n }) ≡ pos (p * n) =
          offset-wraps p n small (omega (arith, fits)) ∙ ground (arith, fits) in
        let below : ltb (p * n + 0) (0 + 0) ≡ false = ground arith in
        rw (given, request-page p n low high, at_offset, request-limit n low high, below)
          (item_of-enrich client viewer (
            take n (
              drop (p * n) (
                order_by (with_ties pinned_keys (ties p (suc s.statements)))
                  (filter (is_shown user (now p)) s.tables.contents)))))

    module _ (start : ℕ) (later : (p : ℕ) → start ≤ now p)
        (none_expires : (p : ℕ) → any (expires_by user start (now p)) s.tables.contents ≡ false)
        (untied : no_ties is_before (filter (is_shown user start) s.tables.contents) ≡ true) where
      abbrev whole : List FeedItem
      whole = order_by pinned_keys (filter (is_shown user start) s.tables.contents)

      whole-any :
          (p : ℕ)
          → order_by
              (with_ties pinned_keys (ties p (suc s.statements)))
              (filter (is_shown user (now p)) s.tables.contents)
            ≡ whole
      whole-any p =
          ap (order_by (with_ties pinned_keys (ties p (suc s.statements))))
            (shown-later user start (now p) s.tables.contents (later p) (none_expires p))
          ∙ order_by-rank (ties p (suc s.statements))
              (filter (is_shown user start) s.tables.contents) untied

      pages-take : (k : ℕ) → k < 2 ^ 31 → k * n < 2 ^ 31 → pages k ≡ take (k * n) whole
      unfolding pages
      pages-take zero small fits = take-same 0 (0 * n) whole (omega arith)
      pages-take (suc p) small fits =
          let before = pages-take p (omega (arith, small)) (omega (arith, fits)) in
          let last =
            page-items p small (omega (arith, fits))
            ∙ ap (λ cs. take n (drop (p * n) cs)) (whole-any p) in
          rw (before, last)
            (take-append (p * n) n whole ∙ take-same (p * n + n) (suc p * n) whole (omega arith))

      whole-length : length whole ≡ count_by (is_shown user start) s.tables.contents
      whole-length =
          length-count_by whole
          ∙ count_by-order_by (λ _. true) pinned_keys
              (filter (is_shown user start) s.tables.contents)
          ∙ count_by-filter (λ _. true) (is_shown user start) s.tables.contents

      -- When no statement fails and the tables stay as they are, for a user who is given, page sizes
      -- from 1 to 100 and fewer than 2 ^ 31 rows in k pages that have room for all his contents which
      -- are shown at a start: if the pages are read at times not before it, at which none of these has
      -- expired, and no two of them are equal in pin, publication and creation, then whatever the
      -- database does with rows that are equal, the items of the pages from the first to the k-th,
      -- one after the other, are these contents, of each kind as many as there are, the pinned first and
      -- otherwise the newest publication.
      pub pages-whole :
          (k : ℕ)
          → k < 2 ^ 31
          → k * n < 2 ^ 31
          → count_by (is_shown user start) s.tables.contents ≤ k * n
          → ((q : FeedItem → Bool)
              → count_by q (pages k)
                ≡ count_by (λ c. q c && is_shown user start c) s.tables.contents)
            × (is_in_order is_before (pages k) ≡ true)
      pages-whole k small fits enough =
          let all =
            pages-take k small fits
            ∙ take-all (k * n) whole (omega (arith, enough, whole-length)) in
          (
            λ q.
                ap (count_by q) all
                ∙ count_by-order_by q pinned_keys (filter (is_shown user start) s.tables.contents)
                ∙ count_by-filter q (is_shown user start) s.tables.contents,
            ap (is_in_order is_before) all
                ∙ sym (in_order-keys whole)
                ∙ order_by-ordered pinned_keys (filter (is_shown user start) s.tables.contents),
          )
