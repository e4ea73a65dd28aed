-- ===== src/Timeline/Ties.antt =====
-- Rows that differ in their keys stand in one order, whatever ranks the database puts them by.
use lesser.Common.{
  ℕ, suc, ◌≡◌, refl, ◌∙◌, ◌≤◌, ap, Bool, true, false, ◌&&◌, not, Option, none, some, List, [], ◌∷◌,
  any, filter, length, arith, ◌++◌, ◌==◌, ltb, leb, count_by, if◌then◌else◌,
}
use lesser.Timeline.{FeedItem}
use lesser.Timeline.Feeds.{
  keys_before, put, order_by, with_ties, flag, published_key, pinned_keys, is_live, is_expired,
}
use lesser.Timeline.Order.{any-order_by, is_ordered}

-- The order of a user's page, without keys: what is pinned first, then the newest publication, what has
-- none last, then the newest creation.
abbrev pub is_later : Option ℕ → Option ℕ → (created created_other : ℕ) → Bool
is_later none none a b = leb b a
is_later none (some y) a b = false
is_later (some x) none a b = true
is_later (some x) (some y) a b = if x == y then leb b a else ltb y x

abbrev pub stands_first : (pinned pinned_other later : Bool) → Bool
stands_first true true b = b
stands_first true false b = true
stands_first false true b = false
stands_first false false b = b

abbrev pub is_before : FeedItem → FeedItem → Bool
is_before c d =
    stands_first c.is_pinned d.is_pinned
      (is_later c.published_at d.published_at c.created_at d.created_at)

is_later-keys :
    (x y : Option ℕ) (a b : ℕ)
    → keys_before (published_key x ∷ a ∷ []) (published_key y ∷ b ∷ []) ≡ is_later x y a b
is_later-keys none none a b = ground arith
is_later-keys none (some y) a b = ground arith
is_later-keys (some x) none a b = ground arith
is_later-keys (some x) (some y) a b = ground arith

stands_first-keys :
    (p q : Bool) (ks ls : List ℕ)
    → keys_before (flag p ∷ ks) (flag q ∷ ls) ≡ stands_first p q (keys_before ks ls)
stands_first-keys true true ks ls = refl
stands_first-keys true false ks ls = refl
stands_first-keys false true ks ls = refl
stands_first-keys false false ks ls = refl

is_before-keys : (c d : FeedItem) → keys_before (pinned_keys c) (pinned_keys d) ≡ is_before c d
is_before-keys c d =
    stands_first-keys c.is_pinned d.is_pinned (published_key c.published_at ∷ c.created_at ∷ [])
      (published_key d.published_at ∷ d.created_at ∷ [])
    ∙ ap (stands_first c.is_pinned d.is_pinned)
        (is_later-keys c.published_at d.published_at c.created_at d.created_at)

module _ (before : FeedItem → FeedItem → Bool) where
  -- Each entry comes before the next one or is equal to it in the order.
  abbrev pub is_in_order : List FeedItem → Bool
  is_in_order [] = true
  is_in_order (c ∷ []) = true
  is_in_order (c ∷ d ∷ ds) = before c d && is_in_order (d ∷ ds)

  abbrev pub is_tie : FeedItem → FeedItem → Bool
  is_tie c d = before c d && before d c

  -- No two entries are equal in the order.
  abbrev pub no_ties : List FeedItem → Bool
  no_ties [] = true
  no_ties (c ∷ cs) = not (any (is_tie c) cs) && no_ties cs

pub in_order-keys : (cs : List FeedItem) → is_ordered pinned_keys cs ≡ is_in_order is_before cs
in_order-keys [] = refl
in_order-keys (c ∷ []) = refl
in_order-keys (c ∷ d ∷ ds) = ground (arith, is_before-keys c d, in_order-keys (d ∷ ds))

keys_before-rank :
    (ks ls : List ℕ) (a b : ℕ)
    → (keys_before ks ls && keys_before ls ks) ≡ false
    → keys_before (ks ++ (a ∷ [])) (ls ++ (b ∷ [])) ≡ keys_before ks ls
keys_before-rank [] [] a b h = ground (arith, h)
keys_before-rank [] (l ∷ ls) a b h = ground (arith, h)
keys_before-rank (k ∷ ks) [] a b h = ground (arith, h)
keys_before-rank (k ∷ ks) (l ∷ ls) a b h = ground (arith, h, keys_before-rank ks ls a b)

put-rank :
    (rank : FeedItem → ℕ) (c : FeedItem) (ds : List FeedItem)
    → any (is_tie is_before c) ds ≡ false
    → put (with_ties pinned_keys rank) c ds ≡ put pinned_keys c ds
put-rank rank c [] h = refl
put-rank rank c (d ∷ ds) h =
    let same =
      keys_before-rank (pinned_keys c) (pinned_keys d) (rank c) (rank d)
        (rw (is_before-keys c d, is_before-keys d c) (ground (arith, h))) in
    rw (same, put-rank rank c ds (ground (arith, h))) refl

pub order_by-rank :
    (rank : FeedItem → ℕ) (cs : List FeedItem)
    → no_ties is_before cs ≡ true
    → order_by (with_ties pinned_keys rank) cs ≡ order_by pinned_keys cs
unfolding order_by
order_by-rank rank [] h = refl
order_by-rank rank (c ∷ cs) h = rw (order_by-rank rank cs (ground (arith, h))) (
    put-rank rank c (order_by pinned_keys cs)
      (any-order_by pinned_keys (is_tie is_before c) cs ∙ ground (arith, h)))

module _ (q : FeedItem → Bool) where
  count_by-put :
      (keys : FeedItem → List ℕ) (c : FeedItem) (ds : List FeedItem)
      → count_by q (put keys c ds) ≡ count_by q (c ∷ ds)
  count_by-put keys c [] = refl
  count_by-put keys c (d ∷ ds) = ground (arith, count_by-put keys c ds)

  pub count_by-order_by :
      (keys : FeedItem → List ℕ) (cs : List FeedItem)
      → count_by q (order_by keys cs) ≡ count_by q cs
  unfolding order_by
  count_by-order_by keys [] = refl
  count_by-order_by keys (c ∷ cs) =
      ground (arith, count_by-put keys c (order_by keys cs), count_by-order_by keys cs)

  pub count_by-filter :
      (p : FeedItem → Bool) (cs : List FeedItem)
      → count_by q (filter p cs) ≡ count_by (λ c. q c && p c) cs
  count_by-filter p [] = refl
  count_by-filter p (c ∷ cs) = ground (arith, count_by-filter p cs)

pub length-count_by : (cs : List FeedItem) → length cs ≡ count_by (λ _. true) cs
length-count_by [] = refl
length-count_by (c ∷ cs) = ap suc (length-count_by cs)

-- A content of the user that GetUserFeed shows at a time, and one that is no longer shown at a later.
abbrev pub is_shown : (user now : ℕ) → FeedItem → Bool
is_shown user now c = c.author_id == user && is_live now c

abbrev pub expires_by : (user start now : ℕ) → FeedItem → Bool
expires_by user start now c = is_shown user start c && is_expired now c.expires_at

is_expired-later :
    (start now : ℕ) (e : Option ℕ)
    → start ≤ now
    → is_expired start e ≡ true
    → is_expired now e ≡ true
is_expired-later start now none le h = h
is_expired-later start now (some e) le h = ground (arith, le, h)

pub shown-later :
    (user start now : ℕ) (cs : List FeedItem)
    → start ≤ now
    → any (expires_by user start now) cs ≡ false
    → filter (is_shown user now) cs ≡ filter (is_shown user start) cs
shown-later user start now [] le h = refl
shown-later user start now (c ∷ cs) le h =
    ground (arith, h, is_expired-later start now c.expires_at le, shown-later user start now cs le)
