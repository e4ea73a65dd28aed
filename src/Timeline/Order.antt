-- ===== src/Timeline/Order.antt =====
-- An ORDER BY sorts, and a part of a sorted list is sorted.
use lesser.Common.{
  ℕ, zero, suc, ◌≡◌, ◌≤◌, refl, ◌∙◌, Bool, true, false, ◌&&◌, not, List, [], ◌∷◌, any, filter, take,
  drop, length, arith, ◌++◌,
}
use lesser.Timeline.{FeedItem}
use lesser.Timeline.Feeds.{keys_before, put, order_by, with_ties}

keys_before-total : (ks ls : List ℕ) → keys_before ks ls ≡ false → keys_before ls ks ≡ true
keys_before-total [] ls h = ground (arith, h)
keys_before-total (k ∷ ks) [] h = refl
keys_before-total (k ∷ ks) (l ∷ ls) h = ground (arith, h, keys_before-total ks ls)

keys_before-append :
    (ks ls : List ℕ) (a b : ℕ)
    → keys_before (ks ++ (a ∷ [])) (ls ++ (b ∷ [])) ≡ true
    → keys_before ks ls ≡ true
keys_before-append [] ls a b h = refl
keys_before-append (k ∷ ks) [] a b h = refl
keys_before-append (k ∷ ks) (l ∷ ls) a b h = ground (arith, h, keys_before-append ks ls a b)

module _ (keys : FeedItem → List ℕ) where
  -- Whether each entry comes before the next one, or has the same keys.
  abbrev pub is_ordered : List FeedItem → Bool
  is_ordered [] = true
  is_ordered (c ∷ []) = true
  is_ordered (c ∷ d ∷ ds) = keys_before (keys c) (keys d) && is_ordered (d ∷ ds)

  after-put :
      (c d : FeedItem) (ds : List FeedItem)
      → is_ordered (d ∷ ds) ≡ true
      → keys_before (keys d) (keys c) ≡ true
      → is_ordered (d ∷ put keys c ds) ≡ true
  after-put c d [] h b = ground (arith, b)
  after-put c d (e ∷ ds) h b =
      ground (arith, h, b, keys_before-total (keys c) (keys e), after-put c e ds)

  put-ordered :
      (c : FeedItem) (ds : List FeedItem) → is_ordered ds ≡ true → is_ordered (put keys c ds) ≡ true
  put-ordered c [] h = refl
  put-ordered c (d ∷ ds) h =
      ground (arith, h, keys_before-total (keys c) (keys d), after-put c d ds)

  pub order_by-ordered : (cs : List FeedItem) → is_ordered (order_by keys cs) ≡ true
  unfolding order_by
  order_by-ordered [] = refl
  order_by-ordered (c ∷ cs) = put-ordered c (order_by keys cs) (order_by-ordered cs)

  drop-ordered : (n : ℕ) (cs : List FeedItem) → is_ordered cs ≡ true → is_ordered (drop n cs) ≡ true
  drop-ordered zero cs h = h
  drop-ordered (suc n) [] h = refl
  drop-ordered (suc zero) (c ∷ []) h = refl
  drop-ordered (suc (suc n)) (c ∷ []) h = refl
  drop-ordered (suc n) (c ∷ d ∷ ds) h = drop-ordered n (d ∷ ds) (ground (arith, h))

  take-ordered : (n : ℕ) (cs : List FeedItem) → is_ordered cs ≡ true → is_ordered (take n cs) ≡ true
  take-ordered zero cs h = refl
  take-ordered (suc n) [] h = refl
  take-ordered (suc zero) (c ∷ cs) h = refl
  take-ordered (suc (suc n)) (c ∷ []) h = refl
  take-ordered (suc (suc n)) (c ∷ d ∷ ds) h = ground (arith, h, take-ordered (suc n) (d ∷ ds))

  pub part-ordered :
      (n m : ℕ) (cs : List FeedItem) → is_ordered (take n (drop m (order_by keys cs))) ≡ true
  part-ordered n m cs =
      take-ordered n (drop m (order_by keys cs))
        (drop-ordered m (order_by keys cs) (order_by-ordered cs))

  any-put :
      (q : FeedItem → Bool) (c : FeedItem) (ds : List FeedItem)
      → any q (put keys c ds) ≡ any q (c ∷ ds)
  any-put q c [] = refl
  any-put q c (d ∷ ds) = ground (arith, any-put q c ds)

  pub any-order_by :
      (q : FeedItem → Bool) (cs : List FeedItem) → any q (order_by keys cs) ≡ any q cs
  unfolding order_by
  any-order_by q [] = refl
  any-order_by q (c ∷ cs) = ground (arith, any-put q c (order_by keys cs), any-order_by q cs)

-- Rows that are ordered by keys and ranks are ordered by the keys.
pub with_ties-ordered :
    (keys : FeedItem → List ℕ) (rank : FeedItem → ℕ) (cs : List FeedItem)
    → is_ordered (with_ties keys rank) cs ≡ true
    → is_ordered keys cs ≡ true
with_ties-ordered keys rank [] h = refl
with_ties-ordered keys rank (c ∷ []) h = refl
with_ties-ordered keys rank (c ∷ d ∷ ds) h = ground (
  arith,
  h,
  keys_before-append (keys c) (keys d) (rank c) (rank d),
  with_ties-ordered keys rank (d ∷ ds),
)

any-drop :
    (q : FeedItem → Bool) (n : ℕ) (cs : List FeedItem)
    → any q cs ≡ false
    → any q (drop n cs) ≡ false
any-drop q zero cs h = h
any-drop q (suc n) [] h = refl
any-drop q (suc n) (c ∷ cs) h = any-drop q n cs (ground (arith, h))

any-take :
    (q : FeedItem → Bool) (n : ℕ) (cs : List FeedItem)
    → any q cs ≡ false
    → any q (take n cs) ≡ false
any-take q zero cs h = refl
any-take q (suc n) [] h = refl
any-take q (suc n) (c ∷ cs) h = ground (arith, h, any-take q n cs)

any-filter : (p : FeedItem → Bool) (cs : List FeedItem) → any (λ c. not (p c)) (filter p cs) ≡ false
any-filter p [] = refl
any-filter p (c ∷ cs) = ground (arith, any-filter p cs)

-- What a test rejects is in no part of the entries that pass it.
pub part-passes :
    (keys : FeedItem → List ℕ) (p : FeedItem → Bool) (n m : ℕ) (cs : List FeedItem)
    → any (λ c. not (p c)) (take n (drop m (order_by keys (filter p cs)))) ≡ false
part-passes keys p n m cs = any-take _ n (drop m (order_by keys (filter p cs))) (
    any-drop _ m (order_by keys (filter p cs))
      (any-order_by keys (λ c. not (p c)) (filter p cs) ∙ any-filter p cs))

pub length-take_le : (n : ℕ) (cs : List FeedItem) → length (take n cs) ≤ n
length-take_le zero cs = omega arith
length-take_le (suc n) [] = omega arith
length-take_le (suc n) (c ∷ cs) = omega (arith, length-take_le n cs)
