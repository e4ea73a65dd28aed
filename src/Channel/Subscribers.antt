-- ===== src/Channel/Subscribers.antt =====
-- The subscriber counter of a channel against the rows of channel_subscriptions.
use lesser.Common.{
  ℕ, suc, ◌+◌, ◌≤◌, ◌≡◌, refl, ap, sym, subst, Bool, true, false, some, List, [], ◌∷◌, ◌==◌,
  if◌then◌else◌, count_by, arith, Option-cases, inl, inr,
}
use lesser.Db.{Store}
use lesser.Channel.{Channel, Tables}
use lesser.Channel.Statements.{
  is_pair, has, without, update_channel_row, insert_subscription, delete_subscription,
  increment_subscriber_count, decrement_subscriber_count,
}
use lesser.Channel.Service.{subscribe, unsubscribe}

-- How many rows a channel has, and how often a pair stands in the table.
abbrev pub subscribers_of : ℕ → List (ℕ × ℕ) → ℕ
subscribers_of c = count_by (λ r. r.0 == c)

abbrev rows_of : ℕ → ℕ → List (ℕ × ℕ) → ℕ
rows_of c u = count_by (is_pair c u)

-- The counter of a channel that is not deleted is its number of rows, and no pair has two rows.
pub record IsCounted (t : Tables) : Type 0 where
  pub counted :
      (c : ℕ) (x : Channel)
      → t.channels c ≡ some x
      → x.is_deleted ≡ false
      → x.subscriber_count ≡ subscribers_of c t.subscriptions
  pub distinct : (c u : ℕ) → rows_of c u t.subscriptions ≤ 1

rows_of-has : (c u : ℕ) (rs : List (ℕ × ℕ)) → (if has c u rs then 1 else 0) ≤ rows_of c u rs
unfolding has
rows_of-has c u [] = ground arith
rows_of-has c u (r ∷ rs) = ground (arith, rows_of-has c u rs)

rows_of-absent : (c u : ℕ) (rs : List (ℕ × ℕ)) → has c u rs ≡ false → rows_of c u rs ≡ 0
unfolding has
rows_of-absent c u [] h = refl
rows_of-absent c u (r ∷ rs) h = ground (arith, rows_of-absent c u rs)

subscribers_of-without :
    (c u d : ℕ) (rs : List (ℕ × ℕ))
    → subscribers_of d (without c u rs) + (if d == c then rows_of c u rs else 0)
      ≡ subscribers_of d rs
unfolding without
subscribers_of-without c u d [] = ground arith
subscribers_of-without c u d (r ∷ rs) = ground (arith, subscribers_of-without c u d rs)

rows_of-without-le :
    (c u d v : ℕ) (rs : List (ℕ × ℕ)) → rows_of d v (without c u rs) ≤ rows_of d v rs
unfolding without
rows_of-without-le c u d v [] = ground arith
rows_of-without-le c u d v (r ∷ rs) = ground (arith, rows_of-without-le c u d v rs)

without-absent : (c u : ℕ) (rs : List (ℕ × ℕ)) → has c u rs ≡ false → without c u rs ≡ rs
unfolding has without
without-absent c u [] h = refl
without-absent c u (r ∷ rs) h = ground (arith, without-absent c u rs)

-- A deletion that meets no row changes nothing.
pub delete_subscription-absent :
    (c u : ℕ) (t : Tables) → has c u t.subscriptions ≡ false → delete_subscription c u t ≡ t
unfolding delete_subscription
delete_subscription-absent c u t h =
    ap (λ rs. record t { subscriptions = rs }) (without-absent c u t.subscriptions h)

-- The tables after both statements of `Subscribe`, and of `Unsubscribe`.
abbrev subscribed : ℕ → ℕ → Tables → Tables
subscribed c u t = increment_subscriber_count c (insert_subscription c u t)

abbrev unsubscribed : ℕ → ℕ → Tables → Tables
unsubscribed c u t = decrement_subscriber_count c (delete_subscription c u t)

module _ (c u : ℕ) (t : Tables) (v : IsCounted t) where
  subscribed-IsCounted : has c u t.subscriptions ≡ false → IsCounted (subscribed c u t)
  unfolding insert_subscription increment_subscriber_count update_channel_row
  subscribed-IsCounted new = record {
    counted = λ d x e l. elim (Option-cases (t.channels d)) [
      | inl missing ↦ ground arith
      | inr (w, found) ↦ ground (arith, v.counted d w found)
    ];
    distinct = λ d w. ground (arith, v.distinct d w, rows_of-absent c u t.subscriptions);
  }

  unsubscribed-IsCounted : has c u t.subscriptions ≡ true → IsCounted (unsubscribed c u t)
  unfolding delete_subscription decrement_subscriber_count update_channel_row
  unsubscribed-IsCounted old = record {
    counted = λ d x e l. elim (Option-cases (t.channels d)) [
      | inl missing ↦ ground arith
      | inr (w, found) ↦ ground (
        arith,
        v.counted d w found,
        v.distinct c u,
        rows_of-has c u t.subscriptions,
        subscribers_of-without c u d t.subscriptions,
      )
    ];
    distinct = λ d w. omega (arith, v.distinct d w, rows_of-without-le c u d w t.subscriptions);
  }

module _ (P : Tables → Type 0) (fails : ℕ → Bool) (c u : ℕ) (s : Store Tables) where
  -- What `Subscribe` and `Unsubscribe` can have done when the update of the counter goes through.
  subscribe_cases :
      fails (suc (suc (suc s.statements))) ≡ false
      → P s.tables
      → (has c u s.tables.subscriptions ≡ false → P (subscribed c u s.tables))
      → P (subscribe fails c u s).1.tables
  unfolding subscribe
  subscribe_cases up same new = ground arith

  unsubscribe_cases :
      fails (suc s.statements) ≡ false
      → P s.tables
      → (has c u s.tables.subscriptions ≡ false → P (delete_subscription c u s.tables))
      → (has c u s.tables.subscriptions ≡ true → P (unsubscribed c u s.tables))
      → P (unsubscribe fails c u s).1.tables
  unfolding unsubscribe
  unsubscribe_cases up same missed gone = ground arith

module _ (fails : ℕ → Bool) (c u : ℕ) (s : Store Tables) (v : IsCounted s.tables) where
  -- Whichever of the statements before it fail, if the update of the counter does not fail, then
  -- `Subscribe` keeps the counters of the live channels equal to their numbers of subscriptions.
  pub subscribe-IsCounted :
      fails (suc (suc (suc s.statements))) ≡ false → IsCounted (subscribe fails c u s).1.tables
  subscribe-IsCounted up =
      subscribe_cases IsCounted fails c u s up v (subscribed-IsCounted c u s.tables v)

  -- If the update of the counter, the second statement, does not fail, then `Unsubscribe` keeps the
  -- counters of the live channels equal to their numbers of subscriptions.
  pub unsubscribe-IsCounted :
      fails (suc s.statements) ≡ false → IsCounted (unsubscribe fails c u s).1.tables
  unsubscribe-IsCounted up =
      unsubscribe_cases IsCounted fails c u s up v
        (λ h. subst IsCounted (sym (delete_subscription-absent c u s.tables h)) v)
        (unsubscribed-IsCounted c u s.tables v)
