-- ===== src/Interaction/Calls.antt =====
-- What a call that returns a count has done to the rows and to the contents.
use lesser.Common.{
  ℕ, ◌+◌, ◌≡◌, refl, ◌∙◌, sym, ap, subst, Bool, true, false, some, List, [], ◌∷◌, ◌==◌,
  if◌then◌else◌, any, remove, arith, Option-cases, inl, inr,
}
use lesser.Common.Int.{ℤ, pos, negsuc}
use lesser.Db.{Store, ok}
use lesser.Content.{Content, CounterType}
use lesser.Content.Life.{Contents}
use lesser.Content.Statements.{
  moved, live, live_content, updated_if, update_where, is_live, with_counter,
}
use lesser.Content.Service.{get, update_counter, check_content_exists}
use lesser.Interaction.{Mark, same_mark, Row, Tables}
use lesser.Content.Client.{Delivery}
use lesser.Interaction.Remote.{remote_check, remote_counter, content_author}
use lesser.Interaction.Service.{
  is_row, counter_of, delete_mark, publish_mark, mark_existing, add_mark, drop_mark,
}

abbrev pub Rows : Type 0
Rows = Mark → List Row

-- The contents after the counter of `k` has moved, and the rows after an insertion and a deletion.
abbrev pub counter_moved : Mark → ℕ → ℤ → Contents → Contents
counter_moved k id delta contents j =
    if j == id
    then updated_if is_live (with_counter (counter_of k) delta) (contents j)
    else contents j

abbrev pub marked : Mark → ℕ → ℕ → ℕ → Rows → Rows
marked k fresh user content rows j =
    if same_mark j k
    then record { user_id = user; content_id = content; id = fresh; quote = [] } ∷ rows k
    else rows j

abbrev pub unmarked : Mark → ℕ → ℕ → Rows → Rows
unmarked k user content rows j =
    if same_mark j k then remove (is_row user content) (rows k) else rows j

abbrev pub contents_of : Store Tables → Contents
contents_of s = s.tables.content.tables.contents

module _ (net : ℕ → Delivery) (content_fails : ℕ → Bool) (s : Store Tables) where
  -- Looking up a content changes no row and no content.
  pub remote_check-same :
      (id : ℕ)
      → ((remote_check net content_fails id s).1.tables.rows ≡ s.tables.rows)
        × (contents_of (remote_check net content_fails id s).1 ≡ contents_of s)
  unfolding remote_check check_content_exists
  remote_check-same id = ground arith

  pub publish_mark-same :
      (fails : ℕ → Bool) (p : Bool) (k : Mark) (user id repost : ℕ)
      → ((publish_mark fails net content_fails p k user id repost s).1.tables.rows ≡ s.tables.rows)
        × (contents_of (publish_mark fails net content_fails p k user id repost s).1
            ≡ contents_of s)
  unfolding publish_mark content_author get
  publish_mark-same fails p k user id repost = ground arith

  -- A count that comes back is the counter that the update has written.
  pub remote_counter-ok :
      (id : ℕ) (k : CounterType) (delta : ℤ) (n : ℕ)
      → (remote_counter net content_fails id k delta s).0 ≡ ok n
      → ((remote_counter net content_fails id k delta s).1.tables.rows ≡ s.tables.rows)
        × (contents_of (remote_counter net content_fails id k delta s).1
            ≡ (update_where id is_live (with_counter k delta) s.tables.content.tables).contents)
        × (c : Content) × (live_content id s.tables.content.tables ≡ some c)
        × (n ≡ (with_counter k delta c).counters k)
  unfolding remote_counter update_counter
  remote_counter-ok id k delta n e = elim (Option-cases (live_content id s.tables.content.tables)) [
    | inl missing ↦ ground arith
    | inr (c, found) ↦ (ground arith, ground arith, c, found, ground arith)
  ]

moved_by :
    (k : Mark) (delta : ℤ) (c : Content)
    → moved delta (c.counters (counter_of k))
      ≡ (with_counter (counter_of k) delta c).counters (counter_of k)
moved_by Mark.like delta c = refl
moved_by Mark.bookmark delta c = refl
moved_by Mark.repost delta c = refl

module _ (P : ℕ → Rows → Contents → Type 0) (fails : ℕ → Bool) (net : ℕ → Delivery)
    (content_fails : ℕ → Bool) (k : Mark) (user content n : ℕ) where
  -- What holds after a row has been inserted, and after one has been found.
  abbrev pub Created : ℕ → Rows → Contents → Type 0
  Created fresh rows contents =
      (c : Content)
      → live (contents content) ≡ some c
      → any (is_row user content) (rows k) ≡ false
      → P (c.counters (counter_of k) + 1) (marked k fresh user content rows)
          (counter_moved k content (pos 1) contents)

  abbrev pub Kept : Rows → Contents → Type 0
  Kept rows contents =
      (c : Content)
      → live (contents content) ≡ some c
      → any (is_row user content) (rows k) ≡ true
      → P (c.counters (counter_of k)) rows (counter_moved k content (pos 0) contents)

  mark_existing-ok :
      (s : Store Tables) (p : Bool) (fresh : ℕ)
      → Created fresh s.tables.rows (contents_of s)
      → Kept s.tables.rows (contents_of s)
      → (mark_existing fails net content_fails p k fresh user content s).0 ≡ ok n
      → P n
          (mark_existing fails net content_fails p k fresh user content s).1.tables.rows
          (contents_of (mark_existing fails net content_fails p k fresh user content s).1)
  unfolding mark_existing remote_counter publish_mark content_author update_counter get update_where
  mark_existing-ok s p fresh new old e = grind arith

  drop_mark-written :
      (s : Store Tables)
      → ((c : Content)
          → live (contents_of s content) ≡ some c
          → any (is_row user content) (s.tables.rows k) ≡ true
          → P
              ((with_counter (counter_of k) (negsuc 0) c).counters (counter_of k))
              (delete_mark k user content s.tables).rows
              (update_where content is_live
                (with_counter (counter_of k) (negsuc 0))
                s.tables.content.tables).contents)
      → ((c : Content)
          → live (contents_of s content) ≡ some c
          → any (is_row user content) (s.tables.rows k) ≡ false
          → P
              ((with_counter (counter_of k) (pos 0) c).counters (counter_of k))
              (delete_mark k user content s.tables).rows
              (update_where content is_live
                (with_counter (counter_of k) (pos 0))
                s.tables.content.tables).contents)
      → (drop_mark fails net content_fails k user content s).0 ≡ ok n
      → P n
          (drop_mark fails net content_fails k user content s).1.tables.rows
          (contents_of (drop_mark fails net content_fails k user content s).1)
  unfolding drop_mark remote_counter update_counter
  drop_mark-written s gone absent e = grind arith

  pub drop_mark-ok :
      (s : Store Tables)
      → ((c : Content)
          → live (contents_of s content) ≡ some c
          → any (is_row user content) (s.tables.rows k) ≡ true
          → P
              (moved (negsuc 0) (c.counters (counter_of k)))
              (unmarked k user content s.tables.rows)
              (counter_moved k content (negsuc 0) (contents_of s)))
      → ((c : Content)
          → live (contents_of s content) ≡ some c
          → any (is_row user content) (s.tables.rows k) ≡ false
          → P
              (moved (pos 0) (c.counters (counter_of k)))
              (unmarked k user content s.tables.rows)
              (counter_moved k content (pos 0) (contents_of s)))
      → (drop_mark fails net content_fails k user content s).0 ≡ ok n
      → P n
          (drop_mark fails net content_fails k user content s).1.tables.rows
          (contents_of (drop_mark fails net content_fails k user content s).1)
  unfolding update_where
  drop_mark-ok s gone absent e =
      drop_mark-written s
        (λ c f h.
          subst
            (λ m.
              P m (unmarked k user content s.tables.rows)
                (counter_moved k content (negsuc 0) (contents_of s)))
            (moved_by k (negsuc 0) c) (gone c f h))
        (λ c f h.
          subst
            (λ m.
              P m (unmarked k user content s.tables.rows)
                (counter_moved k content (pos 0) (contents_of s)))
            (moved_by k (pos 0) c) (absent c f h))
        e

  add_mark-through :
      (s : Store Tables) (p : Bool) (fresh : ℕ)
      → (add_mark fails net content_fails p k fresh user content s).0 ≡ ok n
      → add_mark fails net content_fails p k fresh user content s
        ≡ mark_existing fails net content_fails p k fresh user content
            (remote_check net content_fails content s).1
  unfolding add_mark
  add_mark-through s p fresh e = ground arith

  pub add_mark-ok :
      (s : Store Tables) (p : Bool) (fresh : ℕ)
      → Created fresh s.tables.rows (contents_of s)
      → Kept s.tables.rows (contents_of s)
      → (add_mark fails net content_fails p k fresh user content s).0 ≡ ok n
      → P n
          (add_mark fails net content_fails p k fresh user content s).1.tables.rows
          (contents_of (add_mark fails net content_fails p k fresh user content s).1)
  add_mark-ok s p fresh new old e =
      let through = add_mark-through s p fresh e in
      let t : Store Tables = (remote_check net content_fails content s).1 in
      let (same_rows, same_contents) = remote_check-same net content_fails s content in
      subst (λ x. P n x.1.tables.rows (contents_of x.1)) (sym through)
        (mark_existing-ok t p fresh
          (subst (λ r. Created fresh r (contents_of t)) (sym same_rows)
            (subst (Created fresh s.tables.rows) (sym same_contents) new))
          (subst (λ r. Kept r (contents_of t)) (sym same_rows)
            (subst (Kept s.tables.rows) (sym same_contents) old))
          (ap (λ x. x.0) (sym through) ∙ e))
