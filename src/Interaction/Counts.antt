-- ===== src/Interaction/Counts.antt =====
-- The counters of the contents against the rows, over runs of calls that return.
use lesser.Common.{
  ℕ, ◌+◌, ◌≤◌, ◌≡◌, sym, ap, subst, ◌∙◌, Bool, true, false, Option, some, List, [], ◌∷◌, ◌==◌,
  if◌then◌else◌, any, remove, count_by, arith, count_by-any, count_by-absent, count_by-remove_le,
  Option-cases, inl, inr,
}
use lesser.Common.Int.{pos, negsuc}
use lesser.Db.{Store, ok, Exec, pure, ◌>>=◌}
use lesser.Db.Laws.{Result-cases}
use lesser.Content.{Content}
use lesser.Content.Life.{Contents}
use lesser.Content.Statements.{live}
use lesser.Interaction.{Mark, Row, Tables, Error}
use lesser.Content.Client.{Delivery}
use lesser.Interaction.Service.{is_row, counter_of, add_mark, drop_mark}
use lesser.Interaction.Calls.{
  Rows, contents_of, counter_moved, marked, unmarked, add_mark-ok, drop_mark-ok,
}

abbrev pub marks_of : ℕ → List Row → ℕ
marks_of content = count_by (λ r. r.content_id == content)

abbrev pub rows_of : ℕ → ℕ → List Row → ℕ
rows_of user content = count_by (is_row user content)

-- The counters are the numbers of rows, and no user has two rows for a content.
pub record IsCounted (rows : Rows) (contents : Contents) : Type 0 where
  pub counted :
      (k : Mark) (id : ℕ) (c : Content)
      → contents id ≡ some c
      → c.counters (counter_of k) ≡ marks_of id (rows k)
  pub distinct : (k : Mark) (user id : ℕ) → rows_of user id (rows k) ≤ 1

-- Removing the row of a user for a content takes one from the marks of that content alone.
marks_of-remove :
    (user content id : ℕ) (rs : List Row)
    → marks_of id (remove (is_row user content) rs)
        + (if id == content then rows_of user content rs else 0)
      ≡ marks_of id rs
marks_of-remove user content id [] = ground arith
marks_of-remove user content id (r ∷ rs) = ground (arith, marks_of-remove user content id rs)

live_row : (o : Option Content) (c : Content) → live o ≡ some c → o ≡ some c
live_row o c h = ground arith

module _ (k : Mark) (user content : ℕ) (rows : Rows) (contents : Contents)
    (v : IsCounted rows contents) where
  IsCounted-kept : IsCounted rows (counter_moved k content (pos 0) contents)
  IsCounted-kept = record {
    counted = λ j id x e. elim (Option-cases (contents id)) [
      | inl missing ↦ ground arith
      | inr (w, found) ↦ ground (arith, v.counted j id w found)
    ];
    distinct = v.distinct;
  }

  module _ (c : Content) (found : live (contents content) ≡ some c) where
    IsCounted-marked :
        (fresh : ℕ)
        → any (is_row user content) (rows k) ≡ false
        → IsCounted (marked k fresh user content rows) (counter_moved k content (pos 1) contents)
    IsCounted-marked fresh new = record {
      counted = λ j id x e. elim (Option-cases (contents id)) [
        | inl missing ↦ ground arith
        | inr (w, there) ↦ ground (arith, v.counted j id w there)
      ];
      distinct = λ j u id.
          ground (arith, v.distinct j u id, count_by-absent (is_row user content) (rows k));
    }

    IsCounted-unmarked :
        any (is_row user content) (rows k) ≡ true
        → IsCounted (unmarked k user content rows) (counter_moved k content (negsuc 0) contents)
    IsCounted-unmarked old = record {
      counted = λ j id x e. elim (Option-cases (contents id)) [
        | inl missing ↦ ground arith
        | inr (w, there) ↦ ground (
          arith,
          v.counted j id w there,
          v.distinct k user content,
          count_by-any (is_row user content) (rows k),
          marks_of-remove user content id (rows k),
        )
      ];
      distinct = λ j u id. ground (
        arith,
        v.distinct j u id,
        count_by-remove_le (is_row user content) (is_row u id) (rows k),
      );
    }

    IsCounted-unmarked_absent :
        any (is_row user content) (rows k) ≡ false
        → IsCounted (unmarked k user content rows) (counter_moved k content (pos 0) contents)
    IsCounted-unmarked_absent absent = record {
      counted = λ j id x e. elim (Option-cases (contents id)) [
        | inl missing ↦ ground arith
        | inr (w, there) ↦ ground (
          arith,
          v.counted j id w there,
          count_by-absent (is_row user content) (rows k),
          marks_of-remove user content id (rows k),
        )
      ];
      distinct = λ j u id. ground (
        arith,
        v.distinct j u id,
        count_by-remove_le (is_row user content) (is_row u id) (rows k),
      );
    }

-- Like, Unlike, Bookmark, Unbookmark and DeleteRepost.
pub data Call : Type 0 where
  add : (has_publisher : Bool) (k : Mark) (fresh user content : ℕ) → Call
  drop : (k : Mark) (user content : ℕ) → Call

-- What a count stands for: the number of rows of the content.
abbrev pub rows_counted : Call → Rows → ℕ
rows_counted (add p k fresh user content) rows = marks_of content (rows k)
rows_counted (drop k user content) rows = marks_of content (rows k)

module _ (fails : ℕ → Bool) (net : ℕ → Delivery) (content_fails : ℕ → Bool) where
  abbrev pub perform : Call → Exec Error Tables ℕ
  perform (add p k fresh user content) = add_mark fails net content_fails p k fresh user content
  perform (drop k user content) = drop_mark fails net content_fails k user content

  -- One call after the other, up to the first that does not return.
  abbrev pub perform_all : List Call → Exec Error Tables (Unit {0})
  perform_all [] = pure tt
  perform_all (c ∷ cs) = perform c >>= λ n. perform_all cs

  pub perform_all-next :
      (c : Call) (cs : List Call) (s : Store Tables) (n : ℕ)
      → (perform c s).0 ≡ ok n
      → perform_all (c ∷ cs) s ≡ perform_all cs (perform c s).1
  perform_all-next c cs s n e = ground arith

  perform-counts :
      (c : Call) (s : Store Tables) (n : ℕ)
      → IsCounted s.tables.rows (contents_of s)
      → (perform c s).0 ≡ ok n
      → IsCounted (perform c s).1.tables.rows (contents_of (perform c s).1)
        × (n ≡ rows_counted c (perform c s).1.tables.rows)
  perform-counts (add p k fresh user content) s n v e =
      add_mark-ok (λ m rows contents. IsCounted rows contents × (m ≡ marks_of content (rows k)))
        fails net content_fails k user content n s p fresh
        (λ c found new. (
          IsCounted-marked k user content s.tables.rows (contents_of s) v c found fresh new,
          ground (arith, v.counted k content c (live_row (contents_of s content) c found)),
        ))
        (λ c found old. (
          IsCounted-kept k user content s.tables.rows (contents_of s) v,
          v.counted k content c (live_row (contents_of s content) c found),
        ))
        e
  perform-counts (drop k user content) s n v e =
      drop_mark-ok (λ m rows contents. IsCounted rows contents × (m ≡ marks_of content (rows k)))
        fails net content_fails k user content n s
        (λ c found old. (
          IsCounted-unmarked k user content s.tables.rows (contents_of s) v c found old,
          ground (
            arith,
            v.counted k content c (live_row (contents_of s content) c found),
            v.distinct k user content,
            count_by-any (is_row user content) (s.tables.rows k),
            marks_of-remove user content content (s.tables.rows k),
          ),
        ))
        (λ c found absent. (
          IsCounted-unmarked_absent k user content s.tables.rows (contents_of s) v c found absent,
          ground (
            arith,
            v.counted k content c (live_row (contents_of s content) c found),
            count_by-absent (is_row user content) (s.tables.rows k),
            marks_of-remove user content content (s.tables.rows k),
          ),
        ))
        e

  -- When a Like, Unlike, Bookmark, Unbookmark or DeleteRepost gives a count, the count is the number
  -- of rows of the content in the table after the call, if before the call every counter was the number
  -- of rows and no user had two rows for a content. Statements and network calls may fail anywhere.
  pub perform-count :
      (c : Call) (s : Store Tables) (n : ℕ)
      → IsCounted s.tables.rows (contents_of s)
      → (perform c s).0 ≡ ok n
      → n ≡ rows_counted c (perform c s).1.tables.rows
  perform-count c s n v e = (perform-counts c s n v e).1

  -- A run of Like, Unlike, Bookmark, Unbookmark and DeleteRepost in which every call returns without
  -- an error keeps the counters of likes, bookmarks and reposts of every content equal to its rows of that
  -- kind, and keeps at most one row
  -- for a user and a content. Statements and network calls whose errors are dropped may fail.
  pub perform_all-IsCounted :
      (cs : List Call) (s : Store Tables)
      → IsCounted s.tables.rows (contents_of s)
      → (perform_all cs s).0 ≡ ok tt
      → IsCounted (perform_all cs s).1.tables.rows (contents_of (perform_all cs s).1)
  perform_all-IsCounted [] s v e = v
  perform_all-IsCounted (c ∷ cs) s v e = elim (Result-cases (perform c s).0) [
    | inl (n, done) ↦
        let next = perform_all-next c cs s n done in
        subst (λ x. IsCounted x.1.tables.rows (contents_of x.1)) (sym next)
          (perform_all-IsCounted cs (perform c s).1 (perform-counts c s n v done).0
            (ap (λ x. x.0) (sym next) ∙ e))
    | inr (f, failed) ↦ ground arith
  ]
