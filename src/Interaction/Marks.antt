-- ===== src/Interaction/Marks.antt =====
-- The calls against a set of marks, which is what the service promises to keep.
use lesser.Common.{
  ℕ, ◌≡◌, refl, sym, ap, ◌∙◌, Bool, true, false, ◌&&◌, List, [], ◌∷◌, ◌==◌, if◌then◌else◌, any,
  take, map, length, leb, arith, any-remove, any-remove_other, Bool-cases, inl, inr,
}
use lesser.Db.{Store, ok}
use lesser.Db.Laws.{Result-cases}
use lesser.Interaction.{Mark, same_mark, Tables}
use lesser.Content.Client.{Delivery}
use lesser.Interaction.Service.{is_row, InteractionStatus, status_of, batch_get_interaction_status}
use lesser.Interaction.Calls.{Rows, marked, unmarked, add_mark-ok, drop_mark-ok}
use lesser.Interaction.Counts.{Call, add, drop, perform, perform_all, perform_all-next}

-- The abstract state: who has marked what.
abbrev pub Marks : Type 0
Marks = Mark → ℕ → ℕ → Bool

abbrev pub marks_in : Rows → Marks
marks_in rows k user content = any (is_row user content) (rows k)

abbrev pub with_mark : Mark → ℕ → ℕ → Bool → Marks → Marks
with_mark k user content b m j u c =
    if same_mark j k && (u == user && c == content) then b else m j u c

abbrev pub specified : Call → Marks → Marks
specified (add p k fresh user content) = with_mark k user content true
specified (drop k user content) = with_mark k user content false

abbrev pub specified_all : List Call → Marks → Marks
specified_all [] m = m
specified_all (c ∷ cs) m = specified_all cs (specified c m)

specified-same :
    (c : Call) (m n : Marks)
    → ((k : Mark) (u d : ℕ) → m k u d ≡ n k u d)
    → (k : Mark) (u d : ℕ) → specified c m k u d ≡ specified c n k u d
specified-same (add p j fresh user content) m n same k u d = ground (arith, same k u d)
specified-same (drop j user content) m n same k u d = ground (arith, same k u d)

specified_all-same :
    (cs : List Call) (m n : Marks)
    → ((k : Mark) (u d : ℕ) → m k u d ≡ n k u d)
    → (k : Mark) (u d : ℕ) → specified_all cs m k u d ≡ specified_all cs n k u d
specified_all-same [] m n same = same
specified_all-same (c ∷ cs) m n same =
    specified_all-same cs (specified c m) (specified c n) (specified-same c m n same)

module _ (rows : Rows) (k : Mark) (user content : ℕ) (j : Mark) (u d : ℕ) where
  marks_in-marked :
      (fresh : ℕ)
      → marks_in (marked k fresh user content rows) j u d
        ≡ with_mark k user content true (marks_in rows) j u d
  marks_in-marked fresh = ground arith

  marks_in-kept :
      any (is_row user content) (rows k) ≡ true
      → marks_in rows j u d ≡ with_mark k user content true (marks_in rows) j u d
  marks_in-kept h = ground arith

  marks_in-unmarked :
      marks_in (unmarked k user content rows) j u d
      ≡ with_mark k user content false (marks_in rows) j u d
  marks_in-unmarked = elim (Bool-cases (u == user && d == content)) [
    | inl same ↦ ground (arith, any-remove (is_row user content) (rows k))
    | inr other ↦
        ground (
          arith,
          any-remove_other (is_row user content) (is_row u d) (λ r h. ground arith) (rows k),
        )
  ]

module _ (fails : ℕ → Bool) (net : ℕ → Delivery) (content_fails : ℕ → Bool) where
  perform-refines :
      (c : Call) (s : Store Tables) (n : ℕ)
      → (perform fails net content_fails c s).0 ≡ ok n
      → (k : Mark) (u d : ℕ)
      → marks_in (perform fails net content_fails c s).1.tables.rows k u d
        ≡ specified c (marks_in s.tables.rows) k u d
  perform-refines (add p j fresh user content) s n e k u d =
      add_mark-ok
        (λ m rows contents.
          marks_in rows k u d ≡ with_mark j user content true (marks_in s.tables.rows) k u d)
        fails net content_fails j user content n s p fresh
        (λ c found new. marks_in-marked s.tables.rows j user content k u d fresh)
        (λ c found old. marks_in-kept s.tables.rows j user content k u d old) e
  perform-refines (drop j user content) s n e k u d =
      drop_mark-ok
        (λ m rows contents.
          marks_in rows k u d ≡ with_mark j user content false (marks_in s.tables.rows) k u d)
        fails net content_fails j user content n s
        (λ c found old. marks_in-unmarked s.tables.rows j user content k u d)
        (λ c found absent. marks_in-unmarked s.tables.rows j user content k u d) e

  -- A run of Like, Unlike, Bookmark, Unbookmark and DeleteRepost in which every call returns without
  -- an error refines the same run on a set of marks: who has marked what afterwards is what adding
  -- and removing the marks one after the other gives.
  pub perform_all-refines :
      (cs : List Call) (s : Store Tables)
      → (perform_all fails net content_fails cs s).0 ≡ ok tt
      → (k : Mark) (u d : ℕ)
      → marks_in (perform_all fails net content_fails cs s).1.tables.rows k u d
        ≡ specified_all cs (marks_in s.tables.rows) k u d
  perform_all-refines [] s e k u d = refl
  perform_all-refines (c ∷ cs) s e k u d =
      elim (Result-cases (perform fails net content_fails c s).0) [
        | inl (n, done) ↦
            let next = perform_all-next fails net content_fails c cs s n done in
            ap (λ x. marks_in x.1.tables.rows k u d) next
            ∙ perform_all-refines cs (perform fails net content_fails c s).1
                (ap (λ x. x.0) (sym next) ∙ e) k u d
            ∙ specified_all-same cs _ _ (perform-refines c s n done) k u d
        | inr (f, failed) ↦ ground arith
      ]

-- The status of one content, read from the set of marks.
abbrev pub status_in : Rows → ℕ → ℕ → InteractionStatus
status_in rows user c = record {
  content_id = c;
  is_liked = marks_in rows Mark.like user c;
  is_bookmarked = marks_in rows Mark.bookmark user c;
  is_reposted = marks_in rows Mark.repost user c;
}

-- What the three maps say of one content.
abbrev mapped : List ℕ → Rows → ℕ → ℕ → InteractionStatus
mapped asked rows user c = record {
  content_id = c;
  is_liked = any (λ d. d == c) asked && marks_in rows Mark.like user c;
  is_bookmarked = any (λ d. d == c) asked && marks_in rows Mark.bookmark user c;
  is_reposted = any (λ d. d == c) asked && marks_in rows Mark.repost user c;
}

mapped-asked :
    (asked : List ℕ) (rows : Rows) (user c : ℕ)
    → any (λ d. d == c) asked ≡ true
    → mapped asked rows user c ≡ status_in rows user c
mapped-asked asked rows user c h = ground arith

map-mapped :
    (asked part : List ℕ) (rows : Rows) (user : ℕ)
    → ((c : ℕ) → any (λ d. d == c) part ≡ true → any (λ d. d == c) asked ≡ true)
    → map (mapped asked rows user) part ≡ map (status_in rows user) part
map-mapped asked [] rows user all = refl
map-mapped asked (c ∷ part) rows user all =
    let first = mapped-asked asked rows user c (all c (ground arith)) in
    let rest = map-mapped asked part rows user (λ d h. all d (ground arith)) in
    rw first (rw rest refl)

module _ (fails : ℕ → Bool) (net : ℕ → Delivery) (content_fails : ℕ → Bool) where
  status_of-ok :
      (user : ℕ) (asked : List ℕ) (s : Store Tables) (found : List InteractionStatus)
      → (status_of fails net content_fails user asked s).0 ≡ ok found
      → (found ≡ map (mapped asked s.tables.rows user) asked)
        × ((status_of fails net content_fails user asked s).1.tables ≡ s.tables)
  unfolding status_of
  status_of-ok user [] s found e = ground arith
  status_of-ok user (c ∷ asked) s found e = ground arith

  -- When BatchGetInteractionStatus returns, it gives the marks of the user on the first hundred of the
  -- contents, in the order of the request.
  pub batch_get_interaction_status-ok :
      (user : ℕ) (contents : List ℕ) (s : Store Tables) (found : List InteractionStatus)
      → (batch_get_interaction_status fails net content_fails user contents s).0 ≡ ok found
      → found ≡ map (status_in s.tables.rows user) (take 100 contents)
  unfolding batch_get_interaction_status
  batch_get_interaction_status-ok user [] s found e = ground arith
  batch_get_interaction_status-ok user (c ∷ contents) s found e =
      let asked = take 100 (c ∷ contents) in
      let some_asked : leb (length (c ∷ contents)) 0 ≡ false = ground arith in
      elim (Bool-cases (user == 0)) [
        | inl nobody ↦ ground arith
        | inr user_given ↦
            (status_of-ok user asked s found (rw (user_given, some_asked) at e)).0
            ∙ map-mapped asked asked s.tables.rows user (λ d h. h)
      ]
