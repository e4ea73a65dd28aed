-- ===== src/Interaction/Service.antt =====
-- The operations of service/interaction/internal/logic/interaction_service.go. Like and Bookmark are
-- one text with other names, and so are Unlike, Unbookmark and DeleteRepost.
use lesser.Common.{
  ℕ, Bool, false, ◌&&◌, ◌||◌, not, none, some, List, [], ◌∷◌, ◌==◌, ltb, leb, length, take, drop,
  map, if◌then◌else◌, any, remove, find, filter, count_by,
}
use lesser.Common.Int.{ℤ, pos, negsuc, leb_ℤ, ltb_ℤ, pos_part}
use lesser.Common.Text.{Text}
use lesser.Db.{ok, err, Exec, pure, fail, ◌>>=◌, ◌>>◌, branch, query, statement, sql}
use lesser.Content.{CounterType}
use lesser.Interaction.{
  Mark, same_mark, Row, Event, Tables, Error, invalid_input, content_not_found,
}
use lesser.Content.Client.{Delivery}
use lesser.Interaction.Remote.{remote_check, remote_counter, content_author}

abbrev pub is_row : ℕ → ℕ → Row → Bool
is_row user content r = r.user_id == user && r.content_id == content

abbrev pub with_rows : Mark → List Row → Tables → Tables
with_rows k rows t = record t { rows = λ j. if same_mark j k then rows else t.rows j }

abbrev pub counter_of : Mark → CounterType
counter_of Mark.like = CounterType.like
counter_of Mark.bookmark = CounterType.bookmark
counter_of Mark.repost = CounterType.repost

-- INSERT INTO … ON CONFLICT (user_id, content_id) DO NOTHING
abbrev pub insert_mark : Mark → Row → Tables → Tables
insert_mark k r t =
    if any (is_row r.user_id r.content_id) (t.rows k) then t else with_rows k (r ∷ t.rows k) t

-- DELETE FROM … WHERE user_id = $1 AND content_id = $2
abbrev pub delete_mark : Mark → ℕ → ℕ → Tables → Tables
delete_mark k user content t = with_rows k (remove (is_row user content) (t.rows k)) t

-- `limit <= 0`, `limit > 100` and `offset < 0`.
abbrev pub limit_of : ℤ → ℕ
limit_of limit =
    if leb_ℤ limit (pos 0) then 20 else if ltb 100 (pos_part limit) then 100 else pos_part limit

abbrev pub offset_of : ℤ → ℕ
offset_of offset = if ltb_ℤ offset (pos 0) then 0 else pos_part offset

pub record InteractionStatus : Type 0 where
  pub content_id : ℕ
  pub is_liked : Bool
  pub is_bookmarked : Bool
  pub is_reposted : Bool

module _ (fails : ℕ → Bool) (net : ℕ → Delivery) (content_fails : ℕ → Bool) where
  -- The insertion and the deletion give whether a row was affected.
  abbrev pub create_row : Mark → Row → Exec Error Tables Bool
  create_row k r s =
      statement (fails s.statements) (not (any (is_row r.user_id r.content_id) (s.tables.rows k)))
        (insert_mark k r s.tables) s

  abbrev pub delete_row : Mark → ℕ → ℕ → Exec Error Tables Bool
  delete_row k user content s =
      statement (fails s.statements) (any (is_row user content) (s.tables.rows k))
        (delete_mark k user content s.tables) s

  abbrev pub push_event : Event → Exec Error Tables (Unit {0})
  push_event e s = (ok tt, record s { tables = record s.tables { events = e ∷ s.tables.events } })

  unfoldable pub publish_mark : Bool → Mark → ℕ → ℕ → ℕ → Exec Error Tables (Unit {0})
  unfolding content_author
  publish_mark has_publisher k user content repost = branch (not has_publisher) (pure tt) (
      content_author net content_fails content >>= λ author. elim author [
        | none ↦ pure tt
        | some a ↦ branch (a == 0 || a == user) (pure tt) (
            push_event
              (record { mark = k; content = content; author = a; marker = user; repost = repost }))
      ])

  -- What Like and Bookmark do once the content is known to exist.
  unfoldable pub mark_existing : Bool → Mark → ℕ → ℕ → ℕ → Exec Error Tables ℕ
  unfolding remote_counter publish_mark
  mark_existing has_publisher k fresh user content = do
    created ← create_row k (record { user_id = user; content_id = content; id = fresh; quote = [] })
    branch created
        (do
          count ← remote_counter net content_fails content (counter_of k) (pos 1)
          publish_mark has_publisher k user content 0
          pure count)
        (remote_counter net content_fails content (counter_of k) (pos 0))

  -- Like and Bookmark.
  unfoldable pub add_mark : Bool → Mark → ℕ → ℕ → ℕ → Exec Error Tables ℕ
  unfolding remote_check mark_existing
  add_mark has_publisher k fresh user content =
      branch (user == 0 || content == 0) (fail invalid_input) do
        checked ← remote_check net content_fails content
        branch (not checked.0) (fail content_not_found)
            (mark_existing has_publisher k fresh user content)

  -- Unlike, Unbookmark and DeleteRepost.
  unfoldable pub drop_mark : Mark → ℕ → ℕ → Exec Error Tables ℕ
  unfolding remote_counter
  drop_mark k user content = branch (user == 0 || content == 0) (fail invalid_input) do
    deleted ← delete_row k user content
    branch deleted (remote_counter net content_fails content (counter_of k) (negsuc 0))
        (remote_counter net content_fails content (counter_of k) (pos 0))

  -- `count, _ = UpdateCounter(…)`: an error gives the count 0.
  abbrev pub or_zero : Exec Error Tables ℕ → Exec Error Tables ℕ
  or_zero m s = let (r, t) = m s in (ok (elim r [ ok n ↦ n | err _ ↦ 0 ]), t)

  -- The row that was there; not to find it any more is an error of the database.
  abbrev pub existing : ℕ → ℕ → Exec Error Tables Row
  existing user content =
      query fails (λ t. find (is_row user content) (t.rows Mark.repost)) >>= λ found. elim found [
        | none ↦ λ s. (err sql, s)
        | some r ↦ pure r
      ]

  unfoldable pub create_repost : Bool → ℕ → ℕ → ℕ → Text → Exec Error Tables (Row × ℕ)
  unfolding remote_check remote_counter publish_mark
  create_repost has_publisher fresh user content quote =
      branch (user == 0 || content == 0) (fail invalid_input) do
        checked ← remote_check net content_fails content
        let new : Row = record { user_id = user; content_id = content; id = fresh; quote = quote }
        branch (not checked.0) (fail content_not_found) do
          created ← create_row Mark.repost new
          branch created
              (do
                count ←
                    or_zero (remote_counter net content_fails content CounterType.repost (pos 1))
                publish_mark has_publisher Mark.repost user content fresh
                pure (new, count))
              (do
                old ← existing user content
                count ←
                    or_zero (remote_counter net content_fails content CounterType.repost (pos 0))
                pure (old, count))

  unfoldable pub check_liked : ℕ → ℕ → Exec Error Tables Bool
  check_liked user content =
      branch (user == 0 || content == 0) (fail invalid_input)
        (query fails (λ t. any (is_row user content) (t.rows Mark.like)))

  -- The rows come with the newest first, which is the order of the table.
  unfoldable pub list_bookmarks : ℕ → ℤ → ℤ → Exec Error Tables (List Row × ℕ)
  list_bookmarks user limit offset = branch (user == 0) (fail invalid_input) do
    total ← query fails (λ t. count_by (λ r. r.user_id == user) (t.rows Mark.bookmark))
    page ← query fails (λ t.
        take (limit_of limit)
          (drop (offset_of offset) (filter (λ r. r.user_id == user) (t.rows Mark.bookmark))))
    pure (page, total)

  -- `BatchExists`: the map of the asked contents that have a row.
  abbrev pub batch_exists : Mark → ℕ → List ℕ → Exec Error Tables (ℕ → Bool)
  batch_exists k user contents s =
      branch (leb (length contents) 0) (pure (λ _. false))
        (query fails (λ t c. any (λ d. d == c) contents && any (is_row user c) (t.rows k))) s

  -- The three maps, and the statuses in the order of the asked contents.
  unfoldable pub status_of : ℕ → List ℕ → Exec Error Tables (List InteractionStatus)
  status_of user asked = do
    liked ← batch_exists Mark.like user asked
    bookmarked ← batch_exists Mark.bookmark user asked
    reposted ← batch_exists Mark.repost user asked
    pure (
        map
          (λ c. record {
            content_id = c;
            is_liked = liked c;
            is_bookmarked = bookmarked c;
            is_reposted = reposted c;
          })
          asked)

  unfoldable pub batch_get_interaction_status :
      ℕ → List ℕ → Exec Error Tables (List InteractionStatus)
  unfolding status_of
  batch_get_interaction_status user contents =
      branch (user == 0) (fail invalid_input)
        (branch (leb (length contents) 0) (pure []) (status_of user (take 100 contents)))
