-- ===== src/Content/Statements.antt =====
-- The SQL statements of service/content/internal/data_access/content_data_access.go.
use lesser.Common.{ℕ, ◌+◌, Bool, true, false, not, Option, none, some, ◌∷◌, ◌==◌, if◌then◌else◌}
use lesser.Common.Int.{ℤ, pos_part, neg_part}
use lesser.Common.{◌-◌}
use lesser.Content.{Content, ContentStatus, CounterType, same_status, Tables, Event}

abbrev pub is_some {ℓ} : {A : Type ℓ} → Option A → Bool
is_some none = false
is_some (some _) = true

abbrev pub same_counter : CounterType → CounterType → Bool
same_counter CounterType.unspecified CounterType.unspecified = true
same_counter CounterType.like CounterType.like = true
same_counter CounterType.comment CounterType.comment = true
same_counter CounterType.repost CounterType.repost = true
same_counter CounterType.bookmark CounterType.bookmark = true
same_counter _ _ = false

abbrev pub live : Option Content → Option Content
live none = none
live (some c) = if same_status c.status ContentStatus.deleted then none else some c

-- SELECT … FROM contents WHERE id = $1 AND status != deleted
abbrev pub live_content : ℕ → Tables → Option Content
live_content id t = live (t.contents id)

abbrev pub updated_if : (Content → Bool) → (Content → Content) → Option Content → Option Content
updated_if test f none = none
updated_if test f (some c) = if test c then some (f c) else some c

-- UPDATE contents SET … WHERE id = $1 AND test
unfoldable pub update_where : ℕ → (Content → Bool) → (Content → Content) → Tables → Tables
update_where id test f t = record t {
  contents = λ k. if k == id then updated_if test f (t.contents k) else t.contents k;
}

abbrev pub is_live : Content → Bool
is_live c = not (same_status c.status ContentStatus.deleted)

abbrev pub is_draft : Content → Bool
is_draft c = same_status c.status ContentStatus.draft

-- INSERT INTO contents
unfoldable pub insert_content : ℕ → Content → Tables → Tables
insert_content id c t = record t {
  contents = λ k. if k == id then some c else t.contents k;
  ids = id ∷ t.ids;
}

-- GREATEST(count + delta, 0)
abbrev pub moved : ℤ → ℕ → ℕ
moved delta n = n + pos_part delta - neg_part delta

abbrev pub with_counter : CounterType → ℤ → Content → Content
with_counter k delta c = record c {
  counters = λ j. if same_counter j k then moved delta (c.counters j) else c.counters j;
}

abbrev pub push_event : Event → Tables → Tables
push_event e t = record t { events = e ∷ t.events }
