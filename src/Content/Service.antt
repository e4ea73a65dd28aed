-- ===== src/Content/Service.antt =====
-- The operations of service/content/internal/logic/content_service.go on one content, on a database
-- whose statements may fail. `now` is the time of a call, in hours.
use lesser.Common.{
  ℕ, ◌+◌, Bool, true, false, ◌&&◌, not, Option, none, some, List, [], ◌∷◌, ◌==◌, ltb, length,
  if◌then◌else◌,
}
use lesser.Common.Int.{ℤ}
use lesser.Common.Text.{Text, is_empty}
use lesser.Db.{ok, Exec, pure, fail, ◌>>=◌, ◌>>◌, branch, query, exec, ignore}
use lesser.Content.{
  Content, ContentType, ContentStatus, CounterType, same_type, same_status, Event, content_created,
  content_updated, content_deleted, user_mentioned, Tables, Error, content_not_found, unauthorized,
  cannot_edit_story, draft_not_allowed, not_draft, title_required, text_required, content_too_long,
  invalid_counter_type,
}
use lesser.Content.Statements.{
  is_some, same_counter, live_content, update_where, is_live, is_draft, insert_content,
  with_counter,
}

pub record CreateRequest : Type 0 where
  pub type : ContentType
  pub title : Text
  pub text : Text
  pub summary : Text
  pub media_urls : List ℕ
  pub tags : List ℕ
  pub reply_to_id : ℕ
  pub quote_id : ℕ
  pub is_draft : Bool
  pub comments_disabled : Bool
  pub mentioned_user_ids : List ℕ

pub record UpdateRequest : Type 0 where
  pub content_id : ℕ
  pub title : Text
  pub text : Text
  pub summary : Text
  pub media_urls : List ℕ
  pub tags : List ℕ
  pub comments_disabled : Bool
  pub mentioned_user_ids : List ℕ

-- A text is the list of its code points, which `RuneCountInString` counts.
abbrev pub length_error : ℕ → Text → Option Error
length_error max text = if ltb max (length text) then some content_too_long else none

abbrev pub required_text : Bool → Text → Option Error → Option Error
required_text is_draft text rest =
    if is_empty text && not is_draft then some text_required else rest

-- `none` is the nil error. A type that is none of the three is not looked at.
unfoldable pub validate_content : ContentType → Text → Text → Bool → Option Error
validate_content ContentType.short title text is_draft =
    required_text is_draft text (length_error 280 text)
validate_content ContentType.article title text is_draft =
    if not is_draft && is_empty title
    then some title_required
    else required_text is_draft text (length_error 50000 text)
validate_content ContentType.story title text is_draft =
    required_text is_draft text (length_error 500 text)
validate_content ContentType.unspecified title text is_draft = none

abbrev pub or_old : Text → Text → Text
or_old given old = if is_empty given then old else given

abbrev pub or_old_list : List ℕ → List ℕ → List ℕ
or_old_list given old = if is_empty given then old else given

abbrev pub with_update : UpdateRequest → Content → Content
with_update req c = record c {
  title = or_old req.title c.title;
  text = or_old req.text c.text;
  summary = or_old req.summary c.summary;
  media_urls = or_old_list req.media_urls c.media_urls;
  tags = or_old_list req.tags c.tags;
  comments_disabled = req.comments_disabled;
}

-- The loop over the mentioned users, which leaves out the author.
unfoldable pub mentions : ℕ → ℕ → List ℕ → List Event → List Event
mentions author content [] events = events
mentions author content (u ∷ us) events =
    mentions author content us
      (if u == author then events else user_mentioned u author content ∷ events)

-- `if s.publisher != nil && …`: handing over events, which returns nothing.
abbrev pub publish_if : Bool → (List Event → List Event) → Exec Error Tables (Unit {0})
publish_if test f s = (
  ok tt,
  if test then record s { tables = record s.tables { events = f s.tables.events } } else s,
)

-- `expires_at`: a story ends after 24 hours.
abbrev pub expiry : ℕ → ContentType → Option ℕ
expiry now type = if same_type type ContentType.story then some (now + 24) else none

abbrev pub new_content : ℕ → ℕ → ContentStatus → CreateRequest → Content
new_content now author status req = record {
  author_id = author;
  type = req.type;
  status = status;
  title = req.title;
  text = req.text;
  summary = req.summary;
  media_urls = req.media_urls;
  tags = req.tags;
  reply_to_id = req.reply_to_id;
  quote_id = req.quote_id;
  counters = λ _. 0;
  view_count = 0;
  is_published = same_status status ContentStatus.published;
  expires_at = expiry now req.type;
  is_pinned = false;
  comments_disabled = req.comments_disabled;
}

abbrev pub reject_some : Option Error → Exec Error Tables (Unit {0})
reject_some none = pure tt
reject_some (some e) = fail e

module _ (fails : ℕ → Bool) (has_publisher : Bool) where
  abbrev pub found : Option Content → Exec Error Tables Content
  found none = fail content_not_found
  found (some c) = pure c

  abbrev pub get_by_id : ℕ → Exec Error Tables Content
  get_by_id id = query fails (live_content id) >>= found

  -- An update that must meet a row which passes the test.
  abbrev pub update_hit : ℕ → (Content → Bool) → (Content → Content) → Exec Error Tables (Unit {0})
  update_hit id test f s =
      (exec fails (update_where id test f) >>= λ _.
      branch (elim (s.tables.contents id) [ none ↦ false | some c ↦ test c ]) (pure tt)
        (fail content_not_found))
        s

  unfoldable pub create : ℕ → ℕ → ℕ → CreateRequest → Exec Error Tables Content
  unfolding validate_content mentions
  create now fresh author req = do
    reject_some (validate_content req.type req.title req.text req.is_draft)
    branch (req.is_draft && not (same_type req.type ContentType.article)) (fail draft_not_allowed)
        do
          let status = if req.is_draft then ContentStatus.draft else ContentStatus.published
          exec fails (insert_content fresh (new_content now author status req))
          c ← get_by_id fresh
          publish_if (has_publisher && same_status status ContentStatus.published) (λ es.
              mentions author fresh req.mentioned_user_ids (content_created fresh author ∷ es))
          pure c

  -- The view is counted by a goroutine, whose error is logged.
  unfoldable pub get : ℕ → ℕ → Exec Error Tables Content
  get id viewer = do
    c ← get_by_id id
    branch (not (viewer == 0) && not (viewer == c.author_id))
        (ignore (
            exec fails
              (update_where id (λ _. true) (λ x. record x { view_count = x.view_count + 1 })))
          >> pure c)
        (pure c)

  unfoldable pub update : ℕ → UpdateRequest → Exec Error Tables Content
  unfolding validate_content mentions
  update user req = do
    c ← get_by_id req.content_id
    branch (not (c.author_id == user)) (fail unauthorized) (
        branch (same_type c.type ContentType.story) (fail cannot_edit_story) do
          let new = with_update req c
          reject_some (validate_content c.type new.title new.text (is_draft c))
          update_hit req.content_id is_live (λ x. record x {
            title = new.title;
            text = new.text;
            summary = new.summary;
            media_urls = new.media_urls;
            tags = new.tags;
            comments_disabled = new.comments_disabled;
          })
          updated ← get_by_id req.content_id
          publish_if (has_publisher && same_status updated.status ContentStatus.published) (λ es.
              mentions user req.content_id req.mentioned_user_ids
                (content_updated req.content_id user ∷ es))
          pure updated)

  -- The statement has no condition on the status.
  unfoldable pub delete : ℕ → ℕ → Exec Error Tables (Unit {0})
  delete id user = do
    c ← get_by_id id
    branch (not (c.author_id == user)) (fail unauthorized) do
      update_hit id (λ _. true) (λ x. record x { status = ContentStatus.deleted })
      publish_if has_publisher (λ es. content_deleted id ∷ es)

  unfoldable pub publish_draft : ℕ → ℕ → Exec Error Tables Content
  unfolding validate_content
  publish_draft id user = do
    c ← get_by_id id
    branch (not (c.author_id == user)) (fail unauthorized) (
        branch (not (is_draft c)) (fail not_draft) do
          reject_some (validate_content c.type c.title c.text false)
          update_hit id is_draft
              (λ x. record x { status = ContentStatus.published; is_published = true })
          published ← get_by_id id
          publish_if has_publisher (λ es. content_created id user ∷ es)
          pure published)

  unfoldable pub pin_content : ℕ → ℕ → Bool → Exec Error Tables (Unit {0})
  pin_content id user pin = do
    c ← get_by_id id
    branch (not (c.author_id == user)) (fail unauthorized)
        (exec fails (update_where id (λ _. true) (λ x. record x { is_pinned = pin })))

  -- One statement, `UPDATE … RETURNING`, which gives the new count.
  unfoldable pub update_counter : ℕ → CounterType → ℤ → Exec Error Tables ℕ
  update_counter id k delta s =
      branch (same_counter k CounterType.unspecified) (fail invalid_counter_type)
        (exec fails (update_where id is_live (with_counter k delta)) >>= λ _.
          elim (live_content id s.tables) [
            | none ↦ fail content_not_found
            | some c ↦ pure ((with_counter k delta c).counters k)
          ])
        s

  -- Whether the content exists, and whether its comments are off; the second query can miss what the
  -- first one saw.
  unfoldable pub check_content_exists : ℕ → Exec Error Tables (Bool × Bool)
  check_content_exists id = do
    exists ← query fails (λ t. is_some (live_content id t))
    branch (not exists) (pure (false, false))
        (get_by_id id >>= λ c. pure (true, c.comments_disabled))

  unfoldable pub get_author_id : ℕ → Exec Error Tables ℕ
  get_author_id id = get_by_id id >>= λ c. pure c.author_id
