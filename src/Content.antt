-- ===== src/Content.antt =====
-- The contents table, service/content/internal/data_access/content_data_access.go. Identifiers and
-- other texts that are only compared or handed on are numbers, 0 for the empty text; a time stamp is
-- left out, but for the ones that a query tests.
pub mod Statements
pub mod Service
pub mod Client
pub mod Life
pub mod Publication
pub mod Cycle
mod Tests
use lesser.Common.{ℕ, Bool, Option, List}
use lesser.Common.Text.{Text}

-- The values that the constants name.
pub data ContentType : Type 0 where
  unspecified story short article : ContentType

pub data ContentStatus : Type 0 where
  unspecified draft published archived deleted : ContentStatus

pub data CounterType : Type 0 where
  unspecified like comment repost bookmark : CounterType

abbrev pub same_type : ContentType → ContentType → Bool
same_type ContentType.unspecified ContentType.unspecified = Bool.true
same_type ContentType.story ContentType.story = Bool.true
same_type ContentType.short ContentType.short = Bool.true
same_type ContentType.article ContentType.article = Bool.true
same_type _ _ = Bool.false

abbrev pub same_status : ContentStatus → ContentStatus → Bool
same_status ContentStatus.unspecified ContentStatus.unspecified = Bool.true
same_status ContentStatus.draft ContentStatus.draft = Bool.true
same_status ContentStatus.published ContentStatus.published = Bool.true
same_status ContentStatus.archived ContentStatus.archived = Bool.true
same_status ContentStatus.deleted ContentStatus.deleted = Bool.true
same_status _ _ = Bool.false

-- `counters` holds the four columns that `UpdateCounter` writes.
pub record Content : Type 0 where
  pub author_id : ℕ
  pub type : ContentType
  pub status : ContentStatus
  pub title : Text
  pub text : Text
  pub summary : Text
  pub media_urls : List ℕ
  pub tags : List ℕ
  pub reply_to_id : ℕ
  pub quote_id : ℕ
  pub counters : CounterType → ℕ
  pub view_count : ℕ
  pub is_published : Bool
  pub expires_at : Option ℕ
  pub is_pinned : Bool
  pub comments_disabled : Bool

-- An event for the search index or for the notifications.
pub data Event : Type 0 where
  content_created content_updated : (content author : ℕ) → Event
  content_deleted : (content : ℕ) → Event
  user_mentioned : (mentioned mentioner content : ℕ) → Event

-- `ids` lists the identifiers in the order of insertion, the newest first.
pub record Tables : Type 0 where
  pub contents : ℕ → Option Content
  pub ids : List ℕ
  pub events : List Event

pub data Error : Type 0 where
  content_not_found unauthorized cannot_edit_story draft_not_allowed not_draft : Error
  title_required text_required content_too_long invalid_counter_type : Error
