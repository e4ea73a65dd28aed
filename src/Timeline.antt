-- ===== src/Timeline.antt =====
-- The feeds, service/timeline/internal. It reads the tables of the content and the user service, and
-- asks the interaction service for the marks of the reader. The identifier 0 is the empty one. Times
-- are numbers, and the texts and other fields of a content that are only handed on are one field.
pub mod Feeds
pub mod Service
pub mod Handler
pub mod Order
pub mod Shown
pub mod Ties
pub mod Statuses
pub mod Pages
mod Tests
use lesser.Common.{ℕ, Bool, Option, List}
use lesser.Common.Text.{Text}

pub record FeedItem : Type 0 where
  pub content_id : ℕ
  pub author_id : ℕ
  pub status : ℕ
  pub text : Text
  pub like_count : ℕ
  pub comment_count : ℕ
  pub repost_count : ℕ
  pub created_at : ℕ
  pub published_at : Option ℕ
  pub expires_at : Option ℕ
  pub is_pinned : Bool

pub record Follow : Type 0 where
  pub follower_id : ℕ
  pub following_id : ℕ

-- Of two users, `follows` has one row at most, of which an index makes sure.
pub record Tables : Type 0 where
  pub contents : List FeedItem
  pub follows : List Follow

pub data Error : Type 0 where
  content_not_found : Error

pub record FeedItemWithStatus : Type 0 where
  pub item : FeedItem
  pub is_liked : Bool
  pub is_bookmarked : Bool
  pub is_reposted : Bool
