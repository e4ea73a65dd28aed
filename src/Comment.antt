-- ===== src/Comment.antt =====
-- Comments, their replies and their likes, service/comment/internal. The number of comments of a
-- content is a counter of the content service, which this one calls over the network.
pub mod Statements
pub mod Remote
pub mod Service
pub mod Tallies
pub mod Changes
pub mod Steps
pub mod Refusals
mod Tests
use lesser.Common.{ℕ, Bool, List}
use lesser.Common.Text.{Text}
use lesser.Db.{Store}
use lesser.Content

-- Identifiers are numbers, 0 for the empty text: a comment that is no reply has the parent 0.
pub record Comment : Type 0 where
  pub id : ℕ
  pub author_id : ℕ
  pub content_id : ℕ
  pub parent_id : ℕ
  pub text : Text
  pub is_deleted : Bool
  pub reply_count : ℕ
  pub like_count : ℕ

pub data Event : Type 0 where
  comment_created :
      (comment author content content_author parent parent_author : ℕ) (text : Text) → Event
  comment_liked : (comment author liker : ℕ) → Event
  user_mentioned : (mentioned mentioner comment : ℕ) → Event

-- `comments` has the newest first; `likes` are pairs of a user and a comment; `content` is the other
-- service's store.
pub record State : Type 0 where
  pub comments : List Comment
  pub likes : List (ℕ × ℕ)
  pub events : List Event
  pub content : Store Content.Tables

-- `missing_row` is the ErrCommentNotFound of the data access, another value than `comment_not_found`.
pub data Error : Type 0 where
  empty_text text_too_long content_not_found comments_disabled invalid_parent : Error
  unauthorized comment_not_found missing_row already_liked not_liked : Error
  remote_error : Content.Error → Error

pub data SortBy : Type 0 where
  unspecified oldest newest hottest recommended : SortBy

-- The ORDER BY clauses that are used.
pub data OrderClause : Type 0 where
  created_at_asc created_at_desc like_count_desc : OrderClause
