-- ===== src/Interaction.antt =====
-- Likes, bookmarks and reposts, service/interaction/internal: the rows are in this service's tables,
-- the counters in those of the content service, which it calls over the network.
pub mod Remote
pub mod Service
pub mod Calls
pub mod Counts
pub mod Marks
mod Tests
use lesser.Common.{ℕ, Bool, List}
use lesser.Common.Text.{Text}
use lesser.Db.{Store}
use lesser.Content

-- The tables `likes`, `bookmarks` and `reposts`.
pub data Mark : Type 0 where
  like bookmark repost : Mark

abbrev pub same_mark : Mark → Mark → Bool
same_mark Mark.like Mark.like = Bool.true
same_mark Mark.bookmark Mark.bookmark = Bool.true
same_mark Mark.repost Mark.repost = Bool.true
same_mark _ _ = Bool.false

-- A row of one of them; the quote of a like and of a bookmark is empty.
pub record Row : Type 0 where
  pub user_id : ℕ
  pub content_id : ℕ
  pub id : ℕ
  pub quote : Text

-- An event for the notifications: the row's content, its author, who marked it, and the repost.
pub record Event : Type 0 where
  pub mark : Mark
  pub content : ℕ
  pub author : ℕ
  pub marker : ℕ
  pub repost : ℕ

-- `content` is the other service's store. The rows of a table stand with the newest first.
pub record Tables : Type 0 where
  pub rows : Mark → List Row
  pub events : List Event
  pub content : Store Content.Tables

pub data Error : Type 0 where
  invalid_input content_not_found : Error
  remote_error : Content.Error → Error
