-- ===== src/Channel.antt =====
-- The channel service's tables, service/channel/internal/data_access. An identifier is only
-- compared, so it is a number, and 0 is the empty text. Time stamps are left out, except that a row
-- may be marked as deleted; a table that is read in the order of its time stamps is a list, the
-- newest row first.
pub mod Statements
pub mod Service
pub mod Posts
pub mod Access
pub mod Subscribers
pub mod Steps
pub mod Names
pub mod Errors
mod Tests
use lesser.Common.{ℕ, Bool, Option, List}
use lesser.Common.Text.{Text}

pub record Channel : Type 0 where
  pub name : Text
  pub description : Text
  pub avatar_url : Text
  pub owner_id : ℕ
  pub subscriber_count : ℕ
  pub post_count : ℕ
  pub is_deleted : Bool

pub record ChannelPost : Type 0 where
  pub id : ℕ
  pub channel_id : ℕ
  pub author_id : ℕ
  pub content : Text
  pub media_urls : List Text
  pub view_count : ℕ
  pub is_deleted : Bool

-- `admins` and `subscriptions` hold (channel, user) pairs.
pub record Tables : Type 0 where
  pub channels : ℕ → Option Channel
  pub admins : List (ℕ × ℕ)
  pub subscriptions : List (ℕ × ℕ)
  pub posts : List ChannelPost

-- The first three are the data access layer's, the others the service's.
pub data Error : Type 0 where
  not_found already_subscribed not_subscribed : Error
  not_channel_owner not_channel_admin cannot_remove_owner : Error
  invalid_channel_name invalid_post_content : Error

pub record ChannelInfo : Type 0 where
  pub channel : Channel
  pub is_subscribed : Bool
  pub is_admin : Bool
  pub is_owner : Bool
