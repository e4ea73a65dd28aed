-- ===== src/Notification.antt =====
-- Notifications, service/notification/internal: the rows, and the handlers of the events that the
-- other services publish. An identifier is a number, 0 for the empty text, which is stored as NULL; a
-- type of notification is the number that its constant has.
pub mod Service
pub mod Events
pub mod Delivery
pub mod Reading
mod Tests
use lesser.Common.{ℕ, Bool, List}
use lesser.Common.Text.{Text}

pub data TargetType : Type 0 where
  content comment user : TargetType

pub record Notification : Type 0 where
  pub id : ℕ
  pub user_id : ℕ
  pub type : ℕ
  pub actor_id : ℕ
  pub target_type : TargetType
  pub target_id : ℕ
  pub message : Text
  pub is_read : Bool

-- The newest first.
pub record Tables : Type 0 where
  pub notifications : List Notification

pub data Error : Type 0 where
  invalid_input notification_not_found : Error
