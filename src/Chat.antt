-- ===== src/Chat.antt =====
-- Conversations, service/chat/internal: their members, their messages, and the unread counters that
-- Redis caches. A time is a number, and an identifier 0 is uuid.Nil.
pub mod Statements
pub mod Unread
pub mod Service
pub mod Cache
pub mod Runs
pub mod Changes
pub mod Steps
pub mod Access
mod Tests
use lesser.Common.{ℕ, Bool, Option, List}
use lesser.Common.Text.{Text}

pub data ConversationType : Type 0 where
  private_talk group channel : ConversationType

pub data MemberRole : Type 0 where
  member admin owner : MemberRole

pub data MessageType : Type 0 where
  text image video file system : MessageType

pub record Conversation : Type 0 where
  pub id : ℕ
  pub type : ConversationType
  pub name : Text
  pub creator_id : ℕ
  pub created_at : ℕ
  pub updated_at : ℕ

pub record Member : Type 0 where
  pub conversation_id : ℕ
  pub user_id : ℕ
  pub role : MemberRole
  pub joined_at : ℕ
  pub last_read_at : Option ℕ

pub record Message : Type 0 where
  pub id : ℕ
  pub conversation_id : ℕ
  pub sender_id : ℕ
  pub type : MessageType
  pub content : Text
  pub is_deleted : Bool
  pub created_at : ℕ

-- `unread` is the cache in Redis, by the user and the conversation, and `published` what went out on
-- the channels of Redis. A call of Redis counts as a statement.
pub record Tables : Type 0 where
  pub conversations : List Conversation
  pub members : List Member
  pub messages : List Message
  pub unread : ℕ → ℕ → Option ℕ
  pub published : List Message

pub data Error : Type 0 where
  no_members invalid_creator_id channel_type_not_supported private_member_count : Error
  group_name_required invalid_conversation_id invalid_sender_id empty_content : Error
  not_member not_authorized cannot_add_to_private cannot_mark_own_message already_read : Error
  create_conversation_failed create_message_failed check_member_failed : Error
  get_conversation_failed get_messages_failed add_member_failed remove_member_failed : Error
  mark_read_failed get_message_failed not_found : Error
