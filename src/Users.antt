-- ===== src/Users.antt =====
-- The user service's tables, service/user/internal/data_access/models.go: users, follow relations,
-- follow requests and blocks. An identifier is only compared, so it is a number, and 0 is the empty
-- text. Row identifiers and time stamps, which no operation reads, are left out.
pub mod Statements
pub mod Service
pub mod Counts
pub mod Following
pub mod Blocking
pub mod Steps
pub mod Atomic
pub mod Visibility
pub mod Halfway
pub mod Profile
mod Tests
use lesser.Common.{ℕ, Bool, true, false, Option, List}

pub record User : Type 0 where
  pub display_name : List ℕ
  pub avatar_url : List ℕ
  pub bio : List ℕ
  pub location : List ℕ
  pub website : List ℕ
  pub is_private : Bool
  pub is_active : Bool
  pub followers_count : ℕ
  pub following_count : ℕ

pub data FollowRequestStatus : Type 0 where
  pending approved rejected : FollowRequestStatus

-- The values of the integer type `BlockType` that the handlers pass on.
pub data BlockType : Type 0 where
  unspecified hide_posts hide_me block : BlockType

abbrev pub same_type : BlockType → BlockType → Bool
same_type unspecified unspecified = true
same_type hide_posts hide_posts = true
same_type hide_me hide_me = true
same_type block block = true
same_type _ _ = false

-- `follows` holds (follower, following) pairs; `blocks` goes from blocker and blocked to the type.
-- `published` lists the follow events given to the message queue.
pub record Tables : Type 0 where
  pub users : ℕ → Option User
  pub follows : List (ℕ × ℕ)
  pub requests : ℕ → ℕ → Option FollowRequestStatus
  pub blocks : ℕ → ℕ → Option BlockType
  pub published : List (ℕ × ℕ)

pub data Error : Type 0 where
  user_not_found : Error
  cannot_follow_self follow_blocked : Error
  cannot_block_self invalid_block_type : Error

pub record RelationshipStatus : Type 0 where
  pub is_following : Bool
  pub is_followed_by : Bool
  pub is_mutual : Bool
  pub is_blocking : Bool
  pub is_blocked_by : Bool
  pub is_muting : Bool
  pub is_hiding_from : Bool
  pub my_block_type : BlockType
  pub their_block_type : BlockType
