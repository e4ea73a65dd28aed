-- ===== src/Chat/Statements.antt =====
-- The SQL statements of service/chat/internal/data_access.
use lesser.Common.{
  ℕ, Bool, true, false, ◌&&◌, not, Option, none, some, List, ◌∷◌, map, ◌==◌, ltb, leb, any, filter,
  find, remove, count_by, if◌then◌else◌,
}
use lesser.Chat.{
  ConversationType, private_talk, group, channel, Conversation, Member, Message, Tables,
}

abbrev pub is_private : ConversationType → Bool
is_private private_talk = true
is_private group = false
is_private channel = false

abbrev pub conversation_of : ℕ → Tables → Option Conversation
conversation_of c t = find (λ v. v.id == c) t.conversations

-- WHERE conversation_id = $1 AND user_id = $2
abbrev pub is_member_row : (c u : ℕ) → Member → Bool
is_member_row c u m = m.conversation_id == c && m.user_id == u

abbrev pub is_member_of : (c u : ℕ) → Tables → Bool
is_member_of c u t = any (is_member_row c u) t.members

-- The key of the table is the pair, so that the first row is the only one.
abbrev pub member_of : (c u : ℕ) → List Member → Option Member
member_of c u ms = find (is_member_row c u) ms

abbrev pub member_ids : ℕ → List Member → List ℕ
member_ids c ms = map (λ m. m.user_id) (filter (λ m. m.conversation_id == c) ms)

-- c.type = private, and both are among the members
abbrev pub private_conversation : (a b : ℕ) → Tables → Option Conversation
private_conversation a b t =
    find (λ v. is_private v.type && (is_member_of v.id a t && is_member_of v.id b t))
      t.conversations

abbrev pub insert_conversation : Conversation → Tables → Tables
insert_conversation v t = record t { conversations = v ∷ t.conversations }

abbrev pub insert_member : Member → Tables → Tables
insert_member m t = record t { members = m ∷ t.members }

abbrev pub delete_member : (c u : ℕ) → Tables → Tables
delete_member c u t = record t { members = remove (is_member_row c u) t.members }

abbrev pub update_timestamp : (c now : ℕ) → Tables → Tables
update_timestamp c now t = record t {
  conversations = map (λ v. if v.id == c then record v { updated_at = now } else v) t.conversations;
}

abbrev pub read_at : (c u at_time : ℕ) → Member → Member
read_at c u at_time m = if is_member_row c u m then record m { last_read_at = some at_time } else m

abbrev pub update_last_read_at : (c u at_time : ℕ) → Tables → Tables
update_last_read_at c u at_time t = record t { members = map (read_at c u at_time) t.members }

abbrev pub insert_message : Message → Tables → Tables
insert_message m t = record t { messages = m ∷ t.messages }

-- WHERE id = $1 AND is_deleted = false
abbrev pub message_of : ℕ → Tables → Option Message
message_of id t = find (λ m. m.id == id && not m.is_deleted) t.messages

-- COALESCE(cm.last_read_at, cm.joined_at)
abbrev pub read_until : Member → ℕ
read_until m = elim m.last_read_at [ none ↦ m.joined_at | some t ↦ t ]

abbrev pub is_unread : (c u after : ℕ) → Message → Bool
is_unread c u after m =
    m.conversation_id == c
    && (not (m.sender_id == u) && (not m.is_deleted && ltb after m.created_at))

-- The join gives no row for a user who is not a member.
abbrev pub unread_rows : (c u : ℕ) → List Member → List Message → ℕ
unread_rows c u ms msgs = elim (member_of c u ms) [
  | none ↦ 0
  | some m ↦ count_by (is_unread c u (read_until m)) msgs
]

abbrev pub unread_in_range : (c u after until : ℕ) → Tables → List ℕ
unread_in_range c u after until t =
    map (λ m. m.id) (filter (λ m. is_unread c u after m && leb m.created_at until) t.messages)
