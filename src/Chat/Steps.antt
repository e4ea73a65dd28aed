-- ===== src/Chat/Steps.antt =====
-- Runs of the operations of the chat service, with its cache.
use lesser.Common.{
  ℕ, suc, ◌+◌, ◌≤◌, ◌<◌, ◌≡◌, refl, ap, true, false, ◌&&◌, not, some, List, [], ◌∷◌, ◌==◌, arith,
  Option-cases, Bool-cases, inl, inr, All, find,
}
use lesser.Db.{Store, ok}
use lesser.Chat.{Message, Tables}
use lesser.Chat.Unread.{cached_count}
use lesser.Chat.Service.{
  CreateConversationRequest, SendMessageRequest, create_conversation, send_message,
  get_unread_count, mark_conversation_as_read, mark_message_as_read, add_member,
}
use lesser.Chat.Cache.{never, IsCoherent}
use lesser.Chat.Runs.{
  later-IsCoherent, insert_member-IsCoherent, read_at-IsCoherent, sent-IsCoherent,
}
use lesser.Chat.Changes.{
  send_cases, add_member_cases, count_cases, mark_conversation_cases, mark_message_cases,
  create_cases, create_rows-IsCoherent,
}

-- A call as its user makes it.
pub data Act : Type 0 where
  create_act : ℕ → CreateConversationRequest → Act
  send_act : ℕ → SendMessageRequest → Act
  add_act : (c u by : ℕ) → Act
  count_act : (c u : ℕ) → Act
  mark_conversation_act : (c u : ℕ) → Act
  mark_message_act : (id u : ℕ) → Act

abbrev pub perform : ℕ → Act → Store Tables → Store Tables
perform now (create_act fresh r) s = (create_conversation never now fresh r s).1
perform now (send_act fresh r) s = (send_message never true now fresh r s).1
perform now (add_act c u by) s = (add_member never now c u by s).1
perform now (count_act c u) s = (get_unread_count never true c u s).1
perform now (mark_conversation_act c u) s = (mark_conversation_as_read never true now c u s).1
perform now (mark_message_act id u) s = (mark_message_as_read never true now id u s).1

-- Every call is later than the one before it, by one and the number that stands with it.
abbrev pub perform_all : ℕ → List (ℕ × Act) → Store Tables → Store Tables
perform_all now [] s = s
perform_all now ((wait, a) ∷ acts) s =
    perform_all (now + suc wait) acts (perform (now + suc wait) a s)

message_of-sent :
    (id now : ℕ) (msgs : List Message) (m : Message)
    → find (λ x. x.id == id && not x.is_deleted) msgs ≡ some m
    → All (λ x. x.created_at ≤ now) msgs
    → m.created_at ≤ now
message_of-sent id now [] m h v = ground arith
message_of-sent id now (x ∷ msgs) m h (v, vs) = elim (Bool-cases (x.id == id && not x.is_deleted)) [
  | inl e ↦ ground (arith, h, v)
  | inr e ↦ message_of-sent id now msgs m (ground (arith, h, e)) vs
]

-- Where nothing has happened since.
module _ (now : ℕ) (s : Store Tables) (v : IsCoherent now s.tables) where
  mark_message-IsCoherent :
      (id u : ℕ) → IsCoherent now (mark_message_as_read never true now id u s).1.tables
  mark_message-IsCoherent id u = mark_message_cases (IsCoherent now) s now id u v (λ m e.
      read_at-IsCoherent m.conversation_id u m.created_at now s.tables _
        (message_of-sent id now s.tables.messages m e v.sent) (λ w d n ne h. ground (arith, ne, h))
        (λ n h. ground (arith, h)) v)

  mark_conversation-IsCoherent :
      (c u : ℕ) → IsCoherent now (mark_conversation_as_read never true now c u s).1.tables
  mark_conversation-IsCoherent c u = mark_conversation_cases (IsCoherent now) s now c u v (
      read_at-IsCoherent c u now now s.tables _ (omega arith) (λ w d n ne h. ground (arith, ne, h))
        (λ n h. (ground (arith, h), refl)) v)

  count-IsCoherent : (c u : ℕ) → IsCoherent now (get_unread_count never true c u s).1.tables
  count-IsCoherent c u = count_cases (IsCoherent now) s c u v (λ e. record {
    once = v.once;
    reads = v.reads;
    sent = v.sent;
    exact = λ w d n h. elim (Bool-cases (w == u && d == c)) [
      | inl same ↦
          let same_user : w ≡ u = ground arith in
          let same_talk : d ≡ c = ground arith in
          rw (same_user) (rw (same_talk) (ground (arith, same, h)))
      | inr other ↦ v.exact w d n (ground (arith, other, h))
    ];
  })

  add_member-IsCoherent : (c u by : ℕ) → IsCoherent now (add_member never now c u by s).1.tables
  add_member-IsCoherent c u by =
      add_member_cases (IsCoherent now) s now c u by v
        (λ e. insert_member-IsCoherent now _ s.tables e refl refl v)

  create-IsCoherent :
      (fresh : ℕ) (r : CreateConversationRequest)
      → IsCoherent now (create_conversation never now fresh r s).1.tables
  create-IsCoherent fresh r =
      create_cases (IsCoherent now) now fresh r s v
        (λ k. create_rows-IsCoherent now _ r.member_ids _ refl v)

send-IsCoherent :
    (before now fresh : ℕ) (r : SendMessageRequest) (s : Store Tables)
    → before < now
    → IsCoherent before s.tables
    → IsCoherent now (send_message never true now fresh r s).1.tables
send-IsCoherent before now fresh r s lt v =
    send_cases (IsCoherent now) s now fresh r (later-IsCoherent before now s.tables (omega arith) v)
      (λ k p.
        let w =
          sent-IsCoherent before
            record {
              id = fresh;
              conversation_id = r.conversation_id;
              sender_id = r.sender_id;
              type = r.message_type;
              content = r.content;
              is_deleted = false;
              created_at = now;
            }
            s.tables k refl lt v in
        record { once = w.once; reads = w.reads; sent = w.sent; exact = w.exact })

perform-IsCoherent :
    (before now : ℕ) (a : Act) (s : Store Tables)
    → before < now
    → IsCoherent before s.tables
    → IsCoherent now (perform now a s).tables
perform-IsCoherent before now a s lt v =
    let w = later-IsCoherent before now s.tables (omega arith) v in
    elim a as (λ b. IsCoherent now (perform now b s).tables) [
      | create_act fresh r ↦ create-IsCoherent now s w fresh r
      | send_act fresh r ↦ send-IsCoherent before now fresh r s lt v
      | add_act c u by ↦ add_member-IsCoherent now s w c u by
      | count_act c u ↦ count-IsCoherent now s w c u
      | mark_conversation_act c u ↦ mark_conversation-IsCoherent now s w c u
      | mark_message_act id u ↦ mark_message-IsCoherent now s w id u
    ]

perform_all-IsCoherent :
    (now : ℕ) (acts : List (ℕ × Act)) (s : Store Tables)
    → IsCoherent now s.tables
    → (later : ℕ) × IsCoherent later (perform_all now acts s).tables
perform_all-IsCoherent now [] s v = (now, v)
perform_all-IsCoherent now ((wait, a) ∷ acts) s v =
    perform_all-IsCoherent (now + suc wait) acts _
      (perform-IsCoherent now (now + suc wait) a s (omega arith) v)

-- When no statement and no call of Redis fails, every call is later than those before it, and at the
-- start every user is a member once, nothing has happened later, and each cached counter is the count
-- of the rows: after any calls of CreateConversation, SendMessage, AddMember, GetUnreadCount,
-- MarkConversationAsRead and MarkMessageAsRead, the service with its cache gives every user the same
-- unread count as the service without one.
pub perform_all-unread :
    (now : ℕ) (acts : List (ℕ × Act)) (s : Store Tables)
    → IsCoherent now s.tables
    → (c u : ℕ)
    → (get_unread_count never true c u (perform_all now acts s)).0
      ≡ (get_unread_count never false c u (perform_all now acts s)).0
unfolding get_unread_count cached_count
perform_all-unread now acts s v c u =
    let (later, w) = perform_all-IsCoherent now acts s v in
    elim (Option-cases ((perform_all now acts s).tables.unread u c)) [
      | inl e ↦ rw (e) refl
      | inr (n, e) ↦ rw (e) (ap ok (w.exact u c n e))
    ]
