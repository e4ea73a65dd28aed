-- ===== src/Chat/Service.antt =====
-- The operations of service/chat/internal/logic/chat_service.go. `cached` tells whether Redis was
-- there when the service started, `now` is the time of the call, and `fresh` a new identifier. What the
-- user service adds to a conversation for display is left out.
use lesser.Common.{
  ℕ, ◌-◌, ◌*◌, Bool, true, false, ◌&&◌, ◌||◌, not, Option, none, some, List, [], ◌∷◌, ◌==◌, ltb,
  length, take, drop, filter, find, count_by, if◌then◌else◌,
}
use lesser.Common.Int.{ℤ, pos, ltb_ℤ, pos_part}
use lesser.Common.Text.{Text}
use lesser.Db.{
  ok, err, reject, Exec, pure, fail, ◌>>=◌, ◌>>◌, branch, ignore, query, exec, statement, tx,
  with_transaction,
}
use lesser.Chat.{
  ConversationType, private_talk, group, channel, Conversation, Member, owner, member, Message,
  MessageType, Tables, Error, no_members, invalid_creator_id, channel_type_not_supported,
  private_member_count, group_name_required, invalid_conversation_id, invalid_sender_id,
  empty_content, not_member, not_authorized, cannot_add_to_private, cannot_mark_own_message,
  already_read, create_conversation_failed, create_message_failed, check_member_failed,
  get_conversation_failed, get_messages_failed, add_member_failed, remove_member_failed,
  mark_read_failed, get_message_failed, not_found,
}
use lesser.Chat.Statements.{
  is_private, conversation_of, is_member_of, member_of, member_ids, private_conversation,
  insert_conversation, insert_member, delete_member, update_timestamp, update_last_read_at,
  insert_message, message_of, read_until, unread_in_range,
}
use lesser.Chat.Unread.{
  recover, rows_count, cached_count, increment_unread_count, reset_unread_count, invalidate_cache,
}

pub record CreateConversationRequest : Type 0 where
  pub type : ConversationType
  pub name : Text
  pub member_ids : List ℕ
  pub creator_id : ℕ

pub record SendMessageRequest : Type 0 where
  pub conversation_id : ℕ
  pub sender_id : ℕ
  pub content : Text
  pub message_type : MessageType

pub record ReadReceipt : Type 0 where
  pub message_id : ℕ
  pub conversation_id : ℕ
  pub reader_id : ℕ
  pub read_at : ℕ

pub record BatchReadReceipt : Type 0 where
  pub conversation_id : ℕ
  pub reader_id : ℕ
  pub message_ids : List ℕ
  pub read_at : ℕ

-- `fmt.Errorf("%w: %v", e, err)` is the error `e` to its callers.
abbrev pub or_wrap {ℓ} : {A : Type ℓ} → Error → Exec Error Tables A → Exec Error Tables A
or_wrap e m s = let (r, t) = m s in (elim r [ ok a ↦ ok a | err _ ↦ err (reject e) ], t)

-- sql.ErrNoRows
abbrev pub found {ℓ} : {A : Type ℓ} → Error → Option A → Exec Error Tables A
found e none = fail e
found e (some a) = pure a

abbrev pub is_channel : ConversationType → Bool
is_channel private_talk = false
is_channel group = false
is_channel channel = true

abbrev pub is_group : ConversationType → Bool
is_group private_talk = false
is_group group = true
is_group channel = false

abbrev pub validate_create : CreateConversationRequest → Exec Error Tables (Unit {0})
validate_create r = branch (length r.member_ids == 0) (fail no_members) (
    branch (r.creator_id == 0) (fail invalid_creator_id) (
      branch (is_channel r.type) (fail channel_type_not_supported) (
        branch (is_private r.type && not (length r.member_ids == 2)) (fail private_member_count)
          (branch (is_group r.type && length r.name == 0) (fail group_name_required) (pure tt)))))

abbrev pub validate_send : SendMessageRequest → Exec Error Tables (Unit {0})
validate_send r = branch (r.conversation_id == 0) (fail invalid_conversation_id) (
    branch (r.sender_id == 0) (fail invalid_sender_id)
      (branch (length r.content == 0) (fail empty_content) (pure tt)))

-- The first two of the members, if there are two.
abbrev pub pair_of : List ℕ → Option (ℕ × ℕ)
pair_of [] = none
pair_of (a ∷ []) = none
pair_of (a ∷ b ∷ []) = some (a, b)
pair_of (a ∷ b ∷ c ∷ us) = none

-- `page < 1`, `pageSize < 1 || pageSize > 100`
abbrev pub page_of : ℤ → ℕ
page_of page = if ltb_ℤ page (pos 1) then 1 else pos_part page

abbrev pub size_of : ℕ → ℤ → ℕ
size_of default size =
    if ltb_ℤ size (pos 1) || ltb 100 (pos_part size) then default else pos_part size

module _ (fails : ℕ → Bool) where
  -- INSERT INTO conversation_members: the key refuses a second row.
  abbrev pub add_row : Member → Exec Error Tables (Unit {0})
  add_row m s =
      statement (fails s.statements || is_member_of m.conversation_id m.user_id s.tables) tt
        (insert_member m s.tables) s

  abbrev pub add_rows : (c creator now : ℕ) → List ℕ → Exec Error Tables (Unit {0})
  add_rows c creator now [] = pure tt
  add_rows c creator now (u ∷ us) =
      add_row record {
        conversation_id = c;
        user_id = u;
        role = if u == creator then owner else member;
        joined_at = now;
        last_read_at = none;
      }
      >> add_rows c creator now us

  abbrev pub create_rows : Conversation → List ℕ → Exec Error Tables (Unit {0})
  create_rows v us =
      with_transaction fails tx
        (exec fails (insert_conversation v) >> add_rows v.id v.creator_id v.created_at us)

  abbrev pub get_by_id : ℕ → Exec Error Tables (Conversation × List Member)
  get_by_id c = do
    row ← query fails (conversation_of c)
    v ← found not_found row
    members ← query fails (λ t. filter (λ m. m.conversation_id == c) t.members)
    pure (v, members)

  abbrev pub get_private_conversation : (a b : ℕ) → Exec Error Tables (Conversation × List Member)
  get_private_conversation a b = do
    row ← query fails (private_conversation a b)
    v ← found not_found row
    members ← query fails (λ t. filter (λ m. m.conversation_id == v.id) t.members)
    pure (v, members)

  abbrev pub create_new :
      (now fresh : ℕ) → CreateConversationRequest → Exec Error Tables (Conversation × List Member)
  create_new now fresh r = do
    or_wrap create_conversation_failed (
        create_rows
          record {
            id = fresh;
            type = r.type;
            name = r.name;
            creator_id = r.creator_id;
            created_at = now;
            updated_at = now;
          }
          r.member_ids)
    get_by_id fresh

  -- A failed search for the private conversation is taken for its absence.
  abbrev pub create_or_get :
      (now fresh : ℕ)
      → CreateConversationRequest
      → Option (ℕ × ℕ)
      → Exec Error Tables (Conversation × List Member)
  create_or_get now fresh r none = create_new now fresh r
  create_or_get now fresh r (some (a, b)) =
      branch (is_private r.type)
        (recover (get_private_conversation a b) pure (create_new now fresh r))
        (create_new now fresh r)

  unfoldable pub create_conversation :
      (now fresh : ℕ) → CreateConversationRequest → Exec Error Tables (Conversation × List Member)
  create_conversation now fresh r =
      validate_create r >> create_or_get now fresh r (pair_of r.member_ids)

  -- The latest message of the list, which has the newest first; a failed query leaves it out.
  unfoldable pub get_conversation :
      ℕ → Exec Error Tables ((Conversation × List Member) × Option Message)
  get_conversation c = do
    v ← get_by_id c
    last ←
        recover
          (query fails (λ t. find (λ m. m.conversation_id == c && not m.is_deleted) t.messages))
          pure (pure none)
    pure (v, last)

  abbrev pub check_member : (c u : ℕ) → Exec Error Tables (Unit {0})
  check_member c u = do
    is_member ← or_wrap check_member_failed (query fails (is_member_of c u))
    branch is_member (pure tt) (fail not_member)

  -- The loop over the members: an error is logged.
  abbrev pub increment_others : (sender c : ℕ) → List ℕ → Exec Error Tables (Unit {0})
  increment_others sender c [] = pure tt
  increment_others sender c (u ∷ us) =
      branch (u == sender) (pure tt) (ignore (increment_unread_count fails u c))
      >> increment_others sender c us

  abbrev pub count_others : (sender c : ℕ) → Exec Error Tables (Unit {0})
  count_others sender c =
      recover (query fails (λ t. member_ids c t.members)) (increment_others sender c) (pure tt)

  abbrev pub publish : Message → Exec Error Tables (Unit {0})
  publish m = ignore (exec fails (λ t. record t { published = m ∷ t.published }))

  abbrev pub post : Bool → Message → Exec Error Tables Message
  post cached m = do
    or_wrap create_message_failed (exec fails (insert_message m))
    ignore (exec fails (update_timestamp m.conversation_id m.created_at))
    branch cached (count_others m.sender_id m.conversation_id >> publish m) (pure tt)
    pure m

  unfoldable pub send_message :
      Bool → (now fresh : ℕ) → SendMessageRequest → Exec Error Tables Message
  send_message cached now fresh r = do
    validate_send r
    check_member r.conversation_id r.sender_id
    post cached record {
      id = fresh;
      conversation_id = r.conversation_id;
      sender_id = r.sender_id;
      type = r.message_type;
      content = r.content;
      is_deleted = false;
      created_at = now;
    }

  -- The empty user is the server itself.
  unfoldable pub get_messages : (c u : ℕ) → ℤ → ℤ → Exec Error Tables (List Message × ℕ)
  get_messages c u page size = do
    branch (u == 0) (pure tt) (check_member c u)
    total ←
        or_wrap get_messages_failed
          (query fails (λ t. count_by (λ m. m.conversation_id == c && not m.is_deleted) t.messages))
    messages ← or_wrap get_messages_failed (
        query fails (λ t. take (size_of 50 size) (
          drop ((page_of page - 1) * size_of 50 size)
            (filter (λ m. m.conversation_id == c && not m.is_deleted) t.messages))))
    pure (messages, total)

  unfoldable pub add_member : (now c u by : ℕ) → Exec Error Tables (Unit {0})
  add_member now c u by = do
    check_member c by
    (v, members) ← or_wrap get_conversation_failed (get_by_id c)
    branch (is_private v.type) (fail cannot_add_to_private) (
        or_wrap add_member_failed (
          add_row record {
            conversation_id = c;
            user_id = u;
            role = member;
            joined_at = now;
            last_read_at = none;
          }))

  -- DELETE gives whether it met a row.
  abbrev pub remove_row : (c u : ℕ) → Exec Error Tables (Unit {0})
  remove_row c u = do
    met ← λ s.
        statement (fails s.statements) (is_member_of c u s.tables) (delete_member c u s.tables) s
    branch met (pure tt) (fail not_found)

  unfoldable pub remove_member : (c u by : ℕ) → Exec Error Tables (Unit {0})
  remove_member c u by = do
    (v, members) ← or_wrap get_conversation_failed (get_by_id c)
    branch (not (u == by) && not (v.creator_id == by)) (fail not_authorized)
        (or_wrap remove_member_failed (remove_row c u))

  unfoldable pub get_unread_count : Bool → (c u : ℕ) → Exec Error Tables ℕ
  get_unread_count cached c u = branch cached (cached_count fails u c) (rows_count fails u c)

  abbrev pub get_member : (c u : ℕ) → Exec Error Tables Member
  get_member c u = do
    row ← or_wrap check_member_failed (query fails (λ t. member_of c u t.members))
    found not_member row

  abbrev pub write_last_read : (c u at_time : ℕ) → Exec Error Tables (Unit {0})
  write_last_read c u at_time = do
    met ← λ s.
        statement (fails s.statements) (is_member_of c u s.tables)
          (update_last_read_at c u at_time s.tables) s
    branch met (pure tt) (fail not_found)

  unfoldable pub mark_conversation_as_read :
      Bool → (now c u : ℕ) → Exec Error Tables BatchReadReceipt
  mark_conversation_as_read cached now c u = do
    m ← get_member c u
    ids ← recover (query fails (unread_in_range c u (read_until m) now)) pure (pure [])
    or_wrap mark_read_failed (write_last_read c u now)
    branch cached (ignore (reset_unread_count fails u c)) (pure tt)
    pure record { conversation_id = c; reader_id = u; message_ids = ids; read_at = now }

  -- `member.LastReadAt.Valid && !msg.CreatedAt.After(member.LastReadAt.Time)`
  abbrev pub is_read : Message → Option ℕ → Bool
  is_read m none = false
  is_read m (some t) = not (ltb t m.created_at)

  unfoldable pub mark_message_as_read : Bool → (now id u : ℕ) → Exec Error Tables ReadReceipt
  mark_message_as_read cached now id u = do
    row ← or_wrap get_message_failed (query fails (message_of id))
    msg ← found get_message_failed row
    m ← get_member msg.conversation_id u
    branch (msg.sender_id == u) (fail cannot_mark_own_message) (
        branch (is_read msg m.last_read_at) (fail already_read) do
          or_wrap mark_read_failed (write_last_read msg.conversation_id u msg.created_at)
          branch cached (ignore (invalidate_cache fails u msg.conversation_id)) (pure tt)
          pure record {
            message_id = id;
            conversation_id = msg.conversation_id;
            reader_id = u;
            read_at = now;
          })
