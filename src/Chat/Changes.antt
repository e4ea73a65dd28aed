-- ===== src/Chat/Changes.antt =====
-- What each operation of the chat service may have made of the tables, when no statement fails.
use lesser.Common.{
  ℕ, ◌≡◌, refl, sym, subst, Bool, true, false, ◌&&◌, Option, none, some, List, [], ◌∷◌, ◌==◌, arith,
  if◌then◌else◌, Option-cases, inl, inr,
}
use lesser.Db.{Store, ok, err, Exec, ◌>>◌, branch, exec, pure, Result}
use lesser.Db.Laws.{bind-after, statement-after, with_transaction-after}
use lesser.Chat.{Conversation, Member, member, Message, Tables, Error}
use lesser.Chat.Statements.{
  is_member_of, member_ids, unread_rows, is_private, message_of, insert_message, update_timestamp,
  insert_conversation, insert_member, update_last_read_at,
}
use lesser.Chat.Unread.{set_unread, cached_count, recover}
use lesser.Chat.Service.{
  CreateConversationRequest, SendMessageRequest, create_conversation, create_rows, create_new,
  create_or_get, validate_create, pair_of, get_private_conversation, add_rows, add_row,
  send_message, get_unread_count, mark_conversation_as_read, mark_message_as_read, add_member,
  increment_others,
}
use lesser.Chat.Cache.{never, IsCoherent}
use lesser.Chat.Runs.{find-absent, insert_member-IsCoherent}

increment_others-ok :
    (sender c : ℕ) (ids : List ℕ) (s : Store Tables)
    → (increment_others never sender c ids s).0 ≡ ok tt
increment_others-ok sender c [] s = refl
increment_others-ok sender c (x ∷ ids) s = grind (arith, increment_others-ok sender c ids)

module _ (P : Tables → Type 0) (s : Store Tables) where
  pub send_cases :
      (now fresh : ℕ) (r : SendMessageRequest)
      → let x : Message = record {
        id = fresh;
        conversation_id = r.conversation_id;
        sender_id = r.sender_id;
        type = r.message_type;
        content = r.content;
        is_deleted = false;
        created_at = now;
      } in
        P s.tables
        → ((k : ℕ) (p : List Message)
            → P
                (record (increment_others never r.sender_id r.conversation_id
                  (member_ids r.conversation_id s.tables.members)
                  (record {
                    tables = update_timestamp r.conversation_id now (insert_message x s.tables);
                    statements = k;
                  })).1.tables { published = p }))
        → P (send_message never true now fresh r s).1.tables
  unfolding send_message
  send_cases now fresh r v w = grind (
    arith,
    increment_others-ok r.sender_id r.conversation_id
        (member_ids r.conversation_id s.tables.members),
  )

  pub add_member_cases :
      (now c u by : ℕ)
      → P s.tables
      → (is_member_of c u s.tables ≡ false
          → P (
              insert_member
                record {
                  conversation_id = c;
                  user_id = u;
                  role = member;
                  joined_at = now;
                  last_read_at = none;
                }
                s.tables))
      → P (add_member never now c u by s).1.tables
  unfolding add_member
  add_member_cases now c u by v w = grind arith

  pub count_cases :
      (c u : ℕ)
      → P s.tables
      → (s.tables.unread u c ≡ none
          → P (set_unread u c (unread_rows c u s.tables.members s.tables.messages) s.tables))
      → P (get_unread_count never true c u s).1.tables
  unfolding get_unread_count cached_count
  count_cases c u v w = grind arith

  pub mark_conversation_cases :
      (now c u : ℕ)
      → P s.tables
      → P (set_unread u c 0 (update_last_read_at c u now s.tables))
      → P (mark_conversation_as_read never true now c u s).1.tables
  unfolding mark_conversation_as_read
  mark_conversation_cases now c u v w = let row = find-absent c u s.tables.members in grind arith

  pub mark_message_cases :
      (now id u : ℕ)
      → P s.tables
      → ((m : Message)
          → message_of id s.tables ≡ some m
          → P (record (update_last_read_at m.conversation_id u m.created_at s.tables) {
            unread = λ v d. if v == u && d == m.conversation_id then none else s.tables.unread v d;
          }))
      → P (mark_message_as_read never true now id u s).1.tables
  unfolding mark_message_as_read
  mark_message_cases now id u v w = elim (Option-cases (message_of id s.tables)) [
    | inl e ↦ rw (e) (grind arith)
    | inr (m, e) ↦
        let after = w m e in
        let row = find-absent m.conversation_id u s.tables.members in rw (e) (grind arith)
  ]

module _ (now : ℕ) where
  add_rows-IsCoherent :
      (c creator : ℕ) (us : List ℕ) (s : Store Tables)
      → IsCoherent now s.tables
      → IsCoherent now (add_rows never c creator now us s).1.tables
  add_rows-IsCoherent c creator [] s v = v
  add_rows-IsCoherent c creator (u ∷ us) s v =
      bind-after (λ t. IsCoherent now t.tables) (λ _. add_rows never c creator now us)
        (add_row never _) s
        (statement-after Error (IsCoherent now) (is_member_of c u s.tables) tt _ s v
          (λ e. insert_member-IsCoherent now _ s.tables e refl refl v))
        (λ _. add_rows-IsCoherent c creator us _ (
          statement-after Error (IsCoherent now) (is_member_of c u s.tables) tt _ s v
            (λ e. insert_member-IsCoherent now _ s.tables e refl refl v)))

  pub create_rows-IsCoherent :
      (x : Conversation) (us : List ℕ) (s : Store Tables)
      → x.created_at ≡ now
      → IsCoherent now s.tables
      → IsCoherent now (create_rows never x us s).1.tables
  create_rows-IsCoherent x us s e v =
      with_transaction-after never Error (IsCoherent now)
        (exec never (insert_conversation x) >> add_rows never x.id x.creator_id x.created_at us) s v
        (rw (e) (
          add_rows-IsCoherent x.id x.creator_id us _
            (record { once = v.once; reads = v.reads; sent = v.sent; exact = v.exact })))

validate_create-same :
    (r : CreateConversationRequest) (s : Store Tables) → (validate_create r s).1 ≡ s
validate_create-same r s = ground arith

-- A call that goes one of two ways.
module _ (P : Tables → Type 0) {A : Type 0} where
  branch-after :
      (b : Bool) (m n : Exec Error Tables A) (s : Store Tables)
      → P (m s).1.tables
      → P (n s).1.tables
      → P (branch b m n s).1.tables
  branch-after true m n s p q = p
  branch-after false m n s p q = q

  result-after :
      {B : Type 0} (r : Result Error A) (t : Store Tables) (f : A → Exec Error Tables B)
      (g : Exec Error Tables B)
      → ((a : A) → P (f a t).1.tables)
      → P (g t).1.tables
      → P (recover (λ _. (r, t)) f g t).1.tables
  result-after (ok a) t f g p q = p a
  result-after (err e) t f g p q = q

module _ (P : Tables → Type 0) (now fresh : ℕ) (r : CreateConversationRequest) where
  abbrev pub new_rows : Exec Error Tables (Unit {0})
  new_rows =
      create_rows never
        record {
          id = fresh;
          type = r.type;
          name = r.name;
          creator_id = r.creator_id;
          created_at = now;
          updated_at = now;
        }
        r.member_ids

  create_new_cases :
      (s : Store Tables) → P (new_rows s).1.tables → P (create_new never now fresh r s).1.tables
  create_new_cases s w = grind arith

  create_or_get_cases :
      (pair : Option (ℕ × ℕ)) (s : Store Tables)
      → P s.tables
      → ((k : ℕ) → P (new_rows (record { tables = s.tables; statements = k })).1.tables)
      → P (create_or_get never now fresh r pair s).1.tables
  create_or_get_cases none s v w = create_new_cases s (w s.statements)
  create_or_get_cases (some (a, b)) s v w =
      let search : Exec Error Tables (Conversation × List Member) =
        get_private_conversation never a b in
      let t = (search s).1 in
      let same : t.tables ≡ s.tables = ground arith in
      branch-after P (is_private r.type) (recover search pure (create_new never now fresh r))
        (create_new never now fresh r) s
        (result-after P (search s).0 t pure (create_new never now fresh r)
          (λ x. subst P (sym same) v)
          (create_new_cases t (
            subst (λ y. P (new_rows (record { tables = y; statements = t.statements })).1.tables)
              (sym same) (w t.statements))))
        (create_new_cases s (w s.statements))

  pub create_cases :
      (s : Store Tables)
      → P s.tables
      → ((k : ℕ) → P (new_rows (record { tables = s.tables; statements = k })).1.tables)
      → P (create_conversation never now fresh r s).1.tables
  unfolding create_conversation
  create_cases s v w =
      bind-after (λ t. P t.tables) (λ _. create_or_get never now fresh r (pair_of r.member_ids))
        (validate_create r) s (rw (validate_create-same r s) v)
        (λ _. rw (validate_create-same r s) (create_or_get_cases (pair_of r.member_ids) s v w))
