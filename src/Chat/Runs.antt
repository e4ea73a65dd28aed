-- ===== src/Chat/Runs.antt =====
-- Runs of the chat service with its cache, when no statement fails.
use lesser.Common.{
  ℕ, ◌≤◌, ◌<◌, ◌≡◌, refl, sym, subst, ◌∙◌, true, false, ◌&&◌, Option, none, some, List, [], ◌∷◌,
  map, ◌==◌, All, any, count_by, count_by-absent, arith, Option-cases, Bool-cases, inl, inr,
}
use lesser.Chat.{Member, Message, Tables}
use lesser.Chat.Statements.{
  is_member_row, is_member_of, member_of, member_ids, read_until, is_unread, unread_rows, read_at,
  insert_member, insert_message, update_timestamp,
}
use lesser.Chat.Service.{increment_others}
use lesser.Chat.Cache.{
  never, IsCoherent, unread_rows-new, increment_others-settles, IsPending, count_by-member_ids,
}

All-later :
    {A : Type 0} (f : A → ℕ) (now later : ℕ)
    → now ≤ later
    → (xs : List A) → All (λ x. f x ≤ now) xs
    → All (λ x. f x ≤ later) xs
All-later f now later le [] v = v
All-later f now later le (x ∷ xs) (v, vs) = (omega arith, All-later f now later le xs vs)

pub later-IsCoherent :
    (now later : ℕ) (t : Tables) → now ≤ later → IsCoherent now t → IsCoherent later t
later-IsCoherent now later t le v = record {
  once = v.once;
  reads = All-later read_until now later le t.members v.reads;
  sent = All-later (λ m. m.created_at) now later le t.messages v.sent;
  exact = v.exact;
}

-- A time that no message passes leaves none unread.
none_unread :
    (c u until : ℕ) (msgs : List Message)
    → All (λ m. m.created_at ≤ until) msgs
    → count_by (is_unread c u until) msgs ≡ 0
none_unread c u until [] v = refl
none_unread c u until (m ∷ msgs) (v, vs) = ground (arith, v, none_unread c u until msgs vs)

pub find-absent :
    (c u : ℕ) (ms : List Member) → any (is_member_row c u) ms ≡ false → member_of c u ms ≡ none
find-absent c u [] h = refl
find-absent c u (m ∷ ms) h = ground (arith, find-absent c u ms)

absent :
    (m : Member) (t : Tables) (c u : ℕ)
    → is_member_of m.conversation_id m.user_id t ≡ false
    → is_member_row c u m ≡ true
    → any (is_member_row c u) t.members ≡ false
absent m t c u new e =
    let same_talk : m.conversation_id ≡ c = ground arith in
    let same_user : m.user_id ≡ u = ground arith in rw (sym same_talk) (rw (sym same_user) new)

-- A user joins.
pub insert_member-IsCoherent :
    (now : ℕ) (m : Member) (t : Tables)
    → is_member_of m.conversation_id m.user_id t ≡ false
    → m.last_read_at ≡ none
    → m.joined_at ≡ now
    → IsCoherent now t
    → IsCoherent now (insert_member m t)
insert_member-IsCoherent now m t new unread joined v = record {
  once = λ c u. elim (Bool-cases (is_member_row c u m)) [
    | inl e ↦
        ground (arith, e, count_by-absent (is_member_row c u) t.members (absent m t c u new e))
    | inr e ↦ ground (arith, e, v.once c u)
  ];
  reads = (ground (arith, unread, joined), v.reads);
  sent = v.sent;
  exact = λ u c n h. elim (Bool-cases (is_member_row c u m)) [
    | inl e ↦
        let gone = find-absent c u t.members (absent m t c u new e) in
        let none_new = none_unread c u now t.messages v.sent in
        let before = v.exact u c n h in ground (arith, e, gone, none_new, before, unread, joined)
    | inr e ↦ ground (arith, e, v.exact u c n h)
  ];
}

-- A user reads.
read_at-once :
    (c u until d w : ℕ) (ms : List Member)
    → count_by (is_member_row d w) (map (read_at c u until) ms) ≡ count_by (is_member_row d w) ms
read_at-once c u until d w [] = refl
read_at-once c u until d w (m ∷ ms) = ground (arith, read_at-once c u until d w ms)

read_at-reads :
    (c u until now : ℕ) (ms : List Member)
    → until ≤ now
    → All (λ m. read_until m ≤ now) ms
    → All (λ m. read_until m ≤ now) (map (read_at c u until) ms)
read_at-reads c u until now [] le v = v
read_at-reads c u until now (m ∷ ms) le (v, vs) =
    (ground (arith, v), read_at-reads c u until now ms le vs)

read_at-other :
    (c u until d w : ℕ) (ms : List Member)
    → (w == u && d == c) ≡ false
    → member_of d w (map (read_at c u until) ms) ≡ member_of d w ms
read_at-other c u until d w [] ne = refl
read_at-other c u until d w (m ∷ ms) ne = ground (arith, read_at-other c u until d w ms ne)

read_at-own :
    (c u until : ℕ) (ms : List Member) (m : Member)
    → member_of c u (map (read_at c u until) ms) ≡ some m
    → read_until m ≡ until
read_at-own c u until [] m h = ground arith
read_at-own c u until (x ∷ ms) m h = elim (Bool-cases (is_member_row c u x)) [
  | inl e ↦ ground (arith, h, e)
  | inr e ↦ read_at-own c u until ms m (ground (arith, h, e))
]

read_at-zero :
    (c u until : ℕ) (ms : List Member) (msgs : List Message)
    → All (λ m. m.created_at ≤ until) msgs
    → unread_rows c u (map (read_at c u until) ms) msgs ≡ 0
read_at-zero c u until ms msgs v =
    elim (Option-cases (member_of c u (map (read_at c u until) ms))) [
      | inl e ↦ ground (arith, e)
      | inr (m, e) ↦
          let last = read_at-own c u until ms m e in
          rw (unread_rows, e) (rw (last) (none_unread c u until msgs v))
    ]

-- A user has read a conversation up to a time, and the cache holds nothing for it, or 0 when that is
-- now.
pub read_at-IsCoherent :
    (c u until now : ℕ) (t : Tables) (cache : ℕ → ℕ → Option ℕ)
    → until ≤ now
    → ((w d n : ℕ) → (w == u && d == c) ≡ false → cache w d ≡ some n → t.unread w d ≡ some n)
    → ((n : ℕ) → cache u c ≡ some n → (n ≡ 0) × (until ≡ now))
    → IsCoherent now t
    → IsCoherent now (record t { members = map (read_at c u until) t.members; unread = cache })
read_at-IsCoherent c u until now t cache le others own v = record {
  once = λ d w. ground (arith, read_at-once c u until d w t.members, v.once d w);
  reads = read_at-reads c u until now t.members le v.reads;
  sent = v.sent;
  exact = λ w d n h. elim (Bool-cases (w == u && d == c)) [
    | inl e ↦
        let same_user : w ≡ u = ground arith in
        let same_talk : d ≡ c = ground arith in
        let zero = own n (
          subst (λ y. cache y c ≡ some n) same_user
            (subst (λ y. cache w y ≡ some n) same_talk h)) in
        rw (same_user) (
          rw (same_talk) (
            zero.0
            ∙ sym (
                read_at-zero c u until t.members t.messages
                  (subst (λ y. All (λ m. m.created_at ≤ y) t.messages) (sym zero.1) v.sent))))
    | inr e ↦
        rw (unread_rows, read_at-other c u until d w t.members e) (v.exact w d n (others w d n e h))
  ];
}

settled-IsCoherent :
    (now sender c : ℕ) (ms : List Member) (msgs : List Message) (t : Tables)
    → ((d u : ℕ) → count_by (is_member_row d u) ms ≤ 1)
    → All (λ m. read_until m ≤ now) ms
    → All (λ m. m.created_at ≤ now) msgs
    → IsPending sender c ms msgs [] t
    → IsCoherent now t
settled-IsCoherent now sender c ms msgs t one reads sent w = record {
  once = subst (λ y. (d u : ℕ) → count_by (is_member_row d u) y ≤ 1) (sym w.same_members) one;
  reads = subst (All (λ m. read_until m ≤ now)) (sym w.same_members) reads;
  sent = subst (All (λ m. m.created_at ≤ now)) (sym w.same_messages) sent;
  exact = λ u d n h. rw (w.same_members) (rw (w.same_messages) (ground (arith, w.near u d n h)));
}

-- A message is sent, and the other members are told.
pub sent-IsCoherent :
    (now : ℕ) (x : Message) (t : Tables) (k : ℕ)
    → x.is_deleted ≡ false
    → now < x.created_at
    → IsCoherent now t
    → IsCoherent x.created_at
        (increment_others never x.sender_id x.conversation_id
          (member_ids x.conversation_id t.members)
          (record {
            tables = update_timestamp x.conversation_id x.created_at (insert_message x t);
            statements = k;
          })).1.tables
sent-IsCoherent now x t k live later v =
    settled-IsCoherent x.created_at x.sender_id x.conversation_id t.members (x ∷ t.messages) _
      v.once (All-later read_until now x.created_at (omega arith) t.members v.reads)
      (omega arith, All-later (λ m. m.created_at) now x.created_at (omega arith) t.messages v.sent)
      (increment_others-settles x.sender_id x.conversation_id t.members (x ∷ t.messages)
        (member_ids x.conversation_id t.members) _
        (λ u.
          ground
            (arith, count_by-member_ids x.conversation_id u t.members, v.once x.conversation_id u))
        record {
          same_members = refl;
          same_messages = refl;
          near = λ u d n h.
              let new =
                unread_rows-new d u now t.members t.messages x live later v.reads (v.once d u) in
              let old = v.exact u d n h in sym (new ∙ ground (arith, old));
        })
