-- ===== src/Chat/Cache.antt =====
-- The cached counters against the rows, when no statement fails.
use lesser.Common.{
  ℕ, ◌+◌, ◌≤◌, ◌<◌, ◌≡◌, refl, subst, Bool, false, ◌&&◌, not, none, some, List, [], ◌∷◌, ◌==◌, All,
  count_by, arith, if◌then◌else◌, Option-cases, Bool-cases, inl, inr,
}
use lesser.Db.{Store}
use lesser.Chat.{Member, Message, Tables}
use lesser.Chat.Statements.{is_member_row, member_of, member_ids, read_until, unread_rows}
use lesser.Chat.Unread.{increment_unread_count, bumped}
use lesser.Chat.Service.{increment_others}

abbrev pub never : ℕ → Bool
never n = false

-- At the time `now`: a user is a member once, nothing has happened later, and a cached counter is the
-- count of the rows.
pub record IsCoherent (now : ℕ) (t : Tables) : Type 0 where
  pub once : (c u : ℕ) → count_by (is_member_row c u) t.members ≤ 1
  pub reads : All (λ m. read_until m ≤ now) t.members
  pub sent : All (λ m. m.created_at ≤ now) t.messages
  pub exact : (u c n : ℕ) → t.unread u c ≡ some n → n ≡ unread_rows c u t.members t.messages

-- How many of the members that a loop still has to tell are the user.
abbrev pub pending : (sender c : ℕ) → List ℕ → (u d : ℕ) → ℕ
pending sender c ids u d = if d == c && not (sender == u) then count_by (λ x. x == u) ids else 0

pub count_by-member_ids :
    (c u : ℕ) (ms : List Member)
    → count_by (λ x. x == u) (member_ids c ms) ≡ count_by (is_member_row c u) ms
count_by-member_ids c u [] = refl
count_by-member_ids c u (m ∷ ms) = ground (arith, count_by-member_ids c u ms)

pub member_of-none :
    (c u : ℕ) (ms : List Member) → member_of c u ms ≡ none → count_by (is_member_row c u) ms ≡ 0
member_of-none c u [] h = refl
member_of-none c u (m ∷ ms) h = ground (arith, member_of-none c u ms)

pub member_of-some :
    (c u : ℕ) (ms : List Member) (m : Member)
    → member_of c u ms ≡ some m
    → 1 ≤ count_by (is_member_row c u) ms
member_of-some c u [] m h = ground arith
member_of-some c u (x ∷ ms) m h = ground (arith, member_of-some c u ms m)

pub member_of-reads :
    (c u t : ℕ) (ms : List Member) (m : Member)
    → member_of c u ms ≡ some m
    → All (λ x. read_until x ≤ t) ms
    → read_until m ≤ t
member_of-reads c u t [] m h v = ground arith
member_of-reads c u t (x ∷ ms) m h (v, vs) = elim (Bool-cases (is_member_row c u x)) [
  | inl e ↦ ground (arith, h, v)
  | inr e ↦ member_of-reads c u t ms m (rw e at h) vs
]

pending-members :
    (sender c u d : ℕ) (ms : List Member)
    → pending sender c (member_ids c ms) u d
      ≡ (if d == c && not (sender == u) then count_by (is_member_row d u) ms else 0)
pending-members sender c u d ms = elim (Bool-cases (d == c)) [
  | inl e ↦
      let same : d ≡ c = ground arith in rw (same) (ground (arith, count_by-member_ids c u ms))
  | inr e ↦ ground arith
]

-- A new message that is later than every reading.
pub unread_rows-new :
    (d u now : ℕ) (ms : List Member) (msgs : List Message) (x : Message)
    → x.is_deleted ≡ false
    → now < x.created_at
    → All (λ m. read_until m ≤ now) ms
    → count_by (is_member_row d u) ms ≤ 1
    → unread_rows d u ms (x ∷ msgs)
      ≡ unread_rows d u ms msgs
        + pending x.sender_id x.conversation_id (member_ids x.conversation_id ms) u d
unread_rows-new d u now ms msgs x live later v one = elim (Option-cases (member_of d u ms)) [
  | inl e ↦
      ground (arith, pending-members x.sender_id x.conversation_id u d ms, member_of-none d u ms e)
  | inr (m, e) ↦
      let before = member_of-reads d u now ms m e v in
      let some_row = member_of-some d u ms m e in
      ground (arith, pending-members x.sender_id x.conversation_id u d ms, before, some_row)
]

module _ (sender c : ℕ) (ms : List Member) (msgs : List Message) where
  pub record IsPending (ids : List ℕ) (t : Tables) : Type 0 where
    pub same_members : t.members ≡ ms
    pub same_messages : t.messages ≡ msgs
    pub near :
        (u d n : ℕ) → t.unread u d ≡ some n → n + pending sender c ids u d ≡ unread_rows d u ms msgs

  own-IsPending : (ids : List ℕ) (t : Tables) → IsPending (sender ∷ ids) t → IsPending ids t
  own-IsPending ids t v = record {
    same_members = v.same_members;
    same_messages = v.same_messages;
    near = λ u d n h. ground (arith, v.near u d n h);
  }

  set-near :
      (x k : ℕ) (ids : List ℕ) (t : Tables)
      → IsPending (x ∷ ids) t
      → k + pending sender c ids x c ≡ unread_rows c x ms msgs
      → (u d n : ℕ) → (if u == x && d == c then some k else t.unread u d) ≡ some n
      → n + pending sender c ids u d ≡ unread_rows d u ms msgs
  set-near x k ids t v right u d n h = elim (Bool-cases (u == x && d == c)) [
    | inl e ↦
        let same_user : u ≡ x = ground arith in
        let same_talk : d ≡ c = ground arith in
        rw (same_user) (rw (same_talk) (ground (arith, h, e, right, same_user, same_talk)))
    | inr e ↦ ground (arith, v.near u d n)
  ]

  increment-IsPending :
      (x : ℕ) (ids : List ℕ) (s : Store Tables)
      → count_by (λ y. y == x) (x ∷ ids) ≤ 1
      → IsPending (x ∷ ids) s.tables
      → (x == sender) ≡ false
      → IsPending ids (increment_unread_count never x c s).1.tables
  unfolding increment_unread_count
  increment-IsPending x ids s one v other = elim (Option-cases (s.tables.unread x c)) [
    | inl e ↦ rw (e) record {
      same_members = v.same_members;
      same_messages = v.same_messages;
      near =
          set-near x (unread_rows c x s.tables.members s.tables.messages) ids s.tables v
            (rw (v.same_members) (rw (v.same_messages) (ground arith)));
    }
    | inr (k, e) ↦ rw (e) record {
      same_members = v.same_members;
      same_messages = v.same_messages;
      near =
          set-near x (bumped (s.tables.unread x c)) ids s.tables v
            (ground (arith, e, other, v.near x c k));
    }
  ]

  pub increment_others-settles :
      (ids : List ℕ) (s : Store Tables)
      → ((u : ℕ) → count_by (λ y. y == u) ids ≤ 1)
      → IsPending ids s.tables
      → IsPending [] (increment_others never sender c ids s).1.tables
  increment_others-settles [] s one v = v
  increment_others-settles (x ∷ ids) s one v =
      let fewer : (u : ℕ) → count_by (λ y. y == u) ids ≤ 1 = λ u. ground (arith, one u) in
      elim (Bool-cases (x == sender)) [
        | inl e ↦
            let same : x ≡ sender = ground arith in
            rw (e) (
              increment_others-settles ids s fewer
                (own-IsPending ids s.tables (subst (λ y. IsPending (y ∷ ids) s.tables) same v)))
        | inr e ↦ rw (e) (
            increment_others-settles ids (increment_unread_count never x c s).1 fewer
              (increment-IsPending x ids s (one x) v e))
      ]
