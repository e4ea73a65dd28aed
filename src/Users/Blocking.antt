-- ===== src/Users/Blocking.antt =====
-- `Block` and `Unblock`.
use lesser.Common.{
  ℕ, suc, ◌≡◌, ◌≢◌, Bool, true, false, ◌&&◌, not, Option, none, some, if◌then◌else◌, arith, sym, ap,
  ◌∙◌, Bool-cases, inl, inr,
}
use lesser.Db.{Store, Failure, ok, err, with_transaction}
use lesser.Users.{BlockType, unspecified, hide_posts, hide_me, block, Tables, Error}
use lesser.Users.Statements.{
  contains, create_block, delete_block, update_block_type, delete_follow, decrement_following_count,
  decrement_followers_count, update_user, block_type_of,
}
use lesser.Users.Service.{follow, sever, block_body, block_user, unblock, hides}
use lesser.Users.Following.{contains-unfollowed, contains-without_other, follow-ok}
use lesser.Users.Counts.{IsConsistent, unfollowed, unfollowed-IsConsistent}

-- The two switches that a block consists of: not to see their posts, and not to be seen by them.
abbrev pub switches : Option BlockType → Bool × Bool
switches none = (false, false)
switches (some unspecified) = (false, false)
switches (some hide_posts) = (true, false)
switches (some hide_me) = (false, true)
switches (some block) = (true, true)

-- Turning off, in the first, what is on in the second.
abbrev pub turned_off : Bool × Bool → Bool × Bool → Bool × Bool
turned_off (p, q) (r, s) = (p && not r, q && not s)

module _ (fails : ℕ → Bool) (a b : ℕ) (s : Store Tables) where
  -- An `Unblock` that returns no error has turned off the switches of its type, and no others.
  pub unblock-turned_off :
      (k : BlockType)
      → k ≢ unspecified
      → s.tables.blocks a b ≢ some unspecified
      → (unblock fails a b k s).0 ≡ ok tt
      → switches ((unblock fails a b k s).1.tables.blocks a b)
        ≡ turned_off (switches (s.tables.blocks a b)) (switches (some k))
  unfolding unblock delete_block update_block_type
  unblock-turned_off k known stored h = ground arith

  pub unblock-err_unchanged :
      (k : BlockType) (e : Failure Error)
      → (unblock fails a b k s).0 ≡ err e
      → (unblock fails a b k s).1.tables ≡ s.tables
  unfolding unblock
  unblock-err_unchanged k e h = ground arith

block_type_of-create_block :
    (a b : ℕ) (k : BlockType) (t : Tables) → block_type_of a b (create_block a b k t) ≡ k
unfolding block_type_of create_block
block_type_of-create_block a b k t = ground arith

-- The tables after one half of a full block, if every statement succeeds.
abbrev pub severed : ℕ → ℕ → Tables → Tables
severed a b t = if contains a b t.follows then unfollowed a b t else t

-- No statement fails.
abbrev pub never : ℕ → Bool
never _ = false

create_block-IsConsistent :
    (a b : ℕ) (k : BlockType) (t : Tables) → IsConsistent t → IsConsistent (create_block a b k t)
unfolding create_block
create_block-IsConsistent a b k t v = record {
  following = v.following;
  followers = v.followers;
  distinct = v.distinct;
}

severed-IsConsistent :
    (a b : ℕ) (t : Tables) → a ≢ b → IsConsistent t → IsConsistent (severed a b t)
severed-IsConsistent a b t ne v = elim (Bool-cases (contains a b t.follows)) [
  | inl old ↦ rw old (unfollowed-IsConsistent a b t v ne old)
  | inr new ↦ rw new v
]

contains-severed : (a b : ℕ) (t : Tables) → contains a b (severed a b t).follows ≡ false
contains-severed a b t = ground (arith, contains-unfollowed a b t)

contains-severed_back :
    (a b : ℕ) (t : Tables)
    → contains a b t.follows ≡ false
    → contains a b (severed b a t).follows ≡ false
unfolding delete_follow decrement_following_count decrement_followers_count update_user
contains-severed_back a b t h = ground (arith, contains-without_other a b b a t.follows)

block_type_of-severed :
    (a b c d : ℕ) (t : Tables) → block_type_of c d (severed a b t) ≡ block_type_of c d t
unfolding delete_follow decrement_following_count decrement_followers_count update_user
    block_type_of
block_type_of-severed a b c d t = ground arith

module _ (a b : ℕ) (k : BlockType) (s : Store Tables) where
  -- What `Block` can have done to the tables, if every statement succeeds.
  block_user-never :
      (P : Tables → Type 0)
      → P s.tables
      → (a ≢ b → k ≡ block → P (severed b a (severed a b (create_block a b k s.tables))))
      → (a ≢ b → P (create_block a b k s.tables))
      → P (block_user never a b k s).1.tables
  unfolding block_user block_body sever with_transaction
  block_user-never P same full part = ground arith

  -- If every statement succeeds, `Block` keeps the counters equal to the numbers of rows.
  pub block_user-IsConsistent :
      IsConsistent s.tables → IsConsistent (block_user never a b k s).1.tables
  block_user-IsConsistent v =
      let blocked = create_block-IsConsistent a b k s.tables v in
      block_user-never IsConsistent v
        (λ ne _.
          severed-IsConsistent b a _ (λ e. ne (sym e)) (severed-IsConsistent a b _ ne blocked))
        (λ _. blocked)

block_user-tables :
    (a b : ℕ) (s : Store Tables)
    → (block_user never a b block s).0 ≡ ok tt
    → (block_user never a b block s).1.tables
      ≡ severed b a (severed a b (create_block a b block s.tables))
unfolding block_user block_body sever with_transaction
block_user-tables a b s h = ground arith

-- A `Block` of the type BLOCK that succeeds, with no statement failing, ends the follow relations both
-- ways.
pub block_user-severs :
    (a b : ℕ) (s : Store Tables)
    → (block_user never a b block s).0 ≡ ok tt
    → let t = (block_user never a b block s).1.tables in
      (contains a b t.follows ≡ false)
      × (contains b a t.follows ≡ false)
      × (block_type_of a b t ≡ block)
block_user-severs a b s h =
    let blocked = create_block a b block s.tables in
    rw (block_user-tables a b s h) (
      contains-severed_back a b (severed a b blocked) (contains-severed a b blocked),
      contains-severed b a (severed a b blocked),
      block_type_of-severed b a a b (severed a b blocked)
          ∙ block_type_of-severed a b a b blocked
          ∙ block_type_of-create_block a b block s.tables,
    )

sever-block_type :
    (fails : ℕ → Bool) (a b c d : ℕ) (s : Store Tables)
    → block_type_of c d (sever fails a b s).1.tables ≡ block_type_of c d s.tables
unfolding sever block_type_of delete_follow decrement_following_count decrement_followers_count
    update_user
sever-block_type fails a b c d s = ground arith

block_body-stored :
    (fails : ℕ → Bool) (a b : ℕ) (k : BlockType) (s : Store Tables)
    → (block_body fails a b k s).0 ≡ ok tt
    → block_type_of a b (block_body fails a b k s).1.tables ≡ k
unfolding block_body
block_body-stored fails a b k s h =
    let stored : Store Tables = record {
      tables = create_block a b k s.tables;
      statements = suc s.statements;
    } in
    ground (
      arith,
      block_type_of-create_block a b k s.tables,
      sever-block_type fails a b a b stored,
      sever-block_type fails b a a b (sever fails a b stored).1,
    )

-- Whatever fails, a `Block` that returns no error has stored its type.
pub block_user-stored :
    (fails : ℕ → Bool) (a b : ℕ) (k : BlockType) (s : Store Tables)
    → (block_user fails a b k s).0 ≡ ok tt
    → block_type_of a b (block_user fails a b k s).1.tables ≡ k
unfolding block_user with_transaction
block_user-stored fails a b k s h =
    ground (arith, block_body-stored fails a b k (record s { statements = suc (suc s.statements) }))

-- After a `Block` that returns no error, of a type that hides the blocker, a `Follow` of the blocker
-- by the blocked user returns an error, whatever statements fail in either call.
pub block_user-follow_refused :
    (fails later : ℕ → Bool) (has_publisher : Bool) (a b : ℕ) (k : BlockType) (s : Store Tables)
    → hides k ≡ true
    → (block_user fails a b k s).0 ≡ ok tt
    → (follow later has_publisher b a (block_user fails a b k s).1).0 ≢ ok tt
block_user-follow_refused fails later has_publisher a b k s hidden h back =
    let shown = (follow-ok later b a (block_user fails a b k s).1 has_publisher back).2 in
    cc (ap hides (block_user-stored fails a b k s h))
