-- ===== src/Users/Halfway.antt =====
-- Where the counters and the rows part: a `Block` whose statements fail halfway.
use lesser.Common.{ℕ, ◌+◌, ◌≡◌, ◌≢◌, Bool, true, some, ◌==◌, arith}
use lesser.Db.{Store, ok, err, sql, with_transaction}
use lesser.Users.{User, Tables, block}
use lesser.Users.Statements.{
  contains, without, create_block, delete_follow, decrement_followers_count,
  decrement_following_count, update_user, active_user, block_type_of,
}
use lesser.Users.Service.{sever, block_body, block_user}
use lesser.Users.Counts.{IsConsistent, following_of, rows_of-contains, following_of-without}
use lesser.Users.Blocking.{severed}

-- Exactly the statement with this number fails.
abbrev pub only : ℕ → ℕ → Bool
only m n = n == m

module _ (a b : ℕ) (s : Store Tables) (u : User) (ne : a ≢ b)
    (there : active_user b s.tables ≡ some u) (old : contains a b s.tables.follows ≡ true) where
  -- The statements of the function that `Block` gives to `WithTransaction` do not run on the
  -- transaction: if the deletion of the follow relation, and only that statement, fails, `Block`
  -- returns the error, and the block that it has stored stays.
  pub block_user-not_atomic :
      let r = block_user (only (s.statements + 4)) a b block s in
      (r.0 ≡ err sql)
      × (block_type_of a b r.1.tables ≡ block)
      × (contains a b r.1.tables.follows ≡ true)
  unfolding block_user block_body sever with_transaction create_block block_type_of
  block_user-not_atomic = ground arith

  half_severed : Tables
  half_severed = decrement_followers_count b (delete_follow a b (create_block a b block s.tables))

  block_user-half_severed :
      let r = block_user (only (s.statements + 5)) a b block s in
      (r.0 ≡ ok tt) × (r.1.tables ≡ severed b a half_severed)
  unfolding block_user block_body sever with_transaction half_severed create_block delete_follow
      decrement_followers_count
  block_user-half_severed = ground arith

  half_severed-count :
      (w x : User)
      → IsConsistent s.tables
      → s.tables.users a ≡ some w
      → (severed b a half_severed).users a ≡ some x
      → x.following_count ≡ following_of a (severed b a half_severed).follows + 1
  unfolding half_severed create_block delete_follow decrement_followers_count
      decrement_following_count update_user
  half_severed-count w x v found e = ground (
    arith,
    v.following a w found,
    v.distinct a b,
    rows_of-contains a b s.tables.follows,
    following_of-without a b a s.tables.follows,
    following_of-without b a a (without a b s.tables.follows),
  )

  -- When only the update of the blocker's following counter fails, a `Block` of a user whom the
  -- blocker follows returns no error, and that counter is one more than the number of rows.
  pub block_user-counter_drifts :
      (w x : User)
      → IsConsistent s.tables
      → s.tables.users a ≡ some w
      → let r = block_user (only (s.statements + 5)) a b block s in
        (r.0 ≡ ok tt)
        × (r.1.tables.users a ≡ some x → x.following_count ≡ following_of a r.1.tables.follows + 1)
  block_user-counter_drifts w x v found =
      let (done, tables) = block_user-half_severed in
      (done, rw tables (half_severed-count w x v found))
