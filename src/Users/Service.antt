-- ===== src/Users/Service.antt =====
-- The operations of service/user/internal/logic/user_service.go, on a database whose statements may
-- fail.
use lesser.Common.{
  ℕ, Bool, true, false, ◌&&◌, ◌||◌, not, Option, none, some, ◌∷◌, ◌==◌, if◌then◌else◌,
}
use lesser.Db.{
  ok, err, Exec, pure, fail, ◌>>=◌, ◌>>◌, ignore, branch, tx, pool, query, exec, with_transaction,
}
use lesser.Users.{
  User, BlockType, unspecified, hide_posts, hide_me, block, same_type, Tables, Error,
  user_not_found, cannot_follow_self, follow_blocked, cannot_block_self, invalid_block_type,
  RelationshipStatus,
}
use lesser.Users.Statements.{
  contains, insert_follow, delete_follow, increment_following_count, increment_followers_count,
  decrement_following_count, decrement_followers_count, active_user, create_follow_request,
  delete_follow_request, create_block, delete_block, update_block_type, block_type_of,
}

-- `blockType == BlockTypeBlock || blockType == BlockTypeHideMe`
abbrev pub hides : BlockType → Bool
hides k = same_type k block || same_type k hide_me

-- Handing the event to the publisher, which returns nothing, if there is one.
unfoldable pub publish_user_followed : Bool → ℕ → ℕ → Exec Error Tables (Unit {0})
publish_user_followed has_publisher a b s = (
  ok tt,
  record s {
    tables =
        if has_publisher
        then record s.tables { published = (a, b) ∷ s.tables.published }
        else s.tables;
  },
)

-- What a call that drops the error reads: `exists, _ := …`.
abbrev pub or_false : Exec Error Tables Bool → Exec Error Tables Bool
or_false m s = let (r, t) = m s in (ok (elim r [ ok b ↦ b | err _ ↦ false ]), t)

-- `if b { … }` at the end of which the call goes on.
abbrev pub when : Bool → Exec Error Tables (Unit {0}) → Exec Error Tables (Unit {0})
when b m = branch b m (pure tt)

module _ (fails : ℕ → Bool) where
  abbrev pub found : Option User → Exec Error Tables User
  found none = fail user_not_found
  found (some u) = pure u

  abbrev pub get_by_id : ℕ → Exec Error Tables User
  get_by_id id = query fails (active_user id) >>= found

  abbrev pub exists : ℕ → ℕ → Exec Error Tables Bool
  exists a b = query fails (λ t. contains a b t.follows)

  -- The three statements of the transaction.
  abbrev pub add_follow : ℕ → ℕ → Exec Error Tables (Unit {0})
  add_follow a b = do
    exec fails (insert_follow a b)
    exec fails (increment_following_count a)
    exec fails (increment_followers_count b)

  unfoldable pub follow : Bool → ℕ → ℕ → Exec Error Tables (Unit {0})
  unfolding publish_user_followed
  follow has_publisher a b = branch (a == b) (fail cannot_follow_self) do
    target ← get_by_id b
    blocked ← query fails (block_type_of b a)
    branch (hides blocked) (fail follow_blocked) do
      already ← exists a b
      branch already (pure tt) (
          branch target.is_private (exec fails (create_follow_request a b))
            do with_transaction fails tx (add_follow a b); publish_user_followed has_publisher a b)

  abbrev pub drop_follow : ℕ → ℕ → Exec Error Tables (Unit {0})
  drop_follow a b = do
    exec fails (delete_follow a b)
    exec fails (decrement_following_count a)
    exec fails (decrement_followers_count b)

  unfoldable pub unfollow : ℕ → ℕ → Exec Error Tables (Unit {0})
  unfollow a b = do
    already ← exists a b
    branch already (with_transaction fails tx (drop_follow a b))
        (ignore (exec fails (delete_follow_request a b)))

  -- One half of a block: what `a` follows of `b`. The counters' errors are dropped.
  unfoldable pub sever : ℕ → ℕ → Exec Error Tables (Unit {0})
  sever a b = do
    already ← or_false (exists a b)
    when already do
      exec fails (delete_follow a b)
      ignore (exec fails (decrement_following_count a))
      ignore (exec fails (decrement_followers_count b))

  unfoldable pub block_body : ℕ → ℕ → BlockType → Exec Error Tables (Unit {0})
  block_body a b k = do
    exec fails (create_block a b k)
    when (same_type k block) do sever a b; sever b a

  -- The statements of the body run on the service's own connections, not on the transaction's.
  unfoldable pub block_user : ℕ → ℕ → BlockType → Exec Error Tables (Unit {0})
  block_user a b k = branch (a == b) (fail cannot_block_self) (
      branch (same_type k unspecified) (fail invalid_block_type)
        do get_by_id b; with_transaction fails pool (block_body a b k))

  abbrev pub unblock_from : ℕ → ℕ → BlockType → Option BlockType → Exec Error Tables (Unit {0})
  unblock_from a b k none = pure tt
  unblock_from a b k (some current) = branch (same_type k block) (exec fails (delete_block a b)) (
      branch (same_type current block)
        (exec fails
          (update_block_type a b (if same_type k hide_posts then hide_me else hide_posts)))
        (branch (same_type current k) (exec fails (delete_block a b)) (pure tt)))

  unfoldable pub unblock : ℕ → ℕ → BlockType → Exec Error Tables (Unit {0})
  unblock a b k = query fails (λ t. t.blocks a b) >>= unblock_from a b k

  unfoldable pub get_relationship : ℕ → ℕ → Exec Error Tables RelationshipStatus
  get_relationship a b = do
    is_following ← exists a b
    is_followed_by ← exists b a
    mine ← query fails (block_type_of a b)
    theirs ← query fails (block_type_of b a)
    pure (record {
      is_following = is_following;
      is_followed_by = is_followed_by;
      is_mutual = is_following && is_followed_by;
      is_blocking = not (same_type mine unspecified);
      is_blocked_by = not (same_type theirs unspecified);
      is_muting = same_type mine hide_posts || same_type mine block;
      is_hiding_from = same_type mine hide_me || same_type mine block;
      my_block_type = mine;
      their_block_type = theirs;
    })

  -- Nobody to compare with, or the user looking at their own page: no relationship.
  unfoldable pub get_profile_with_relationship :
      ℕ → ℕ → Exec Error Tables (User × Option RelationshipStatus)
  unfolding get_relationship
  get_profile_with_relationship user viewer = do
    u ← get_by_id user
    branch (viewer == 0 || viewer == user) (pure (u, none))
        (get_relationship viewer user >>= λ r. pure (u, some r))

  -- BlockDataAccess.CanViewContent and CanSeeContent
  unfoldable pub can_view_content : ℕ → ℕ → Exec Error Tables Bool
  can_view_content viewer target =
      query fails (block_type_of target viewer) >>= λ k. branch (hides k) (pure false) (pure true)

  unfoldable pub can_see_content : ℕ → ℕ → Exec Error Tables Bool
  can_see_content viewer target = query fails (block_type_of viewer target) >>= λ k.
      branch (same_type k block || same_type k hide_posts) (pure false) (pure true)

-- RelationshipStatus.CanViewProfile and CanBeViewed
unfoldable pub can_view_profile : RelationshipStatus → Bool
can_view_profile r = not (hides r.their_block_type)

unfoldable pub can_be_viewed : RelationshipStatus → Bool
can_be_viewed r = not (hides r.my_block_type)
