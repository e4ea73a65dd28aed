-- ===== src/Users/Tests.antt =====
-- Runs of the user service at fixed tables, and the theorems at such tables.
use lesser.Common.{ℕ, ◌≡◌, refl, Bool, true, false, none, some, [], ◌∷◌, ◌==◌, arith, if◌then◌else◌}
use lesser.Db.{Store, ok, err, reject, sql, with_transaction}
use lesser.Users.{
  User, Tables, BlockType, unspecified, hide_me, block, follow_blocked, RelationshipStatus,
}
use lesser.Users.Statements.{
  insert_follow, update_profile_row, increment_following_count, increment_followers_count,
  update_user, create_block, delete_follow, without, decrement_following_count,
  decrement_followers_count, contains, active_user, block_type_of,
}
use lesser.Users.Service.{follow, unfollow, block_user, get_relationship, sever, block_body}
use lesser.Users.Counts.{IsConsistent}
use lesser.Users.Steps.{
  Reach, here, next, follow_step, unfollow_step, block_step, Reach-IsConsistent,
}
use lesser.Users.Atomic.{follow-atomic}
use lesser.Users.Blocking.{never, block_user-severs}
use lesser.Users.Halfway.{only}
use lesser.Users.Profile.{Updates, updated, update_profile}

abbrev user : ℕ → ℕ → User
user followers following = record {
  display_name = [];
  avatar_url = [];
  bio = [];
  location = [];
  website = [];
  is_private = false;
  is_active = true;
  followers_count = followers;
  following_count = following;
}

-- User 1 follows user 2 and user 3, user 3 hides from user 4.
abbrev tables : Tables
tables = record {
  users = λ k.
      if k == 1
      then some (user 0 2)
      else if k == 2
      then some (user 1 0)
      else if k == 3
      then some (user 1 0)
      else if k == 4
      then some (user 0 0)
      else none;
  follows = (1, 2) ∷ (1, 3) ∷ [];
  requests = λ _ _. none;
  blocks = λ i j. if i == 3 then (if j == 4 then some hide_me else none) else none;
  published = [];
}

abbrev start : Store Tables
start = record { tables = tables; statements = 0 }

tables-IsConsistent : IsConsistent tables
tables-IsConsistent = record {
  following = λ id u e. ground arith;
  followers = λ id u e. ground arith;
  distinct = λ a b. ground arith;
}

-- User 4's follow of user 2 goes through, of user 3 it is refused.
follow-adds : (follow never true 4 2 start).1.tables.follows ≡ (4, 2) ∷ (1, 2) ∷ (1, 3) ∷ []
unfolding follow with_transaction active_user block_type_of contains insert_follow
    increment_following_count increment_followers_count update_user
follow-adds = refl

follow-runs : (follow never true 4 2 start).0 ≡ ok tt
unfolding follow with_transaction active_user block_type_of contains
follow-runs = refl

follow-hidden : (follow never true 4 3 start).0 ≡ err (reject follow_blocked)
unfolding follow with_transaction active_user block_type_of contains
follow-hidden = refl

follow-fails : (follow (only 6) true 4 2 start).0 ≡ err sql
unfolding follow with_transaction active_user block_type_of contains
follow-fails = refl

follow-atomic_example : (follow (only 6) true 4 2 start).1.tables ≡ start.tables
follow-atomic_example = follow-atomic (only 6) true true 4 2 start sql follow-fails

block_user-runs : (block_user never 1 2 block start).0 ≡ ok tt
unfolding block_user block_body sever with_transaction active_user contains create_block
    delete_follow without decrement_following_count decrement_followers_count update_user
block_user-runs = refl

block_user-severs_example :
    let t = (block_user never 1 2 block start).1.tables in
    (contains 1 2 t.follows ≡ false)
    × (contains 2 1 t.follows ≡ false)
    × (block_type_of 1 2 t ≡ block)
block_user-severs_example = block_user-severs 1 2 start block_user-runs

abbrev told : Bool → Bool → BlockType → BlockType → RelationshipStatus
told following followed_by mine theirs = record {
  is_following = following;
  is_followed_by = followed_by;
  is_mutual = false;
  is_blocking = false;
  is_blocked_by = false;
  is_muting = false;
  is_hiding_from = false;
  my_block_type = mine;
  their_block_type = theirs;
}

get_relationship-runs :
    (get_relationship never 1 2 start).0 ≡ ok (told true false unspecified unspecified)
unfolding get_relationship contains block_type_of
get_relationship-runs = refl

abbrev hide_profile : Updates
hide_profile = record {
  display_name = some [];
  avatar_url = none;
  bio = some (104 ∷ []);
  location = none;
  website = none;
  is_private = some true;
}

abbrev hidden : User
hidden = record (user 0 2) { bio = 104 ∷ []; is_private = true }

update_profile-hidden : (update_profile never 1 hide_profile start).0 ≡ ok hidden
unfolding update_profile updated update_profile_row update_user active_user
update_profile-hidden = refl

abbrev relations_run :
    Reach start
      (block_user never 2 1 block (unfollow (only 3) 1 3 (follow never true 4 2 start).1).1).1
relations_run =
    next
      (next (next here (follow_step never true 4 2 start))
        (unfollow_step (only 3) 1 3 (follow never true 4 2 start).1 (λ e. omega arith)))
      (block_step 2 1 block (unfollow (only 3) 1 3 (follow never true 4 2 start).1).1)

Reach-IsConsistent_example :
    IsConsistent
      (block_user never 2 1 block
        (unfollow (only 3) 1 3 (follow never true 4 2 start).1).1).1.tables
Reach-IsConsistent_example = Reach-IsConsistent relations_run tables-IsConsistent
