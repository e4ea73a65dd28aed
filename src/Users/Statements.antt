-- ===== src/Users/Statements.antt =====
-- The SQL statements of service/user/internal/data_access, as functions on the tables.
use mathlib.Core.Option
use lesser.Common.{
  ℕ, ◌+◌, ◌-◌, Bool, true, false, ◌&&◌, Option, none, some, List, [], ◌∷◌, ◌==◌, if◌then◌else◌,
}
use lesser.Users.{User, FollowRequestStatus, BlockType, Tables}

abbrev pub is_pair : ℕ → ℕ → ℕ × ℕ → Bool
is_pair a b f = f.0 == a && f.1 == b

-- SELECT EXISTS(SELECT 1 FROM follows WHERE follower_id = $1 AND following_id = $2)
unfoldable pub contains : ℕ → ℕ → List (ℕ × ℕ) → Bool
contains a b [] = false
contains a b (f ∷ fs) = if is_pair a b f then true else contains a b fs

-- INSERT INTO follows … ON CONFLICT (follower_id, following_id) DO NOTHING
unfoldable pub insert_follow : ℕ → ℕ → Tables → Tables
insert_follow a b t =
    if contains a b t.follows then t else record t { follows = (a, b) ∷ t.follows }

unfoldable pub without : ℕ → ℕ → List (ℕ × ℕ) → List (ℕ × ℕ)
without a b [] = []
without a b (f ∷ fs) = if is_pair a b f then without a b fs else f ∷ without a b fs

-- DELETE FROM follows WHERE follower_id = $1 AND following_id = $2
unfoldable pub delete_follow : ℕ → ℕ → Tables → Tables
delete_follow a b t = record t { follows = without a b t.follows }

-- UPDATE users SET … WHERE id = $1
unfoldable pub update_user : ℕ → (User → User) → Tables → Tables
update_user id f t = record t {
  users = λ k. if k == id then Option.map f (t.users k) else t.users k;
}

unfoldable pub increment_following_count : ℕ → Tables → Tables
increment_following_count id =
    update_user id (λ u. record u { following_count = u.following_count + 1 })

unfoldable pub increment_followers_count : ℕ → Tables → Tables
increment_followers_count id =
    update_user id (λ u. record u { followers_count = u.followers_count + 1 })

-- GREATEST(following_count - 1, 0): the subtraction of naturals.
unfoldable pub decrement_following_count : ℕ → Tables → Tables
decrement_following_count id =
    update_user id (λ u. record u { following_count = u.following_count - 1 })

unfoldable pub decrement_followers_count : ℕ → Tables → Tables
decrement_followers_count id =
    update_user id (λ u. record u { followers_count = u.followers_count - 1 })

-- SELECT … FROM users WHERE id = $1 AND is_active = true
unfoldable pub active_user : ℕ → Tables → Option User
active_user id t = elim (t.users id) [ none ↦ none | some u ↦ if u.is_active then some u else none ]

-- UPDATE users SET display_name, avatar_url, bio, location, website, is_private WHERE id
unfoldable pub update_profile_row : ℕ → User → Tables → Tables
unfolding update_user
update_profile_row id u = update_user id (λ old. record old {
  display_name = u.display_name;
  avatar_url = u.avatar_url;
  bio = u.bio;
  location = u.location;
  website = u.website;
  is_private = u.is_private;
})

abbrev pub set_at {ℓ} : {V : Type ℓ} → ℕ → ℕ → Option V → (ℕ → ℕ → Option V) → ℕ → ℕ → Option V
set_at a b v f i j = if i == a && j == b then v else f i j

-- INSERT INTO follow_requests … ON CONFLICT (requester_id, target_id) DO UPDATE SET status
unfoldable pub create_follow_request : ℕ → ℕ → Tables → Tables
create_follow_request a b t = record t {
  requests = set_at a b (some FollowRequestStatus.pending) t.requests;
}

unfoldable pub delete_follow_request : ℕ → ℕ → Tables → Tables
delete_follow_request a b t = record t { requests = set_at a b none t.requests }

-- INSERT INTO blocks … ON CONFLICT (blocker_id, blocked_id) DO UPDATE SET block_type
unfoldable pub create_block : ℕ → ℕ → BlockType → Tables → Tables
create_block a b k t = record t { blocks = set_at a b (some k) t.blocks }

unfoldable pub delete_block : ℕ → ℕ → Tables → Tables
delete_block a b t = record t { blocks = set_at a b none t.blocks }

-- UPDATE blocks SET block_type WHERE blocker_id AND blocked_id: no row, no change.
unfoldable pub update_block_type : ℕ → ℕ → BlockType → Tables → Tables
update_block_type a b k t = record t {
  blocks = set_at a b (Option.map (λ _. k) (t.blocks a b)) t.blocks;
}

-- `GetBlockType`: a missing row reads as unspecified.
unfoldable pub block_type_of : ℕ → ℕ → Tables → BlockType
block_type_of a b t = elim (t.blocks a b) [ none ↦ BlockType.unspecified | some k ↦ k ]
