-- ===== src/Users/Profile.antt =====
-- `UpdateProfile` of service/user/internal/logic/user_service.go. The map of the updates is a record:
-- a key that is missing is `none`.
use lesser.Common.{ℕ, ◌≡◌, Bool, Option, none, some, if◌then◌else◌, arith, Option-cases, inl, inr}
use lesser.Common.Text.{Text, is_empty}
use lesser.Db.{Store, ok, Exec, ◌>>=◌, ◌>>◌, exec}
use lesser.Users.{User, Tables, Error}
use lesser.Users.Statements.{update_user, update_profile_row, active_user}
use lesser.Users.Service.{get_by_id}
use lesser.Users.Counts.{IsConsistent}

pub record Updates : Type 0 where
  pub display_name : Option Text
  pub avatar_url : Option Text
  pub bio : Option Text
  pub location : Option Text
  pub website : Option Text
  pub is_private : Option Bool

abbrev given {ℓ} : {A : Type ℓ} → Option A → A → A
given none old = old
given (some x) old = x

-- The two fields that cannot be emptied.
abbrev given_text : Option Text → Text → Text
given_text none old = old
given_text (some x) old = if is_empty x then old else x

unfoldable pub updated : Updates → User → User
updated w u = record u {
  display_name = given_text w.display_name u.display_name;
  avatar_url = given_text w.avatar_url u.avatar_url;
  bio = given w.bio u.bio;
  location = given w.location u.location;
  website = given w.website u.website;
  is_private = given w.is_private u.is_private;
}

unfoldable pub update_profile : (ℕ → Bool) → ℕ → Updates → Exec Error Tables User
update_profile fails id w = do
  user ← get_by_id fails id
  exec fails (update_profile_row id (updated w user))
  get_by_id fails id

module _ (fails : ℕ → Bool) (id : ℕ) (w : Updates) (s : Store Tables) where
  -- An `UpdateProfile` that returns a user returns the one that was there with the updates applied,
  -- which it has stored: nothing else of the user has changed.
  pub update_profile-ok :
      (v : User)
      → (update_profile fails id w s).0 ≡ ok v
      → (u : User) × (active_user id s.tables ≡ some u)
        × (v ≡ updated w u)
        × ((update_profile fails id w s).1.tables.users id ≡ some v)
  unfolding update_profile updated update_profile_row update_user active_user
  update_profile-ok v h = elim (Option-cases (s.tables.users id)) [
    | inl missing ↦ ground arith
    | inr (u, found) ↦ (u, ground arith, ground arith, ground arith)
  ]

  -- `UpdateProfile` keeps the counters equal to the numbers of rows.
  pub update_profile-IsConsistent :
      IsConsistent s.tables → IsConsistent (update_profile fails id w s).1.tables
  unfolding update_profile update_profile_row update_user
  update_profile-IsConsistent v = record {
    following = λ i u e. elim (Option-cases (s.tables.users i)) [
      | inl missing ↦ ground arith
      | inr (x, found) ↦ ground (arith, v.following i x found)
    ];
    followers = λ i u e. elim (Option-cases (s.tables.users i)) [
      | inl missing ↦ ground arith
      | inr (x, found) ↦ ground (arith, v.followers i x found)
    ];
    distinct = λ a b. ground (arith, v.distinct a b);
  }
