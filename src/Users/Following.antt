-- ===== src/Users/Following.antt =====
-- `Follow` and `Unfollow`, with statements failing anywhere.
use lesser.Common.{
  ℕ, ◌≡◌, ◌≢◌, refl, Bool, true, false, none, some, List, [], ◌∷◌, if◌then◌else◌, arith, ◌⊎◌,
}
use lesser.Db.{Store, Failure, ok, err, with_transaction}
use lesser.Users.{Tables, Error, pending}
use lesser.Users.Statements.{
  contains, without, insert_follow, delete_follow, update_user, increment_following_count,
  increment_followers_count, decrement_following_count, decrement_followers_count,
  create_follow_request, delete_follow_request, active_user, block_type_of,
}
use lesser.Users.Service.{follow, unfollow, hides}
use lesser.Users.Counts.{
  IsConsistent, followed, unfollowed, followed-IsConsistent, unfollowed-IsConsistent,
}

abbrev published_to : Bool → ℕ → ℕ → Tables → Tables
published_to has_publisher a b t =
    if has_publisher then record t { published = (a, b) ∷ t.published } else t

contains-followed : (a b : ℕ) (t : Tables) → contains a b (followed a b t).follows ≡ true
unfolding contains insert_follow increment_following_count increment_followers_count update_user
contains-followed a b t = ground arith

requests-create_follow_request :
    (a b : ℕ) (t : Tables) → (create_follow_request a b t).requests a b ≡ some pending
unfolding create_follow_request
requests-create_follow_request a b t = ground arith

contains-without : (a b : ℕ) (fs : List (ℕ × ℕ)) → contains a b (without a b fs) ≡ false
unfolding contains without
contains-without a b [] = refl
contains-without a b (f ∷ fs) = ground (arith, contains-without a b fs)

-- Deleting one relation brings back no other.
pub contains-without_other :
    (a b c d : ℕ) (fs : List (ℕ × ℕ))
    → contains a b fs ≡ false
    → contains a b (without c d fs) ≡ false
unfolding contains without
contains-without_other a b c d [] h = refl
contains-without_other a b c d (f ∷ fs) h = ground (arith, contains-without_other a b c d fs)

pub contains-unfollowed : (a b : ℕ) (t : Tables) → contains a b (unfollowed a b t).follows ≡ false
unfolding delete_follow decrement_following_count decrement_followers_count update_user
contains-unfollowed a b t = contains-without a b t.follows

module _ (P : Tables → Type 0) (fails : ℕ → Bool) (a b : ℕ) (s : Store Tables) where
  -- What `Follow` can have done to the tables.
  follow_cases :
      (has_publisher : Bool)
      → P s.tables
      → P (create_follow_request a b s.tables)
      → (a ≢ b
          → contains a b s.tables.follows ≡ false
          → P (published_to has_publisher a b (followed a b s.tables)))
      → P (follow fails has_publisher a b s).1.tables
  unfolding follow with_transaction
  follow_cases has_publisher same requested new = ground arith

  unfollow_cases :
      P s.tables
      → P (delete_follow_request a b s.tables)
      → (contains a b s.tables.follows ≡ true → P (unfollowed a b s.tables))
      → P (unfollow fails a b s).1.tables
  unfolding unfollow with_transaction
  unfollow_cases same withdrawn gone = ground arith

IsConsistent-requested :
    (a b : ℕ) (t : Tables) → IsConsistent t → IsConsistent (create_follow_request a b t)
unfolding create_follow_request
IsConsistent-requested a b t v = record {
  following = v.following;
  followers = v.followers;
  distinct = v.distinct;
}

IsConsistent-withdrawn :
    (a b : ℕ) (t : Tables) → IsConsistent t → IsConsistent (delete_follow_request a b t)
unfolding delete_follow_request
IsConsistent-withdrawn a b t v = record {
  following = v.following;
  followers = v.followers;
  distinct = v.distinct;
}

IsConsistent-published :
    (p : Bool) (a b : ℕ) (t : Tables) → IsConsistent t → IsConsistent (published_to p a b t)
IsConsistent-published true a b t v = record {
  following = v.following;
  followers = v.followers;
  distinct = v.distinct;
}
IsConsistent-published false a b t v = v

module _ (fails : ℕ → Bool) (a b : ℕ) (s : Store Tables) where
  -- Whatever statements fail, `Follow` keeps the counters equal to the numbers of rows.
  pub follow-IsConsistent :
      (has_publisher : Bool)
      → IsConsistent s.tables
      → IsConsistent (follow fails has_publisher a b s).1.tables
  follow-IsConsistent has_publisher v =
      follow_cases IsConsistent fails a b s has_publisher v (IsConsistent-requested a b s.tables v)
        λ ne new.
          IsConsistent-published has_publisher a b (followed a b s.tables)
            (followed-IsConsistent a b s.tables v ne new)

  -- Whatever statements fail, `Unfollow` of two different users keeps the counters equal to the
  -- numbers of rows.
  pub unfollow-IsConsistent :
      a ≢ b → IsConsistent s.tables → IsConsistent (unfollow fails a b s).1.tables
  unfollow-IsConsistent ne v =
      unfollow_cases IsConsistent fails a b s v (IsConsistent-withdrawn a b s.tables v)
        (unfollowed-IsConsistent a b s.tables v ne)

  -- A `Follow` that returns an error has changed no table.
  pub follow-err_unchanged :
      (has_publisher : Bool) (e : Failure Error)
      → (follow fails has_publisher a b s).0 ≡ err e
      → (follow fails has_publisher a b s).1.tables ≡ s.tables
  unfolding follow with_transaction
  follow-err_unchanged has_publisher e h = ground arith

  -- A `Follow` that returns no error has left a follow relation or a pending request, and it returns
  -- none only if the followed user is active, another one, and does not hide from the follower.
  pub follow-ok :
      (has_publisher : Bool)
      → (follow fails has_publisher a b s).0 ≡ ok tt
      → let t = (follow fails has_publisher a b s).1.tables in
        (a ≢ b)
        × (active_user b s.tables ≢ none)
        × (hides (block_type_of b a s.tables) ≡ false)
        × ((contains a b t.follows ≡ true) ⊎ (t.requests a b ≡ some pending))
  unfolding follow with_transaction
  follow-ok has_publisher h =
      ground (arith, contains-followed a b s.tables, requests-create_follow_request a b s.tables)

  -- After an `Unfollow` that returns no error there is no follow relation.
  pub unfollow-ok :
      (unfollow fails a b s).0 ≡ ok tt
      → contains a b (unfollow fails a b s).1.tables.follows ≡ false
  unfolding unfollow with_transaction delete_follow_request
  unfollow-ok h = ground (arith, contains-unfollowed a b s.tables)
