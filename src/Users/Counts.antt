-- ===== src/Users/Counts.antt =====
-- The counters of the users table against the rows of the follows table, statement by statement.
use lesser.Common.{
  ℕ, ◌+◌, ◌≤◌, ◌≡◌, ◌≢◌, refl, true, false, some, List, [], ◌∷◌, ◌==◌, if◌then◌else◌, count_by,
  arith, Option-cases, inl, inr,
}
use lesser.Users.{User, Tables}
use lesser.Users.Statements.{
  is_pair, contains, without, insert_follow, delete_follow, update_user, increment_following_count,
  increment_followers_count, decrement_following_count, decrement_followers_count,
}

-- How many users `a` follows, how many follow `b`, and how often the pair stands in the table.
abbrev pub following_of : ℕ → List (ℕ × ℕ) → ℕ
following_of a = count_by (λ f. f.0 == a)

abbrev pub followers_of : ℕ → List (ℕ × ℕ) → ℕ
followers_of b = count_by (λ f. f.1 == b)

abbrev pub rows_of : ℕ → ℕ → List (ℕ × ℕ) → ℕ
rows_of a b = count_by (is_pair a b)

-- The counters tell the number of rows, and no pair has two rows.
pub record IsConsistent (t : Tables) : Type 0 where
  pub following :
      (id : ℕ) (u : User) → t.users id ≡ some u → u.following_count ≡ following_of id t.follows
  pub followers :
      (id : ℕ) (u : User) → t.users id ≡ some u → u.followers_count ≡ followers_of id t.follows
  pub distinct : (a b : ℕ) → rows_of a b t.follows ≤ 1

pub rows_of-contains :
    (a b : ℕ) (fs : List (ℕ × ℕ)) → (if contains a b fs then 1 else 0) ≤ rows_of a b fs
unfolding contains
rows_of-contains a b [] = ground arith
rows_of-contains a b (f ∷ fs) = ground (arith, rows_of-contains a b fs)

pub rows_of-absent : (a b : ℕ) (fs : List (ℕ × ℕ)) → contains a b fs ≡ false → rows_of a b fs ≡ 0
unfolding contains
rows_of-absent a b [] h = refl
rows_of-absent a b (f ∷ fs) h = ground (arith, rows_of-absent a b fs)

pub following_of-without :
    (a b c : ℕ) (fs : List (ℕ × ℕ))
    → following_of c (without a b fs) + (if c == a then rows_of a b fs else 0) ≡ following_of c fs
unfolding without
following_of-without a b c [] = ground arith
following_of-without a b c (f ∷ fs) = ground (arith, following_of-without a b c fs)

followers_of-without :
    (a b c : ℕ) (fs : List (ℕ × ℕ))
    → followers_of c (without a b fs) + (if c == b then rows_of a b fs else 0) ≡ followers_of c fs
unfolding without
followers_of-without a b c [] = ground arith
followers_of-without a b c (f ∷ fs) = ground (arith, followers_of-without a b c fs)

rows_of-without-le :
    (a b c d : ℕ) (fs : List (ℕ × ℕ)) → rows_of c d (without a b fs) ≤ rows_of c d fs
unfolding without
rows_of-without-le a b c d [] = ground arith
rows_of-without-le a b c d (f ∷ fs) = ground (arith, rows_of-without-le a b c d fs)

-- The tables after the transaction of `Follow`, and after that of `Unfollow`.
abbrev pub followed : ℕ → ℕ → Tables → Tables
followed a b t = increment_followers_count b (increment_following_count a (insert_follow a b t))

abbrev pub unfollowed : ℕ → ℕ → Tables → Tables
unfollowed a b t = decrement_followers_count b (decrement_following_count a (delete_follow a b t))

module _ (a b : ℕ) (t : Tables) (v : IsConsistent t) where
  pub followed-IsConsistent : a ≢ b → contains a b t.follows ≡ false → IsConsistent (followed a b t)
  unfolding insert_follow increment_following_count increment_followers_count update_user
  followed-IsConsistent ne new = record {
    following = λ id u e. elim (Option-cases (t.users id)) [
      | inl missing ↦ ground arith
      | inr (w, found) ↦ ground (arith, v.following id w found)
    ];
    followers = λ id u e. elim (Option-cases (t.users id)) [
      | inl missing ↦ ground arith
      | inr (w, found) ↦ ground (arith, v.followers id w found)
    ];
    distinct = λ c d. ground (arith, v.distinct c d, rows_of-absent a b t.follows);
  }

  pub unfollowed-IsConsistent :
      a ≢ b → contains a b t.follows ≡ true → IsConsistent (unfollowed a b t)
  unfolding delete_follow decrement_following_count decrement_followers_count update_user
  unfollowed-IsConsistent ne old = record {
    following = λ id u e. elim (Option-cases (t.users id)) [
      | inl missing ↦ ground arith
      | inr (w, found) ↦ ground (
        arith,
        v.following id w found,
        v.distinct a b,
        rows_of-contains a b t.follows,
        following_of-without a b id t.follows,
      )
    ];
    followers = λ id u e. elim (Option-cases (t.users id)) [
      | inl missing ↦ ground arith
      | inr (w, found) ↦ ground (
        arith,
        v.followers id w found,
        v.distinct a b,
        rows_of-contains a b t.follows,
        followers_of-without a b id t.follows,
      )
    ];
    distinct = λ c d. omega (arith, v.distinct c d, rows_of-without-le a b c d t.follows);
  }
