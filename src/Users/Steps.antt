-- ===== src/Users/Steps.antt =====
-- Runs of the operations on relations between users.
use lesser.Common.{ℕ, ◌≡◌, ◌≢◌, sym, subst, Bool, arith}
use lesser.Db.{Store}
use lesser.Users.{BlockType, Tables}
use lesser.Users.Statements.{delete_block, update_block_type}
use lesser.Users.Service.{follow, unfollow, block_user, unblock}
use lesser.Users.Counts.{IsConsistent}
use lesser.Users.Following.{follow-IsConsistent, unfollow-IsConsistent}
use lesser.Users.Blocking.{never, block_user-IsConsistent}

-- A call by whomever, with statements failing anywhere; but a call of Block runs without a failure,
-- and nobody calls Unfollow of himself.
pub data Step : Store Tables → Store Tables → Type 0 where
  follow_step :
      (fails : ℕ → Bool) (p : Bool) (a b : ℕ) (s : Store Tables) → Step s (follow fails p a b s).1
  unfollow_step :
      (fails : ℕ → Bool) (a b : ℕ) (s : Store Tables) → a ≢ b → Step s (unfollow fails a b s).1
  block_step : (a b : ℕ) (k : BlockType) (s : Store Tables) → Step s (block_user never a b k s).1
  unblock_step :
      (fails : ℕ → Bool) (a b : ℕ) (k : BlockType) (s : Store Tables)
      → Step s (unblock fails a b k s).1

pub data Reach (s : Store Tables) : Store Tables → Type 0 where
  here : Reach s s
  next : {t u : Store Tables} → Reach s t → Step t u → Reach s u

-- Unblocking touches neither the users nor the relations.
unblock-same :
    (fails : ℕ → Bool) (a b : ℕ) (k : BlockType) (s : Store Tables)
    → ((unblock fails a b k s).1.tables.users ≡ s.tables.users)
      × ((unblock fails a b k s).1.tables.follows ≡ s.tables.follows)
unfolding unblock delete_block update_block_type
unblock-same fails a b k s = ground arith

IsConsistent-of_same :
    (s t : Tables) → t.users ≡ s.users → t.follows ≡ s.follows → IsConsistent s → IsConsistent t
IsConsistent-of_same s t users follows v =
    let moved : IsConsistent (record t { users = s.users; follows = s.follows }) = record {
      following = v.following;
      followers = v.followers;
      distinct = v.distinct;
    } in
    let back : IsConsistent (record t { users = s.users }) =
      subst (λ f. IsConsistent (record t { users = s.users; follows = f })) (sym follows) moved in
    subst (λ u. IsConsistent (record t { users = u })) (sym users) back

Step-IsConsistent : {s t : Store Tables} → Step s t → IsConsistent s.tables → IsConsistent t.tables
Step-IsConsistent (follow_step fails p a b s) v = follow-IsConsistent fails a b s p v
Step-IsConsistent (unfollow_step fails a b s ne) v = unfollow-IsConsistent fails a b s ne v
Step-IsConsistent (block_step a b k s) v = block_user-IsConsistent a b k s v
Step-IsConsistent (unblock_step fails a b k s) v =
    let (users, follows) = unblock-same fails a b k s in
    IsConsistent-of_same s.tables (unblock fails a b k s).1.tables users follows v

-- Over any run of Follow, Unfollow, Block and Unblock in which statements of Follow, Unfollow and
-- Unblock fail anywhere, the calls of Block run without a failure, and nobody unfollows himself: if at
-- the start the two counters of every user are the numbers of his rows and no relation has two rows,
-- then so it is at the end.
pub Reach-IsConsistent :
    {s t : Store Tables} → Reach s t → IsConsistent s.tables → IsConsistent t.tables
Reach-IsConsistent here v = v
Reach-IsConsistent (next run step) v = Step-IsConsistent step (Reach-IsConsistent run v)
