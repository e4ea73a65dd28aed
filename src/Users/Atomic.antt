-- ===== src/Users/Atomic.antt =====
-- Follow and Unfollow leave nothing half done.
use lesser.Common.{
  ℕ, suc, ◌≡◌, refl, ap, Bool, true, false, arith, inl, inr, Option-cases, ◌==◌, if◌then◌else◌,
}
use lesser.Db.{
  Store, Failure, ok, err, Exec, ◌>>=◌, ◌>>◌, pure, fail, branch, query, exec, ignore, tx,
  with_transaction,
}
use lesser.Db.Laws.{with_transaction-atomic, Result-cases}
use lesser.Users.{User, Tables, Error, cannot_follow_self, follow_blocked}
use lesser.Users.Service.{
  follow, unfollow, add_follow, drop_follow, get_by_id, publish_user_followed, hides,
}
use lesser.Users.Statements.{
  contains, block_type_of, active_user, create_follow_request, delete_follow_request,
}

-- A call that returns an error has left the tables as they were.
abbrev IsAtomic : {A : Type 0} → Exec Error Tables A → Type 0
IsAtomic m = (s : Store Tables) (e : Failure Error) → (m s).0 ≡ err e → (m s).1.tables ≡ s.tables

branch-IsAtomic :
    {A : Type 0} (b : Bool) (m n : Exec Error Tables A)
    → IsAtomic m
    → IsAtomic n
    → IsAtomic (branch b m n)
branch-IsAtomic true m n v w = v
branch-IsAtomic false m n v w = w

module _ (fails : ℕ → Bool) where
  query-IsAtomic :
      {A B : Type 0} (f : Tables → A) (k : A → Exec Error Tables B)
      → ((a : A) → IsAtomic (k a))
      → IsAtomic (query fails f >>= k)
  query-IsAtomic f k all s e h =
      let rest = all (f s.tables) (record s { statements = suc s.statements }) e in
      ground (arith, h, rest)

  exec-IsAtomic : (f : Tables → Tables) → IsAtomic (exec fails f)
  exec-IsAtomic f s e h = ground (arith, h)

  ignore-IsAtomic : (m : Exec Error Tables (Unit {0})) → IsAtomic (ignore m)
  ignore-IsAtomic m s e h = cc h

  transaction-IsAtomic :
      (body : Exec Error Tables (Unit {0})) → IsAtomic (with_transaction fails tx body)
  transaction-IsAtomic body s e h =
      with_transaction-atomic fails body s (with_transaction fails tx body s).1 e
        (ap (λ r. (r, (with_transaction fails tx body s).1)) h)

  -- What runs after a call and cannot fail.
  then-IsAtomic :
      (m k : Exec Error Tables (Unit {0}))
      → IsAtomic m
      → ((s : Store Tables) → (k s).0 ≡ ok tt)
      → IsAtomic (m >> k)
  then-IsAtomic m k v done s e h = elim (Result-cases (m s).0) [
    | inl (a, fine) ↦ ground (arith, h, fine, done (m s).1)
    | inr (f, failed) ↦ ground (arith, h, failed, v s f failed)
  ]

  get_by_id-IsAtomic :
      (id : ℕ) (k : User → Exec Error Tables (Unit {0}))
      → ((u : User) → IsAtomic (k u))
      → IsAtomic (get_by_id fails id >>= k)
  get_by_id-IsAtomic id k all s e h = elim (Option-cases (active_user id s.tables)) [
    | inl missing ↦ ground (arith, h, missing)
    | inr (u, there) ↦
        let rest = all u (record s { statements = suc s.statements }) e in
        ground (arith, h, there, rest)
  ]

  -- What `follow` does when it knows the target, the block, and the relation.
  abbrev when_new : Bool → ℕ → ℕ → User → Exec Error Tables (Unit {0})
  when_new has_publisher a b target =
      branch target.is_private (exec fails (create_follow_request a b)) (
        with_transaction fails tx (add_follow fails a b) >> publish_user_followed has_publisher a b)

  abbrev when_visible : Bool → ℕ → ℕ → User → Exec Error Tables (Unit {0})
  when_visible has_publisher a b target = query fails (λ t. contains a b t.follows) >>= λ already.
      branch already (pure tt) (when_new has_publisher a b target)

  abbrev when_found : Bool → ℕ → ℕ → User → Exec Error Tables (Unit {0})
  when_found has_publisher a b target = query fails (block_type_of b a) >>= λ blocked.
      branch (hides blocked) (fail follow_blocked) (when_visible has_publisher a b target)

  when_new-IsAtomic :
      (has_publisher : Bool) (a b : ℕ) (u : User) → IsAtomic (when_new has_publisher a b u)
  unfolding publish_user_followed
  when_new-IsAtomic has_publisher a b u =
      branch-IsAtomic u.is_private (exec fails (create_follow_request a b))
        (with_transaction fails tx (add_follow fails a b)
          >> publish_user_followed has_publisher a b)
        (exec-IsAtomic (create_follow_request a b))
        (then-IsAtomic (with_transaction fails tx (add_follow fails a b))
          (publish_user_followed has_publisher a b) (transaction-IsAtomic (add_follow fails a b))
          (λ s. refl))

  when_visible-IsAtomic :
      (has_publisher : Bool) (a b : ℕ) (u : User) → IsAtomic (when_visible has_publisher a b u)
  when_visible-IsAtomic has_publisher a b u =
      query-IsAtomic (λ t. contains a b t.follows)
        (λ already. branch already (pure tt) (when_new has_publisher a b u))
        λ already.
          branch-IsAtomic already (pure tt) (when_new has_publisher a b u) (λ s e h. refl)
            (when_new-IsAtomic has_publisher a b u)

  when_found-IsAtomic :
      (has_publisher : Bool) (a b : ℕ) (u : User) → IsAtomic (when_found has_publisher a b u)
  when_found-IsAtomic has_publisher a b u =
      query-IsAtomic (block_type_of b a)
        (λ blocked. branch (hides blocked) (fail follow_blocked) (when_visible has_publisher a b u))
        λ blocked.
          branch-IsAtomic (hides blocked) (fail follow_blocked) (when_visible has_publisher a b u)
            (λ s e h. refl) (when_visible-IsAtomic has_publisher a b u)

  follow-IsAtomic : (has_publisher : Bool) (a b : ℕ) → IsAtomic (follow fails has_publisher a b)
  unfolding follow publish_user_followed
  follow-IsAtomic has_publisher a b =
      branch-IsAtomic (a == b) (fail cannot_follow_self)
        (get_by_id fails b >>= when_found has_publisher a b) (λ s e h. refl)
        (get_by_id-IsAtomic b (when_found has_publisher a b)
          (when_found-IsAtomic has_publisher a b))

  unfollow-IsAtomic : (a b : ℕ) → IsAtomic (unfollow fails a b)
  unfolding unfollow
  unfollow-IsAtomic a b =
      query-IsAtomic (λ t. contains a b t.follows)
        (λ already.
          branch already (with_transaction fails tx (drop_follow fails a b))
            (ignore (exec fails (delete_follow_request a b))))
        λ already.
          branch-IsAtomic already (with_transaction fails tx (drop_follow fails a b))
            (ignore (exec fails (delete_follow_request a b)))
            (transaction-IsAtomic (drop_follow fails a b))
            (ignore-IsAtomic (exec fails (delete_follow_request a b)))

  -- Whatever statements fail, in the transaction or before it: a Follow that returns an error has left
  -- every table as it was, and so has an Unfollow that does.
  pub follow-atomic :
      (is_follow has_publisher : Bool) (a b : ℕ) (s : Store Tables) (e : Failure Error)
      → ((if is_follow then follow fails has_publisher a b else unfollow fails a b) s).0 ≡ err e
      → ((if is_follow then follow fails has_publisher a b else unfollow fails a b) s).1.tables
        ≡ s.tables
  follow-atomic true has_publisher a b = follow-IsAtomic has_publisher a b
  follow-atomic false has_publisher a b = unfollow-IsAtomic a b
