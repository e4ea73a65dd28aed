-- ===== src/Db/Laws.antt =====
-- Transactions are atomic for what runs through them.
use lesser.Common.{ℕ, suc, ◌≡◌, ap, sym, Bool, ◌⊎◌, refl, inl, inr, Bool-cases}
use lesser.Db.{
  Store, Failure, Result, ok, err, Exec, ◌>>=◌, tx, commit, commit_if, statement, transact,
  with_transaction,
}

module _ {ℓ κ μ} (fails : ℕ → Bool) {E : Type ℓ} {S : Type κ} {A : Type μ} where
  commit-atomic :
      (before : S) (r : Result E A) (s t : Store S) (e : Failure E)
      → commit fails tx before r s ≡ (err e, t)
      → t.tables ≡ before
  commit-atomic before (err f) s t e h = sym (ap (λ p. p.1.tables) h)
  commit-atomic before (ok a) s t e h = elim (Bool-cases (fails s.statements)) [
    | inl down ↦ sym (ap (λ p. p.1.tables) (rw down at h))
    | inr up ↦ cc (rw up at h)
  ]

  -- A transaction whose body runs on it and that returns an error has left the tables as they were.
  pub with_transaction-atomic :
      (body : Exec E S A) (s t : Store S) (e : Failure E)
      → with_transaction fails tx body s ≡ (err e, t)
      → t.tables ≡ s.tables
  unfolding with_transaction
  with_transaction-atomic body s t e h = elim (Bool-cases (fails s.statements)) [
    | inl down ↦ sym (ap (λ p. p.1.tables) (rw down at h))
    | inr up ↦ commit-atomic s.tables _ _ t e (rw up at h)
  ]

pub Result-cases {ℓ κ} :
    {E : Type ℓ} {A : Type κ} (r : Result E A)
    → ((a : A) × (r ≡ ok a)) ⊎ ((e : Failure E) × (r ≡ err e))
Result-cases (ok a) = inl (a, refl)
Result-cases (err e) = inr (e, refl)

-- What holds after the first part of a call, and after the second part on any of its values, holds
-- after the call.
module _ {ℓ κ μ ν} {E : Type ℓ} {S : Type κ} {A B : Type μ} (P : Store S → Type ν)
    (k : A → Exec E S B) where
  continue-after :
      (s : Store S) (r : Result E A) (t : Store S)
      → P t
      → ((a : A) → P (k a t).1)
      → P (((λ _. (r, t)) >>= k) s).1
  continue-after s (ok a) t first rest = rest a
  continue-after s (err e) t first rest = first

  pub bind-after :
      (m : Exec E S A) (s : Store S) → P (m s).1 → ((a : A) → P (k a (m s).1).1) → P ((m >>= k) s).1
  bind-after m s first rest = continue-after s (m s).0 (m s).1 first rest

-- What holds of the tables before a transaction and after its body holds after the transaction.
module _ {ℓ κ μ ν} (fails : ℕ → Bool) (E : Type ℓ) {S : Type κ} {A : Type μ} (P : S → Type ν) where
  commit_if-after :
      (b : Bool) (before : S) (a : A) (s : Store S)
      → P before
      → P s.tables
      → P (commit_if fails {E = E} b tx before a s).1.tables
  commit_if-after Bool.true before a s p q = p
  commit_if-after Bool.false before a s p q = q

  commit-after :
      (before : S) (r : Result E A) (s : Store S)
      → P before
      → P s.tables
      → P (commit fails tx before r s).1.tables
  commit-after before (ok a) s p q = commit_if-after (fails s.statements) before a s p q
  commit-after before (err e) s p q = p

  transact-after :
      (b : Bool) (body : Exec E S A) (s : Store S)
      → P s.tables
      → P (body (record s { statements = suc s.statements })).1.tables
      → P (transact fails b tx body s).1.tables
  transact-after Bool.true body s p q = p
  transact-after Bool.false body s p q =
      let (r, t) = body (record s { statements = suc s.statements }) in
      commit-after s.tables _ _ p q

  pub with_transaction-after :
      (body : Exec E S A) (s : Store S)
      → P s.tables
      → P (body (record s { statements = suc s.statements })).1.tables
      → P (with_transaction fails tx body s).1.tables
  unfolding with_transaction
  with_transaction-after body s p q = transact-after (fails s.statements) body s p q

-- A statement leaves the tables, or gives the ones that it writes.
pub statement-after {ℓ κ μ ν} :
    (E : Type ℓ) {S : Type κ} {A : Type μ} (P : S → Type ν) (b : Bool) (a : A) (t : S) (s : Store S)
    → P s.tables
    → (b ≡ Bool.false → P t)
    → P (statement {E = E} b a t s).1.tables
statement-after E P Bool.true a t s p q = p
statement-after E P Bool.false a t s p q = q refl
