-- ===== src/Db.antt =====
-- Calls of the database, and transactions: service/pkg/db/postgres.go. A component's tables are a
-- value `S`, and a statement of its SQL text is a function on them. `fails n` says whether the
-- `n`-th statement of the run fails: the connection, the server or a constraint refused it, and it
-- changed nothing. So every error branch of the program is a branch of the model.
pub mod Laws
mod Tests
use lesser.Common.{ℕ, suc, Bool, true, false}

-- The tables, and how many statements have run.
pub record Store {ℓ} (S : Type ℓ) : Type ℓ where
  pub tables : S
  pub statements : ℕ

-- `sql` is an error of the database that the program passes on; `reject` is one of its own.
pub data Failure {ℓ} (E : Type ℓ) : Type ℓ where
  sql : Failure E
  reject : E → Failure E

pub data Result {ℓ κ} (E : Type ℓ) (A : Type κ) : Type (ℓ ⊔ κ) where
  ok : A → Result E A
  err : Failure E → Result E A

-- What a call does: the result, and the store after it. What was written before an error stays.
abbrev pub Exec {ℓ κ μ} : Type ℓ → Type κ → Type μ → Type (ℓ ⊔ κ ⊔ μ)
Exec E S A = Store S → Result E A × Store S

module _ {ℓ κ μ} {E : Type ℓ} {S : Type κ} {A : Type μ} where
  abbrev pub pure : A → Exec E S A
  pure a s = (ok a, s)

  abbrev pub fail : E → Exec E S A
  fail e s = (err (reject e), s)

infixl 5 ◌>>=◌ ◌>>◌
abbrev pub ◌>>=◌ {ℓ κ μ ν} :
    {E : Type ℓ} {S : Type κ} {A : Type μ} {B : Type ν} → Exec E S A → (A → Exec E S B) → Exec E S B
◌>>=◌ m f s = let (r, t) = m s in elim r [ ok a ↦ f a t | err e ↦ (err e, t) ]

abbrev pub ◌>>◌ {ℓ κ μ ν} :
    {E : Type ℓ} {S : Type κ} {A : Type μ} {B : Type ν} → Exec E S A → Exec E S B → Exec E S B
m >> k = m >>= λ _. k

-- `if b { return m }; return n`, for calls.
abbrev pub branch {ℓ κ μ} :
    {E : Type ℓ} {S : Type κ} {A : Type μ} → Bool → Exec E S A → Exec E S A → Exec E S A
branch true m n s = m s
branch false m n s = n s

-- `_ = call`: the caller drops the error.
abbrev pub ignore {ℓ κ} : {E : Type ℓ} {S : Type κ} → Exec E S (Unit {0}) → Exec E S (Unit {0})
ignore m s = (ok tt, (m s).1)

-- Through which handle a function given to `WithTransaction` runs its statements.
pub data Handle : Type 0 where
  tx pool : Handle

-- Rolling back undoes what went through the transaction, and nothing else.
abbrev pub rolled_back {ℓ} : {S : Type ℓ} → Handle → S → S → S
rolled_back tx before after = before
rolled_back pool before after = after

-- One statement, by whether it fails, with the value and the tables that it gives otherwise.
abbrev pub statement {ℓ κ μ} : {E : Type ℓ} {S : Type κ} {A : Type μ} → Bool → A → S → Exec E S A
statement true a t s = (err sql, record s { statements = suc s.statements })
statement false a t s = (ok a, record { tables = t; statements = suc s.statements })

-- The environment: which statements fail.
module _ {ℓ κ} (fails : ℕ → Bool) {E : Type ℓ} {S : Type κ} where
  abbrev pub query {μ} : {A : Type μ} → (S → A) → Exec E S A
  query f s = statement (fails s.statements) (f s.tables) s.tables s

  abbrev pub exec : (S → S) → Exec E S (Unit {0})
  exec f s = statement (fails s.statements) tt (f s.tables) s

  -- COMMIT, or the rollback of what is not committed: `before` are the tables at the beginning.
  abbrev pub commit_if {μ} : {A : Type μ} → Bool → Handle → S → A → Exec E S A
  commit_if true h before a s =
      (err sql, record { tables = rolled_back h before s.tables; statements = suc s.statements })
  commit_if false h before a s = (ok a, record s { statements = suc s.statements })

  abbrev pub commit {μ} : {A : Type μ} → Handle → S → Result E A → Exec E S A
  commit h before (err e) s = (err e, record s { tables = rolled_back h before s.tables })
  commit h before (ok a) s = commit_if (fails s.statements) h before a s

  -- `BeginTx`, the function, and the commit; `before` is the store at the beginning.
  abbrev pub transact {μ} : {A : Type μ} → Bool → Handle → Exec E S A → Exec E S A
  transact true h body s = (err sql, record s { statements = suc s.statements })
  transact false h body s =
      let (r, t) = body (record s { statements = suc s.statements }) in commit h s.tables r t

  unfoldable pub with_transaction {μ} : {A : Type μ} → Handle → Exec E S A → Exec E S A
  with_transaction h body s = transact (fails s.statements) h body s
