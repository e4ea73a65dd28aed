-- ===== src/Content/Client.antt =====
-- Calls of the content service by another service, over a network that may lose them: the content
-- clients in service/interaction/internal/remote and in service/comment/internal/remote.
use lesser.Common.{ℕ, suc}
use lesser.Db.{Store, Result, Failure, sql, reject, ok, err, Exec}
use lesser.Content.{Tables, Error}

-- What the network does with a call: it carries it out and brings the answer, does not reach the
-- service, or loses the answer of a call that was carried out.
pub data Delivery : Type 0 where
  answered unreached answer_lost : Delivery

-- Where the caller's state `S` holds the content service's store, and how its errors `E` hold those of
-- the content service.
pub record Link {ℓ κ} (S : Type ℓ) (E : Type κ) : Type (ℓ ⊔ κ) where
  pub content_of : S → Store Tables
  pub with_content : Store Tables → S → S
  pub remote_error : Error → E

module _ {ℓ κ} {S : Type ℓ} {E : Type κ} (link : Link S E) where
  abbrev pub remote_failure : Failure Error → Failure E
  remote_failure sql = sql
  remote_failure (reject e) = reject (link.remote_error e)

  abbrev pub remote_result {μ} : {A : Type μ} → Result Error A → Result E A
  remote_result (ok a) = ok a
  remote_result (err e) = err (remote_failure e)

  -- The caller's store after the call, with the content service's store as the call left it.
  abbrev pub after_call : Store Tables → Store S → Store S
  after_call c s = record { tables = link.with_content c s.tables; statements = suc s.statements }

  abbrev pub delivered {μ} : {A : Type μ} → Delivery → Exec Error Tables A → Exec E S A
  delivered Delivery.unreached call s = (err sql, after_call (link.content_of s.tables) s)
  delivered Delivery.answered call s =
      let (r, c) = call (link.content_of s.tables) in (remote_result r, after_call c s)
  delivered Delivery.answer_lost call s =
      let (r, c) = call (link.content_of s.tables) in (err sql, after_call c s)

  -- `net n` is what happens to a call that is made after `n` statements and calls.
  abbrev pub remote {μ} : {A : Type μ} → (ℕ → Delivery) → Exec Error Tables A → Exec E S A
  remote net call s = delivered (net s.statements) call s
