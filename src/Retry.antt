-- ===== src/Retry.antt =====
-- Calls with retries: service/pkg/grpc/client/retry.go. The function that is called, the context and
-- the test of the errors are parameters: `fn i` is the result of the `i`-th call, `is_done i` is what
-- the `i`-th `select` finds, whether the context is done, and a delay only passes time.
pub mod Laws
mod Tests
use lesser.Common.{
  ℕ, zero, suc, ◌+◌, ◌*◌, Bool, true, false, Option, none, some, not, ◌==◌, if◌then◌else◌,
}
use lesser.Common.Int.{ℤ, pos, negsuc, pos_part, neg_part, leb_ℤ}
use lesser.Db.{Result}

-- The context's error, or one of the function.
pub data RetryError {ℓ} (E : Type ℓ) : Type ℓ where
  context_canceled : RetryError E
  failed : E → RetryError E

-- What a loop returns, an error or none, and how many calls it made.
abbrev pub Outcome {ℓ} : Type ℓ → Type ℓ
Outcome E = Option (RetryError E) × ℕ

abbrev pub is_last : ℤ → ℕ → Bool
is_last (pos m) attempt = attempt == m
is_last (negsuc m) attempt = false

abbrev pub failed_with {ℓ} : {E : Type ℓ} → Option E → Option (RetryError E)
failed_with none = none
failed_with (some e) = some (failed e)

module _ {ℓ} {E : Type ℓ} (max_retries : ℤ) (is_done : ℕ → Bool) (retry_if : E → Bool) where
  -- The body after a call that failed with `e`; `rest` is the next round.
  abbrev pub after_failure : ℕ → E → Option (Outcome E) → Option (Outcome E)
  after_failure attempt e rest =
      if not (retry_if e)
      then some (some (failed e), suc attempt)
      else if is_last max_retries attempt
      then some (some (failed e), suc attempt)
      else if is_done (2 * attempt + 1)
      then some (some context_canceled, suc attempt)
      else rest

  -- The loop of `Retry` from an attempt on, with the last error; `none` if the fuel runs out.
  unfoldable pub retry_loop : (ℕ → Option E) → ℕ → ℕ → Option E → Option (Outcome E)
  retry_loop fn zero attempt last = none
  retry_loop fn (suc fuel) attempt last =
      if leb_ℤ (pos attempt) max_retries
      then if is_done (2 * attempt)
        then some (some context_canceled, attempt)
        else elim (fn attempt) [
          | none ↦ some (none, suc attempt)
          | some e ↦ after_failure attempt e (retry_loop fn fuel (suc attempt) (some e))
        ]
      else some (failed_with last, attempt)

  unfoldable pub retry : (ℕ → Option E) → Option (Outcome E)
  retry fn = retry_loop fn (suc (suc (pos_part max_retries))) 0 none

  module _ {κ} {T : Type κ} (zero_value : T) where
    abbrev pub after_failed_result : ℕ → E → Option (T × Outcome E) → Option (T × Outcome E)
    after_failed_result attempt e rest =
        if not (retry_if e)
        then some (zero_value, (some (failed e), suc attempt))
        else if is_last max_retries attempt
        then some (zero_value, (some (failed e), suc attempt))
        else if is_done (2 * attempt + 1)
        then some (zero_value, (some context_canceled, suc attempt))
        else rest

    -- The loop of `RetryWithResult`.
    unfoldable pub retry_with_result_loop :
        (ℕ → T × Option E) → ℕ → ℕ → Option E → Option (T × Outcome E)
    retry_with_result_loop fn zero attempt last = none
    retry_with_result_loop fn (suc fuel) attempt last =
        if leb_ℤ (pos attempt) max_retries
        then if is_done (2 * attempt)
          then some (zero_value, (some context_canceled, attempt))
          else elim (fn attempt).1 [
            | none ↦ some ((fn attempt).0, (none, suc attempt))
            | some e ↦
                after_failed_result attempt e
                  (retry_with_result_loop fn fuel (suc attempt) (some e))
          ]
        else some (zero_value, (failed_with last, attempt))

    unfoldable pub retry_with_result : (ℕ → T × Option E) → Option (T × Outcome E)
    unfolding retry_with_result_loop
    retry_with_result fn = retry_with_result_loop fn (suc (suc (pos_part max_retries))) 0 none
