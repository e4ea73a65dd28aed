-- ===== src/Id/Clock.antt =====
-- When a call of `generate` returns: the busy wait ends with the first later reading of the clock.

use lesser.Common.{
  ℕ, ◌+◌, ◌≤◌, ◌≡◌, ◌↔◌, inl, inr, List, [], ◌∷◌, none, All, arith, ◌==◌, ==_iff, Bool-cases,
}
use lesser.Common.Bits.{bit_and-mask}
use lesser.Id.{Snowflake, waiting, wait_next_millis, same_millis, generate}
use lesser.Id.Fields.{IsValid}

wait_next_millis-none_iff :
    (last : ℕ) (clock : List ℕ) → (wait_next_millis last clock ≡ none) ↔ All (λ t. t ≤ last) clock
unfolding wait_next_millis
wait_next_millis-none_iff last [] = ground arith
wait_next_millis-none_iff last (t ∷ clock) = ground (arith, wait_next_millis-none_iff last clock)

same_millis-waiting_iff :
    (s : Snowflake) (clock : List ℕ)
    → IsValid s
    → ((same_millis s s.last_time clock).0 ≡ waiting)
      ↔ ((s.sequence ≡ 4095) × All (λ t. t ≤ s.last_time) clock)
unfolding same_millis
same_millis-waiting_iff s clock v = ground (
  arith,
  v.sequence,
  bit_and-mask 12 (s.sequence + 1),
  wait_next_millis-none_iff s.last_time clock,
)

-- A call that reads the clock at all is still waiting exactly when the sequence of the last
-- millisecond is used up and no reading lies past that millisecond.
pub generate-waiting_iff :
    (s : Snowflake) (now : ℕ) (clock : List ℕ)
    → IsValid s
    → ((generate s (now ∷ clock)).0 ≡ waiting)
      ↔ ((now ≡ s.last_time) × (s.sequence ≡ 4095) × All (λ t. t ≤ s.last_time) clock)
unfolding generate
generate-waiting_iff s now clock v = elim (Bool-cases (now == s.last_time)) [
  | inl same ↦
      let same' : now ≡ s.last_time = (==_iff now s.last_time).0 same in
      rw (same, same') (ground (arith, same_millis-waiting_iff s clock v))
  | inr other ↦ ground arith
]
