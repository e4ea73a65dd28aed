-- ===== src/Id.antt =====
-- The snowflake generator, service/pkg/id/snowflake.go. A clock is the list of the readings that
-- `time.Now().UnixMilli()` gives one after the other; a reading is a number of milliseconds since
-- 1970. An int64 is its two's complement bit pattern, below 2 ^ 64.
pub mod Words
pub mod Fields
pub mod Order
pub mod History
pub mod Clock
pub mod Global
mod Tests
use lesser.Common.{
  ℕ, ◌+◌, ◌-◌, ◌%◌, ◌^◌, ◌<◌, Bool, true, false, ◌||◌, Option, none, some, List, [], ◌∷◌, ltb, leb,
  ◌==◌, if◌then◌else◌,
}
use lesser.Common.Int.{ℤ, pos, negsuc, pos_part, ltb_ℤ}
use Words.{sub64, shl64, sar64, and64, or64}

abbrev pub epoch : ℕ
epoch = 1704067200000

abbrev pub timestamp_bits : ℕ
timestamp_bits = 41

abbrev pub max_datacenter_id : ℕ
max_datacenter_id = 2 ^ 5 - 1

abbrev pub max_worker_id : ℕ
max_worker_id = 2 ^ 5 - 1

abbrev pub max_sequence : ℕ
max_sequence = 2 ^ 12 - 1

abbrev pub worker_shift : ℕ
worker_shift = 12

abbrev pub datacenter_shift : ℕ
datacenter_shift = 12 + 5

abbrev pub timestamp_shift : ℕ
timestamp_shift = 12 + 5 + 5

pub data Error : Type 0 where
  invalid_datacenter_id invalid_worker_id clock_moved_backward : Error

-- How a call ends. `waiting`: the clock has no further reading, the call has not returned yet.
-- `panic`: a nil pointer was used.
pub data Outcome (A : Type 0) : Type 0 where
  ok : A → Outcome A
  err : Error → Outcome A
  waiting panic : Outcome A

pub record Snowflake : Type 0 where
  pub datacenter_id : ℕ
  pub worker_id : ℕ
  pub sequence : ℕ
  pub last_time : ℕ

pub new_snowflake : ℤ → ℤ → Outcome Snowflake
new_snowflake datacenter_id worker_id =
    if ltb_ℤ datacenter_id (pos 0) || ltb_ℤ (pos max_datacenter_id) datacenter_id
    then err invalid_datacenter_id
    else if ltb_ℤ worker_id (pos 0) || ltb_ℤ (pos max_worker_id) worker_id
    then err invalid_worker_id
    else ok (record {
      datacenter_id = pos_part datacenter_id;
      worker_id = pos_part worker_id;
      sequence = 0;
      last_time = 0;
    })

-- The loop reads the clock until a reading lies past `last`.
pub wait_next_millis : ℕ → List ℕ → Option (ℕ × List ℕ)
wait_next_millis last [] = none
wait_next_millis last (now ∷ clock) =
    if leb now last then wait_next_millis last clock else some (now, clock)

pub assemble : Snowflake → ℕ → ℕ
assemble s now =
    or64
      (or64
        (or64 (shl64 (sub64 now epoch) timestamp_shift) (shl64 s.datacenter_id datacenter_shift))
        (shl64 s.worker_id worker_shift))
      s.sequence

pub stamped : Snowflake → ℕ → List ℕ → Outcome ℕ × Snowflake × List ℕ
stamped s now clock = (ok (assemble s now), record s { last_time = now }, clock)

pub after_wait : Snowflake → Option (ℕ × List ℕ) → Outcome ℕ × Snowflake × List ℕ
unfolding stamped
after_wait s none = (waiting, s, [])
after_wait s (some (now, clock)) = stamped s now clock

-- The branch for a call in the millisecond of the one before.
pub same_millis : Snowflake → ℕ → List ℕ → Outcome ℕ × Snowflake × List ℕ
unfolding stamped after_wait
same_millis s now clock =
    let s' = record s { sequence = and64 (s.sequence + 1) max_sequence } in
    if s'.sequence == 0
    then after_wait s' (wait_next_millis s.last_time clock)
    else stamped s' now clock

-- The mutex makes a call one step of the generator.
pub generate : Snowflake → List ℕ → Outcome ℕ × Snowflake × List ℕ
unfolding same_millis
generate s [] = (waiting, s, [])
generate s (now ∷ clock) =
    if ltb now s.last_time
    then (err clock_moved_backward, s, clock)
    else if now == s.last_time
    then same_millis s now clock
    else stamped (record s { sequence = 0 }) now clock

pub record Parsed : Type 0 where
  pub timestamp : ℕ
  pub datacenter_id : ℕ
  pub worker_id : ℕ
  pub sequence : ℕ

pub parse_snowflake : ℕ → Parsed
parse_snowflake id = record {
  timestamp = and64 (sar64 id timestamp_shift) (2 ^ timestamp_bits - 1) + epoch;
  datacenter_id = and64 (sar64 id datacenter_shift) max_datacenter_id;
  worker_id = and64 (sar64 id worker_shift) max_worker_id;
  sequence = and64 id max_sequence;
}
