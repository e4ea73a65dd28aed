-- ===== src/Id/Fields.antt =====
-- The four fields of an identifier: what `assemble` packs is what `parse_snowflake` reads back.
use lesser.Common.{ℕ, ◌+◌, ◌-◌, ◌*◌, ◌/◌, ◌^◌, ◌≤◌, ◌<◌, ◌≡◌, arith}
use lesser.Common.Bits.{bit_or-shifted, bit_and-mask}
use lesser.Id.{Snowflake, epoch, assemble, parse_snowflake}

-- The fields lie in their ranges.
pub record IsValid (s : Snowflake) : Type 0 where
  pub datacenter : s.datacenter_id < 32
  pub worker : s.worker_id < 32
  pub sequence : s.sequence < 4096

-- A time that the 41 bits of the timestamp can hold.
abbrev pub InEra : ℕ → Type 0
InEra now = (epoch ≤ now) × (now < epoch + 2 ^ 41)

-- The identifier as a number.
pub assemble_sum :
    (s : Snowflake) (now : ℕ)
    → IsValid s
    → InEra now
    → assemble s now
      ≡ (now - epoch) * 4194304 + s.datacenter_id * 131072 + s.worker_id * 4096 + s.sequence
unfolding assemble
assemble_sum s now v e = ground (
  arith,
  bit_or-shifted 22 (now - epoch) (s.datacenter_id * 131072) (omega arith),
  bit_or-shifted 17 ((now - epoch) * 32 + s.datacenter_id) (s.worker_id * 4096) (omega arith),
  bit_or-shifted 12 ((now - epoch) * 1024 + s.datacenter_id * 32 + s.worker_id) s.sequence
      (omega arith),
)

pub parse-assemble :
    (s : Snowflake) (now : ℕ)
    → IsValid s
    → InEra now
    → parse_snowflake (assemble s now) ≡ record {
      timestamp = now;
      datacenter_id = s.datacenter_id;
      worker_id = s.worker_id;
      sequence = s.sequence;
    }
unfolding parse_snowflake
parse-assemble s now v e = rw (assemble_sum s now v e) (
    ground (
      arith,
      bit_and-mask 41 (
          ((now - epoch) * 4194304 + s.datacenter_id * 131072 + s.worker_id * 4096 + s.sequence)
          / 4194304),
      bit_and-mask 5 (
          ((now - epoch) * 4194304 + s.datacenter_id * 131072 + s.worker_id * 4096 + s.sequence)
          / 131072),
      bit_and-mask 5 (
          ((now - epoch) * 4194304 + s.datacenter_id * 131072 + s.worker_id * 4096 + s.sequence)
          / 4096),
      bit_and-mask 12
          ((now - epoch) * 4194304 + s.datacenter_id * 131072 + s.worker_id * 4096 + s.sequence),
    ))
