-- ===== src/Id/Tests.antt =====
-- Runs of the generator at fixed inputs, and the theorems at such inputs.
use lesser.Common.{ℕ, ◌≡◌, refl, ◌↔◌, ◌+◌, ◌*◌, ◌≤◌, List, [], ◌∷◌, All, arith}
use lesser.Common.Int.{pos, negsuc}
use lesser.Id.{
  Snowflake, ok, err, waiting, invalid_datacenter_id, new_snowflake, assemble, generate,
  parse_snowflake, wait_next_millis, epoch,
}
use lesser.Id.Fields.{IsValid}
use lesser.Id.History.{issued, IsAscending, issued-IsAscending, parse-generate}
use lesser.Id.Clock.{generate-waiting_iff}

abbrev fresh : Snowflake
fresh = record { datacenter_id = 3; worker_id = 7; sequence = 0; last_time = 0 }

abbrev full : Snowflake
full = record { datacenter_id = 3; worker_id = 7; sequence = 4095; last_time = epoch + 5 }

abbrev readings : List ℕ
readings = (epoch + 5) ∷ (epoch + 5) ∷ (epoch + 4) ∷ (epoch + 9) ∷ []

new_snowflake-range : new_snowflake (negsuc 0) (pos 4) ≡ err invalid_datacenter_id
unfolding new_snowflake
new_snowflake-range = refl

issued-readings :
    issued 5 fresh readings
    ≡ (5 * 4194304 + 3 * 131072 + 7 * 4096)
      ∷ (5 * 4194304 + 3 * 131072 + 7 * 4096 + 1)
      ∷ (9 * 4194304 + 3 * 131072 + 7 * 4096)
      ∷ []
unfolding issued generate assemble
issued-readings = refl

generate-overflow : generate full readings ≡ (
  ok (9 * 4194304 + 3 * 131072 + 7 * 4096),
  record full { sequence = 0; last_time = epoch + 9 },
  [],
)
unfolding generate assemble wait_next_millis
generate-overflow = refl

fresh-IsValid : IsValid fresh
fresh-IsValid = omega arith

full-IsValid : IsValid full
full-IsValid = omega arith

issued-IsAscending_example : IsAscending (issued 5 fresh readings)
issued-IsAscending_example = issued-IsAscending 5 fresh readings fresh-IsValid (omega arith)

parse-generate_example :
    parse_snowflake (9 * 4194304 + 3 * 131072 + 7 * 4096)
    ≡ record { timestamp = epoch + 9; datacenter_id = 3; worker_id = 7; sequence = 0 }
parse-generate_example =
    parse-generate full _ readings [] _ full-IsValid (omega arith) generate-overflow

generate-waiting_iff_example : ((generate full ((epoch + 5) ∷ (epoch + 5) ∷ [])).0 ≡ waiting) ↔ (
    (epoch + 5 ≡ full.last_time)
    × (full.sequence ≡ 4095)
    × All (λ t. t ≤ full.last_time) ((epoch + 5) ∷ []))
generate-waiting_iff_example = generate-waiting_iff full (epoch + 5) ((epoch + 5) ∷ []) full-IsValid
