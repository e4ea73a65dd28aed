-- ===== src/Id/Global.antt =====
-- The package's own generator and its `sync.Once`, service/pkg/id/snowflake.go.
use lesser.Common.{ℕ, ◌≡◌, Bool, true, false, Option, none, some, List, arith, if◌then◌else◌}
use lesser.Common.Int.{ℤ, pos}
use lesser.Id.{Snowflake, Outcome, ok, err, waiting, panic, Error, new_snowflake, generate}

-- `once_done` is `snowflakeOnce`, and `none` is the nil pointer.
pub record Global : Type 0 where
  pub once_done : Bool
  pub generator : Option Snowflake

abbrev pub unset : Global
unset = record { once_done = false; generator = none }

abbrev pub assign : Outcome Snowflake → Outcome (Unit {0}) × Global
assign (ok s) = (ok tt, record { once_done = true; generator = some s })
assign (err e) = (err e, record { once_done = true; generator = none })
assign waiting = (waiting, unset)
assign panic = (panic, unset)

unfoldable pub init_global_snowflake : Global → ℤ → ℤ → Outcome (Unit {0}) × Global
init_global_snowflake g datacenter_id worker_id =
    if g.once_done then (ok tt, g) else assign (new_snowflake datacenter_id worker_id)

-- A method call on the nil pointer panics at `s.mu.Lock()`.
generate_on : Global → List ℕ → Option Snowflake → Outcome ℕ × Global × List ℕ
generate_on g clock none = (panic, g, clock)
generate_on g clock (some s) =
    let (r, t, rest) = generate s clock in (r, record g { generator = some t }, rest)

initialised : Global → Option Snowflake → Global
unfolding init_global_snowflake new_snowflake
initialised g none = (init_global_snowflake g (pos 1) (pos 1)).1
initialised g (some _) = g

pub new_snowflake_id : Global → List ℕ → Outcome ℕ × Global × List ℕ
unfolding generate_on initialised
new_snowflake_id g clock = let g' = initialised g g.generator in generate_on g' clock g'.generator

-- Once `InitGlobalSnowflake` has refused its arguments, every later call for an identifier panics,
-- since the `sync.Once` is spent and the pointer is still nil.
pub init_global_snowflake-err_panics :
    (datacenter_id worker_id : ℤ) (e : Error) (clock : List ℕ)
    → (init_global_snowflake unset datacenter_id worker_id).0 ≡ err e
    → let g = (init_global_snowflake unset datacenter_id worker_id).1 in
      new_snowflake_id g clock ≡ (panic, g, clock)
unfolding init_global_snowflake new_snowflake_id new_snowflake
init_global_snowflake-err_panics datacenter_id worker_id e clock h = ground arith
