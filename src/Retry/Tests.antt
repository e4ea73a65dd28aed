-- ===== src/Retry/Tests.antt =====
-- Retries of functions that fail a fixed number of times.
use lesser.Common.{
  ℕ, ◌<◌, ◌≡◌, refl, Bool, true, false, Option, none, some, ltb, if◌then◌else◌, arith,
}
use lesser.Common.Int.{pos}
use lesser.Retry.{context_canceled, failed, Outcome, retry_loop, retry}
use lesser.Retry.Laws.{is_retried, IsReturn, retry-IsReturn}

-- Fails twice, with the number of the call.
abbrev twice : ℕ → Option ℕ
twice i = if ltb i 2 then some i else none

abbrev never : ℕ → Bool
never i = false

abbrev always : ℕ → Bool
always e = true

retry-third : retry (pos 3) never always twice ≡ some (none, 3)
unfolding retry retry_loop
retry-third = refl

retry-gives_up : retry (pos 1) never always twice ≡ some (some (failed 1), 2)
unfolding retry retry_loop
retry-gives_up = refl

retry-canceled : retry (pos 3) (λ i. ltb 1 i) always twice ≡ some (some context_canceled, 1)
unfolding retry retry_loop
retry-canceled = refl

retry-IsReturn_example :
    (p : Outcome ℕ) × (retry (pos 1) never always twice ≡ some p)
    × IsReturn 1 never always twice p.0 p.1
retry-IsReturn_example = retry-IsReturn 1 never always twice

twice-retried : (i : ℕ) → i < 2 → is_retried always (twice i) ≡ true
twice-retried i h = ground arith
