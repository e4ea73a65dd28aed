-- ===== src/Db/Tests.antt =====
-- A transaction that writes and then fails.
use lesser.Common.{ℕ, ◌+◌, ◌≡◌, refl, Bool, ◌==◌}
use lesser.Db.{Store, sql, err, tx, Exec, exec, ◌>>◌, with_transaction}

-- The third statement of the run fails.
abbrev third : ℕ → Bool
third n = n == 2

abbrev add_twice : Exec ℕ ℕ (Unit {0})
add_twice = exec third (λ n. n + 1) >> exec third (λ n. n + 1)

abbrev start : Store ℕ
start = record { tables = 5; statements = 0 }

abbrev end : Store ℕ
end = record { tables = 5; statements = 3 }

add_twice-fails : with_transaction third tx add_twice start ≡ (err sql, end)
unfolding with_transaction
add_twice-fails = refl
