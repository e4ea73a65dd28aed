-- ===== src/Superuser/Until.antt =====
-- How long a ban holds.
use lesser.Common.{
  ℕ, ◌+◌, ◌*◌, ◌^◌, ◌-◌, ◌≡◌, ◌≤◌, ◌<◌, refl, ◌∙◌, true, some, arith, ltb, ◌⊎◌, inl, inr,
  Bool-cases,
}
use lesser.Common.Int.{ℤ, pos, negsuc, ltb_ℤ, add_ℤ, int64, times-pos}
use lesser.Common.Text.{Text}
use lesser.Db.{Store}
use lesser.Superuser.{Tables, UserRow}
use lesser.Superuser.Statements.{user_by_id}
use lesser.Superuser.Service.{until, ban_user, log_audit}
use lesser.Superuser.Sessions.{never}

int64-pos : (n : ℕ) → n < 2 ^ 63 → int64 (pos n) ≡ pos n
unfolding int64
int64-pos n h = ground arith

int64-wraps : (n : ℕ) → 2 ^ 63 ≤ n → n < 2 ^ 64 → int64 (pos n) ≡ negsuc (2 ^ 64 - n - 1)
unfolding int64
int64-wraps n low high = ground arith

until-pos :
    (now n : ℕ) → 0 < n → n ≤ 9223372036 → until now (pos n) ≡ some (pos (now + n * 1000000000))
until-pos now n low high =
    rw (times-pos n 1000000000, int64-pos (n * 1000000000) (omega arith)) (ground arith)

until-past :
    (now n : ℕ)
    → 9223372036 < n
    → n ≤ 18446744073
    → (e : ℤ) × ((until now (pos n) ≡ some e) × (ltb_ℤ e (pos now) ≡ true))
until-past now n low high = (
  add_ℤ (pos now) (negsuc (2 ^ 64 - n * 1000000000 - 1)),
  (
    rw (times-pos n 1000000000, int64-wraps (n * 1000000000) (omega arith) (omega arith))
        (ground arith),
    ground arith,
  ),
)

module _ (now by id : ℕ) (reason : Text) (s : Store Tables) (u : UserRow)
    (there : user_by_id id s.tables ≡ some u) where
  banned :
      (seconds : ℤ)
      → (ban_user never now by id reason seconds s).1.tables.bans id
        ≡ some record { reason = reason; expires_at = until now seconds; operator_id = by }
  unfolding ban_user log_audit
  banned seconds = ground (arith, there)

  -- When no statement fails and the user is there, a ban for a number of seconds from 1 to 18446744073,
  -- which is 584 years, is the user's active ban afterwards. Up to 9223372036 seconds it expires that
  -- many seconds later. For more, the product in nanoseconds wraps, and it expires before it was given.
  pub ban_user-expires :
      (n : ℕ)
      → 0 < n
      → n ≤ 18446744073
      → (e : ℤ) × (((ban_user never now by id reason (pos n) s).1.tables.bans id
            ≡ some record { reason = reason; expires_at = some e; operator_id = by })
          × (((n ≤ 9223372036) × (e ≡ pos (now + n * 1000000000)))
              ⊎ ((9223372036 < n) × (ltb_ℤ e (pos now) ≡ true))))
  ban_user-expires n low high = elim (Bool-cases (ltb 9223372036 n)) [
    | inl long ↦
        let (e, (same, past)) = until-past now n (ground (arith, long)) high in
        (e, (banned (pos n) ∙ rw (same) refl, inr (ground (arith, long), past)))
    | inr short ↦ (
      pos (now + n * 1000000000),
      (
        banned (pos n) ∙ rw (until-pos now n low (ground (arith, short))) refl,
        inl (ground (arith, short), refl),
      ),
    )
  ]
