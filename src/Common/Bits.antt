-- ===== src/Common/Bits.antt =====
-- `|` of disjoint bit fields and `&` with a low mask, as arithmetic on native numbers.
use Prim.Native.Nat.{
  ℕ, zero, suc, ◌+◌, ◌-◌, ◌*◌, ◌/◌, ◌%◌, ◌^◌, ◌≤◌, ◌<◌, min, max, digits, bit_and, bit_or,
  bit_and-bitwise, bit_or-bitwise,
}
use mathlib.Core.Path.{◌≡◌, refl, ◌∙◌, ap}
use native.Mathlib.Nat.{
  pow-suc, one-le-pow, mod-lt, mod-eq_of_lt, div-add-mod', mul-add-mod_self_right,
}
use native.Mathlib.Omega.{arith}

-- A number whose low `k` digits are zero, joined with one of at most `k` digits. `n` is the count of
-- digits that the recursion of `|` has to go.
or_of_shifted :
    (n k a q r : ℕ) → a ≡ q * 2 ^ k → a ≤ n → r < 2 ^ k → digits (λ b. b) max n a r ≡ a + r
or_of_shifted zero k a q r e le lt = omega arith
or_of_shifted (suc n) k zero q r e le lt = omega arith
or_of_shifted (suc n) zero (suc a) q r e le lt = omega (
  arith,
  or_of_shifted n zero (suc a / 2) (suc a / 2) (r / 2) (omega arith) (omega arith) (omega arith),
)
or_of_shifted (suc n) (suc k) (suc a) q r e le lt =
    let half : suc a ≡ q * 2 ^ k * 2 = omega (arith, ap (λ (t : ℕ). q * t) (pow-suc 2 k)) in
    omega (
      arith,
      pow-suc 2 k,
      or_of_shifted n k (suc a / 2) q (r / 2) (omega arith) (omega arith)
          (omega (arith, pow-suc 2 k)),
    )

pub bit_or-shifted : (k q r : ℕ) → r < 2 ^ k → bit_or (q * 2 ^ k) r ≡ q * 2 ^ k + r
bit_or-shifted k q r lt =
    bit_or-bitwise (q * 2 ^ k) r ∙ or_of_shifted (q * 2 ^ k) k (q * 2 ^ k) q r refl (omega arith) lt

mod_by_double : (a p : ℕ) → 0 < p → a % (p * 2) ≡ a / 2 % p * 2 + a % 2
mod_by_double a p h =
    let rest : ℕ = a / 2 % p * 2 + a % 2 in
    let whole : a ≡ a / 2 / p * (p * 2) + rest = omega (arith, div-add-mod' (a / 2) p) in
    ap (λ (t : ℕ). t % (p * 2)) whole
    ∙ mul-add-mod_self_right (a / 2 / p) (p * 2) rest
    ∙ mod-eq_of_lt (omega (arith, mod-lt (a / 2) h))

and_with_mask : (n k a m : ℕ) → a ≤ n → m + 1 ≡ 2 ^ k → digits (λ b. 0) min n a m ≡ a % 2 ^ k
and_with_mask zero k a m le e = omega arith
and_with_mask (suc n) k zero m le e = omega arith
and_with_mask (suc n) zero (suc a) m le e =
    omega (arith, and_with_mask n zero (suc a / 2) (m / 2) (omega arith) (omega arith))
and_with_mask (suc n) (suc k) (suc a) m le e = omega (
  arith,
  pow-suc 2 k,
  ap (λ (t : ℕ). suc a % t) (pow-suc 2 k),
  mod_by_double (suc a) (2 ^ k) (one-le-pow k 2 (omega arith)),
  and_with_mask n k (suc a / 2) (m / 2) (omega arith) (omega (arith, pow-suc 2 k)),
)

pub bit_and-mask : (k a : ℕ) → bit_and a (2 ^ k - 1) ≡ a % 2 ^ k
bit_and-mask k a =
    bit_and-bitwise a (2 ^ k - 1)
    ∙ and_with_mask a k a (2 ^ k - 1) (omega arith) (omega (arith, one-le-pow k 2 (omega arith)))
