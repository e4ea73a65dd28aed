-- ===== src/Common/Lists.antt =====
-- Lists measured by native numbers, under the library's names.
use Prim.Native.Nat.{ℕ, zero, suc, ◌+◌, ◌≤◌}
use mathlib.Core.Path.{◌≡◌, refl}
use mathlib.Core.Bool.{Bool, ◌&&◌}
use mathlib.Core.Option.{Option}
use mathlib.Core.List.{List, [], ◌∷◌, ◌++◌}
use native.Mathlib.Omega.{arith}
use lesser.Common.Tests.{if◌then◌else◌}

module _ {ℓ} {A : Type ℓ} where
  abbrev pub length : List A → ℕ
  length [] = 0
  length (x ∷ xs) = suc (length xs)

  abbrev pub take : ℕ → List A → List A
  take zero xs = []
  take (suc n) [] = []
  take (suc n) (x ∷ xs) = x ∷ take n xs

  abbrev pub drop : ℕ → List A → List A
  drop zero xs = xs
  drop (suc n) [] = []
  drop (suc n) (x ∷ xs) = drop n xs

  pub length-append : (xs ys : List A) → length (xs ++ ys) ≡ length xs + length ys
  length-append [] ys = omega arith
  length-append (x ∷ xs) ys = omega (arith, length-append xs ys)

  -- How many entries pass a test, and the entries that do.
  abbrev pub count_by : (A → Bool) → List A → ℕ
  count_by p [] = 0
  count_by p (x ∷ xs) = if p x then suc (count_by p xs) else count_by p xs

-- Every entry satisfies a predicate.
abbrev pub All {ℓ κ} : {A : Type ℓ} → (A → Type κ) → List A → Type κ
All P [] = Unit
All P (x ∷ xs) = P x × All P xs

module _ {ℓ} {A : Type ℓ} where
  -- Whether some entry passes a test, and the list without those that do.
  abbrev pub any : (A → Bool) → List A → Bool
  any p [] = Bool.false
  any p (x ∷ xs) = if p x then Bool.true else any p xs

  abbrev pub remove : (A → Bool) → List A → List A
  remove p [] = []
  remove p (x ∷ xs) = if p x then remove p xs else x ∷ remove p xs

  abbrev pub filter : (A → Bool) → List A → List A
  filter p [] = []
  filter p (x ∷ xs) = if p x then x ∷ filter p xs else filter p xs

  -- The first entry that passes a test.
  abbrev pub find : (A → Bool) → List A → Option A
  find p [] = Option.none
  find p (x ∷ xs) = if p x then Option.some x else find p xs

  pub count_by-any : (p : A → Bool) (xs : List A) → (if any p xs then 1 else 0) ≤ count_by p xs
  count_by-any p [] = ground arith
  count_by-any p (x ∷ xs) = ground (arith, count_by-any p xs)

  pub count_by-absent : (p : A → Bool) (xs : List A) → any p xs ≡ Bool.false → count_by p xs ≡ 0
  count_by-absent p [] h = omega arith
  count_by-absent p (x ∷ xs) h = ground (arith, count_by-absent p xs)

  -- Removing takes from a count the entries that pass both tests.
  pub count_by-remove :
      (p q : A → Bool) (xs : List A)
      → count_by q (remove p xs) + count_by (λ x. q x && p x) xs ≡ count_by q xs
  count_by-remove p q [] = omega arith
  count_by-remove p q (x ∷ xs) = ground (arith, count_by-remove p q xs)

  pub count_by-remove_le : (p q : A → Bool) (xs : List A) → count_by q (remove p xs) ≤ count_by q xs
  count_by-remove_le p q xs = omega (arith, count_by-remove p q xs)

  -- Tests that agree everywhere count the same.
  pub count_by-same :
      (p q : A → Bool) → ((x : A) → p x ≡ q x) → (xs : List A) → count_by p xs ≡ count_by q xs
  count_by-same p q same [] = omega arith
  count_by-same p q same (x ∷ xs) = ground (arith, same x, count_by-same p q same xs)

  pub any-remove : (p : A → Bool) (xs : List A) → any p (remove p xs) ≡ Bool.false
  any-remove p [] = refl
  any-remove p (x ∷ xs) = ground (arith, any-remove p xs)

  -- Removing by a test brings no entry and takes none that fails the test.
  pub any-remove_other :
      (p q : A → Bool)
      → ((x : A) → q x ≡ Bool.true → p x ≡ Bool.false)
      → (xs : List A) → any q (remove p xs) ≡ any q xs
  any-remove_other p q apart [] = refl
  any-remove_other p q apart (x ∷ xs) = ground (arith, apart x, any-remove_other p q apart xs)
