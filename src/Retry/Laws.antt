-- ===== src/Retry/Laws.antt =====
-- How often a function is called, and what is returned.
use mathlib.Core.Option
use lesser.Common.{
  ℕ, zero, suc, ◌+◌, ◌*◌, ◌≤◌, ◌<◌, ◌≡◌, refl, Bool, true, false, Option, none, some, arith, inl,
  inr, Option-cases, subst, ap, ◌∙◌,
}
use lesser.Common.Int.{ℤ, pos, negsuc, pos_part}
use native.Mathlib.Decide.{dec_lt}
use lesser.Retry.{
  RetryError, context_canceled, failed, Outcome, retry_loop, retry, retry_with_result_loop,
  retry_with_result,
}

-- The call failed with an error that may be retried.
abbrev pub is_retried {ℓ} : {E : Type ℓ} → (E → Bool) → Option E → Bool
is_retried retry_if none = false
is_retried retry_if (some e) = retry_if e

module _ {E : Type 0} (m : ℕ) (is_done : ℕ → Bool) (retry_if : E → Bool) (fn : ℕ → Option E) where
  -- What one round can lead to, from an attempt that is made.
  retry_loop_cases :
      (P : Option (Outcome E) → Type 0) (fuel a : ℕ) (last : Option E)
      → a ≤ m
      → P (some (some context_canceled, a))
      → (fn a ≡ none → P (some (none, suc a)))
      → ((e : E) → fn a ≡ some e → P (some (some (failed e), suc a)))
      → (is_retried retry_if (fn a) ≡ true → P (some (some context_canceled, suc a)))
      → ((e : E)
          → is_retried retry_if (fn a) ≡ true
          → suc a ≤ m
          → P (retry_loop (pos m) is_done retry_if fn fuel (suc a) (some e)))
      → P (retry_loop (pos m) is_done retry_if fn (suc fuel) a last)
  unfolding retry_loop
  retry_loop_cases P fuel a last le canceled success failure late again =
      elim (Option-cases (fn a)) [
        | inl ok ↦ ground arith
        | inr (e, bad) ↦ ground (arith, failure e bad, again e)
      ]

  -- A return after `n` calls: at most m + 1, every call but the last was one to be retried, and no
  -- error is returned only if the last call gave none.
  pub record IsReturn (r : Option (RetryError E)) (n : ℕ) : Type 0 where
    pub calls : n ≤ suc m
    pub retried : (i : ℕ) → suc i < n → is_retried retry_if (fn i) ≡ true
    pub success : r ≡ none → (k : ℕ) × (n ≡ suc k) × (fn k ≡ none)

  IsGood : Option (Outcome E) → Type 0
  IsGood none = zero ≡ suc zero
  IsGood (some (r, n)) = IsReturn r n

  AllRetried : ℕ → Type 0
  AllRetried a = (i : ℕ) → i < a → is_retried retry_if (fn i) ≡ true

  AllRetried-suc : (a : ℕ) → AllRetried a → is_retried retry_if (fn a) ≡ true → AllRetried (suc a)
  unfolding AllRetried
  AllRetried-suc a before now i h = elim (dec_lt i a) [
    | yes lt ↦ before i lt
    | no ge ↦ subst (λ j. is_retried retry_if (fn j) ≡ true) (omega (arith, ge, h)) now
  ]

  retry_loop-IsGood :
      (fuel a : ℕ) (last : Option E)
      → suc m < fuel + a
      → a ≤ m
      → AllRetried a
      → IsGood (retry_loop (pos m) is_done retry_if fn fuel a last)
  unfolding IsGood AllRetried
  retry_loop-IsGood zero a last enough le before = ground arith
  retry_loop-IsGood (suc fuel) a last enough le before =
      retry_loop_cases IsGood fuel a last le
        (record {
          calls = omega (arith, le);
          retried = λ i h. before i (omega (arith, h));
          success = λ e. cc e;
        })
        (λ ok. record {
          calls = omega (arith, le);
          retried = λ i h. before i (omega (arith, h));
          success = λ _. (a, refl, ok);
        })
        (λ e bad. record {
          calls = omega (arith, le);
          retried = λ i h. before i (omega (arith, h));
          success = λ e. cc e;
        })
        (λ now. record {
          calls = omega (arith, le);
          retried = λ i h. before i (omega (arith, h));
          success = λ e. cc e;
        })
        (λ e now more.
          retry_loop-IsGood fuel (suc a) (some e) (omega (arith, enough)) more
            (AllRetried-suc a before now))

  IsGood-result :
      (o : Option (Outcome E)) → IsGood o → (p : Outcome E) × (o ≡ some p) × IsReturn p.0 p.1
  unfolding IsGood
  IsGood-result none bad = ground arith
  IsGood-result (some p) good = (p, refl, good)

  -- With at most m retries, `Retry` returns; it calls the function at most m + 1 times, again only
  -- after an error that may be retried, and returns no error only if the last call gave none.
  pub retry-IsReturn :
      (p : Outcome E) × (retry (pos m) is_done retry_if fn ≡ some p) × IsReturn p.0 p.1
  unfolding retry AllRetried
  retry-IsReturn =
      IsGood-result _
        (retry_loop-IsGood (suc (suc m)) 0 none (omega arith) (omega arith) λ i h. ground arith)

  module _ (running : (i : ℕ) → is_done i ≡ false) where
    retry_loop-succeeds :
        (n : ℕ)
        → n ≤ m
        → ((i : ℕ) → i < n → is_retried retry_if (fn i) ≡ true)
        → fn n ≡ none
        → (fuel a : ℕ) (last : Option E) → n < fuel + a
        → a ≤ n
        → retry_loop (pos m) is_done retry_if fn fuel a last ≡ some (none, suc n)
    unfolding retry_loop
    retry_loop-succeeds n le retried ok zero a last enough reached = ground arith
    retry_loop-succeeds n le retried ok (suc fuel) a last enough reached = elim (dec_lt a n) [
      | yes lt ↦ elim (Option-cases (fn a)) [
        | inl done ↦ ground (arith, retried a lt)
        | inr (e, bad) ↦ ground (
          arith,
          running (2 * a),
          running (2 * a + 1),
          retried a lt,
          retry_loop-succeeds n le retried ok fuel (suc a) (some e) (omega (arith, enough)) lt,
        )
      ]
      | no ge ↦
          let here : a ≡ n = omega (arith, ge, reached) in
          let ok_here : fn a ≡ none = ap fn here ∙ ok in
          ground (arith, running (2 * a), here, ok_here)
    ]

    -- While the context is not done, `Retry` finds the first call that succeeds, if it is among the
    -- first m + 1 and the errors before it may be retried.
    pub retry-succeeds :
        (n : ℕ)
        → n ≤ m
        → ((i : ℕ) → i < n → is_retried retry_if (fn i) ≡ true)
        → fn n ≡ none
        → retry (pos m) is_done retry_if fn ≡ some (none, suc n)
    unfolding retry
    retry-succeeds n le retried ok =
        retry_loop-succeeds n le retried ok (suc (suc m)) 0 none (omega arith) (omega arith)

module _ {E T : Type 0} (max : ℤ) (is_done : ℕ → Bool) (retry_if : E → Bool) (zero_value : T)
    (fn : ℕ → T × Option E) where
  retry_with_result_loop-same :
      (fuel a : ℕ) (last : Option E)
      → Option.map
          (λ p. p.1)
          (retry_with_result_loop max is_done retry_if zero_value fn fuel a last)
        ≡ retry_loop max is_done retry_if (λ i. (fn i).1) fuel a last
  unfolding retry_loop retry_with_result_loop
  retry_with_result_loop-same zero a last = refl
  retry_with_result_loop-same (suc fuel) a last = elim (Option-cases (fn a).1) [
    | inl ok ↦ ground arith
    | inr (e, bad) ↦ ground (arith, retry_with_result_loop-same fuel (suc a) (some e))
  ]

  -- `RetryWithResult` makes the calls that `Retry` makes, and returns its error.
  pub retry_with_result-same :
      Option.map (λ p. p.1) (retry_with_result max is_done retry_if zero_value fn)
      ≡ retry max is_done retry_if (λ i. (fn i).1)
  unfolding retry retry_with_result
  retry_with_result-same = retry_with_result_loop-same (suc (suc (pos_part max))) 0 none

-- With a negative number of retries the function is not called, and no error is returned.
pub retry-negative :
    {E : Type 0} (k : ℕ) (is_done : ℕ → Bool) (retry_if : E → Bool) (fn : ℕ → Option E)
    → retry (negsuc k) is_done retry_if fn ≡ some (none, 0)
unfolding retry retry_loop
retry-negative k is_done retry_if fn = ground arith
