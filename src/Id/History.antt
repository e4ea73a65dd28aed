-- ===== src/Id/History.antt =====
-- Runs of calls on one generator and identifiers of several generators: no two are equal.
use lesser.Common.{ℕ, zero, suc, ◌<◌, ◌≡◌, refl, List, [], ◌∷◌, All, arith}
use lesser.Id.{Snowflake, Outcome, ok, err, waiting, panic, assemble, generate, parse_snowflake}
use lesser.Id.Fields.{IsValid, InEra, assemble_sum, parse-assemble}
use lesser.Id.Order.{Issued, Issues, generate-Issues}

-- The identifiers that calls have issued, before and with the outcome of one more.
pub keep : Outcome ℕ → List ℕ → List ℕ
keep (ok id) ids = id ∷ ids
keep (err _) ids = ids
keep waiting ids = ids
keep panic ids = ids

-- `n` calls one after the other on one clock: the identifiers that they issue.
unfoldable pub issued : ℕ → Snowflake → List ℕ → List ℕ
unfolding keep
issued zero s clock = []
issued (suc n) s clock = let (r, t, rest) = generate s clock in keep r (issued n t rest)

-- Each entry is larger than the one before it, the first than `b`.
abbrev pub Above : ℕ → List ℕ → Type 0
Above b [] = Unit
Above b (x ∷ xs) = (b < x) × Above x xs

abbrev pub IsAscending : List ℕ → Type 0
IsAscending [] = Unit
IsAscending (x ∷ xs) = Above x xs

Issued-lt :
    (s t : Snowflake) {id : ℕ}
    → IsValid s
    → InEra s.last_time
    → Issued s id t
    → InEra t.last_time
    → assemble s s.last_time < id
Issued-lt s t v e i f =
    omega (arith, i.value, assemble_sum s s.last_time v e, assemble_sum t t.last_time i.valid f)

issued-nil : (n : ℕ) (s : Snowflake) → issued n s [] ≡ []
unfolding issued generate
issued-nil zero s = refl
issued-nil (suc n) s = issued-nil n s

keep-Above :
    (n : ℕ) (s : Snowflake) (o : Outcome ℕ × Snowflake × List ℕ)
    → ((t : Snowflake) (rest : List ℕ)
        → IsValid t
        → InEra t.last_time
        → All InEra rest
        → Above (assemble t t.last_time) (issued n t rest))
    → IsValid s
    → InEra s.last_time
    → Issues InEra s o
    → Above (assemble s s.last_time) (keep o.0 (issued n o.1 o.2))
unfolding keep
keep-Above n s (ok id, t, rest) ih v e (i, f, h) =
    (Issued-lt s t v e i f, rw i.value (ih t rest i.valid f h))
keep-Above n s (err _, t, rest) ih v e (same, h) = rw same (ih s rest v e h)
keep-Above n s (waiting, t, rest) ih v e none_left = rw (none_left, issued-nil n t) tt
keep-Above n s (panic, t, rest) ih v e h = absurd h

issued-Above :
    (n : ℕ) (s : Snowflake) (clock : List ℕ)
    → IsValid s
    → InEra s.last_time
    → All InEra clock
    → Above (assemble s s.last_time) (issued n s clock)
unfolding issued
issued-Above zero s clock v e h = tt
issued-Above (suc n) s clock v e h =
    keep-Above n s (generate s clock) (issued-Above n) v e (generate-Issues InEra s v clock h)

keep-IsAscending :
    (n : ℕ) (s : Snowflake) (o : Outcome ℕ × Snowflake × List ℕ)
    → ((rest : List ℕ) → All InEra rest → IsAscending (issued n s rest))
    → Issues InEra s o
    → IsAscending (keep o.0 (issued n o.1 o.2))
unfolding keep
keep-IsAscending n s (ok id, t, rest) ih (i, f, h) = rw i.value (issued-Above n t rest i.valid f h)
keep-IsAscending n s (err _, t, rest) ih (same, h) = rw same (ih rest h)
keep-IsAscending n s (waiting, t, rest) ih none_left = rw (none_left, issued-nil n t) tt
keep-IsAscending n s (panic, t, rest) ih h = absurd h

-- While the clock stays within the era of the 41 bits, the identifiers of one generator grow from
-- call to call, whatever the clock does in between: standing still, jumping ahead or moving back.
pub issued-IsAscending :
    (n : ℕ) (s : Snowflake) (clock : List ℕ)
    → IsValid s
    → All InEra clock
    → IsAscending (issued n s clock)
unfolding issued
issued-IsAscending zero s clock v h = tt
issued-IsAscending (suc n) s clock v h =
    keep-IsAscending n s (generate s clock) (λ rest. issued-IsAscending n s rest v)
      (generate-Issues InEra s v clock h)

-- Equal identifiers come from generators with the same two numbers, at the same millisecond and
-- place in the sequence.
pub assemble_injective :
    (s t : Snowflake) (now later : ℕ)
    → IsValid s
    → IsValid t
    → InEra now
    → InEra later
    → assemble s now ≡ assemble t later
    → (s.datacenter_id ≡ t.datacenter_id)
      × (s.worker_id ≡ t.worker_id)
      × (s.sequence ≡ t.sequence)
      × (now ≡ later)
assemble_injective s t now later v w e f same =
    omega (arith, same, assemble_sum s now v e, assemble_sum t later w f)

-- What `parse_snowflake` reads from an identifier that a call has issued: the millisecond and the
-- sequence number of the call, and the generator's own two numbers.
pub parse-generate :
    (s t : Snowflake) (clock rest : List ℕ) (id : ℕ)
    → IsValid s
    → All InEra clock
    → generate s clock ≡ (ok id, t, rest)
    → parse_snowflake id ≡ record {
      timestamp = t.last_time;
      datacenter_id = s.datacenter_id;
      worker_id = s.worker_id;
      sequence = t.sequence;
    }
parse-generate s t clock rest id v h e =
    let (i, f, _) = rw e at (generate-Issues InEra s v clock h) in
    rw (i.value, ← i.datacenter, ← i.worker) (parse-assemble t t.last_time i.valid f)
