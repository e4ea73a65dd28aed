-- ===== src/Id/Order.antt =====
-- What `generate` issues: identifiers of the generator's own fields, each larger than the last.
use lesser.Common.{
  refl, ℕ, ◌+◌, ◌*◌, ◌<◌, ◌≡◌, inl, inr, List, [], ◌∷◌, Option, none, some, All, arith, Bool-cases,
  ltb, ◌==◌, ==_iff,
}
use Prim.Native.Nat.{bit_and}
use lesser.Common.Bits.{bit_and-mask}
use lesser.Id.{
  max_sequence, Snowflake, Outcome, ok, err, waiting, panic, wait_next_millis, assemble, after_wait,
  same_millis, stamped, generate,
}
use lesser.Id.Fields.{IsValid}

-- A call that issued `id` and left the generator at `t`.
pub record Issued (s : Snowflake) (id : ℕ) (t : Snowflake) : Type 0 where
  pub value : id ≡ assemble t t.last_time
  pub valid : IsValid t
  pub datacenter : t.datacenter_id ≡ s.datacenter_id
  pub worker : t.worker_id ≡ s.worker_id
  pub later : s.last_time * 4096 + s.sequence < t.last_time * 4096 + t.sequence

-- What a call has done by how it ended, where `P` holds of every reading of its clock.
abbrev pub Issues : (ℕ → Type 0) → Snowflake → Outcome ℕ × Snowflake × List ℕ → Type 0
Issues P s (ok id, t, rest) = Issued s id t × P t.last_time × All P rest
Issues P s (err _, t, rest) = (t ≡ s) × All P rest
Issues P s (waiting, t, rest) = rest ≡ []
Issues P s (panic, t, rest) = ⊥

abbrev Past : (ℕ → Type 0) → ℕ → Option (ℕ × List ℕ) → Type 0
Past P last none = Unit
Past P last (some (now, rest)) = (last < now) × P now × All P rest

wait_next_millis-Past :
    (P : ℕ → Type 0) (last : ℕ) (clock : List ℕ)
    → All P clock
    → Past P last (wait_next_millis last clock)
unfolding wait_next_millis
wait_next_millis-Past P last [] h = tt
wait_next_millis-Past P last (t ∷ clock) h = ground (arith, wait_next_millis-Past P last clock h.1)

module _ (P : ℕ → Type 0) (s : Snowflake) (v : IsValid s) where
  stamped-Issues :
      (sequence now : ℕ) (rest : List ℕ)
      → sequence < 4096
      → s.last_time * 4096 + s.sequence < now * 4096 + sequence
      → P now
      → All P rest
      → Issues P s (stamped (record s { sequence = sequence }) now rest)
  unfolding stamped assemble
  stamped-Issues sequence now rest fits later p h = (
    record {
      value = refl;
      valid = record { datacenter = v.datacenter; worker = v.worker; sequence = fits };
      datacenter = refl;
      worker = refl;
      later = later;
    },
    p,
    h,
  )

  after_wait-Issues :
      (o : Option (ℕ × List ℕ))
      → Past P s.last_time o
      → Issues P s (after_wait (record s { sequence = 0 }) o)
  unfolding after_wait
  after_wait-Issues none h = refl
  after_wait-Issues (some (now, rest)) h =
      stamped-Issues 0 now rest (omega arith) (omega (arith, v.sequence)) h.1 h.2

  same_millis-Issues :
      (clock : List ℕ) → P s.last_time → All P clock → Issues P s (same_millis s s.last_time clock)
  unfolding same_millis
  same_millis-Issues clock p h =
      let mask = bit_and-mask 12 (s.sequence + 1) in
      elim (Bool-cases (bit_and (s.sequence + 1) max_sequence == 0)) [
        | inl full ↦
            rw (full, (==_iff _ 0).0 full)
              (after_wait-Issues (wait_next_millis s.last_time clock)
                (wait_next_millis-Past P s.last_time clock h))
        | inr more ↦
            rw more
              (stamped-Issues _ s.last_time clock (omega (arith, mask)) (ground (arith, mask)) p h)
      ]

  -- A call issues an identifier of its new state, which keeps the generator's two numbers and lies
  -- past the old state in time and sequence; or it refuses and changes nothing; or it still waits.
  pub generate-Issues : (clock : List ℕ) → All P clock → Issues P s (generate s clock)
  unfolding generate
  generate-Issues [] h = refl
  generate-Issues (now ∷ clock) h = elim (Bool-cases (ltb now s.last_time)) [
    | inl back ↦ rw back (refl, h.1)
    | inr forth ↦ elim (Bool-cases (now == s.last_time)) [
      | inl same ↦
          let same' : now ≡ s.last_time = (==_iff now s.last_time).0 same in
          rw (forth, same, same') (same_millis-Issues clock (rw same' at h.0) h.1)
      | inr other ↦
          rw (forth, other)
            (stamped-Issues 0 now clock (omega arith) (ground (arith, v.sequence)) h.0 h.1)
    ]
  ]
