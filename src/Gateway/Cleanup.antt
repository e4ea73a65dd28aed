-- ===== src/Gateway/Cleanup.antt =====
-- Dropping the limiters of idle keys is not seen by the clients.
use lesser.Common.{
  ℕ, zero, suc, subst, ◌<◌, ◌+◌, ◌-◌, ◌*◌, ◌≤◌, ◌≡◌, refl, sym, ap, ◌∙◌, inl, inr, Bool, true,
  false, Option, none, some, List, [], ◌∷◌, ◌==◌, ltb, leb, if◌then◌else◌, arith, Bool-cases,
}
use lesser.Gateway.Limiter.{
  Bucket, IsTokenBucket, capped, Entry, Limiter, new_limiter, allow_key_n, limiter_or_new, cleanup,
  kept,
}

mul_le : (k m n : ℕ) → m ≤ n → k * m ≤ k * n
mul_le zero m n le = omega arith
mul_le (suc k) m n le = omega (arith, le, mul_le k m n le)

-- What reaches a limiter: requests under a key, and the ticks of the cleanup.
pub data Action : Type 0 where
  request : (now key n : ℕ) → Action
  tick : (now : ℕ) → Action

abbrev pub time_of : Action → ℕ
time_of (request now key n) = now
time_of (tick now) = now

-- The times do not go back.
abbrev pub IsOrdered : ℕ → List Action → Type 0
IsOrdered clock [] = Unit
IsOrdered clock (a ∷ rest) = (clock ≤ time_of a) × IsOrdered (time_of a) rest

module _ {ℓ} {B : Type ℓ} (bucket : Bucket B) (expiry : ℕ) where
  -- The answers to the requests, with and without the cleanup.
  unfoldable pub answers : List Action → Limiter B → List Bool
  answers [] l = []
  answers (request now key n ∷ rest) l =
      let (b, m) = allow_key_n bucket now key n l in b ∷ answers rest m
  answers (tick now ∷ rest) l = answers rest (cleanup expiry now l)

  unfoldable pub answers_kept : List Action → Limiter B → List Bool
  answers_kept [] l = []
  answers_kept (request now key n ∷ rest) l =
      let (b, m) = allow_key_n bucket now key n l in b ∷ answers_kept rest m
  answers_kept (tick now ∷ rest) l = answers_kept rest l

  abbrev entry_or : Entry B → Option (Entry B) → Entry B
  entry_or e none = e
  entry_or e (some f) = f

  -- A bucket that has answered at the entry's time.
  abbrev pub IsUsed : Entry B → Type ℓ
  IsUsed e = (b : B) × (n : ℕ) × (e.limiter ≡ (bucket.allow_n e.last_access n b).1)

  module _ (unit size rate : ℕ) (law : IsTokenBucket bucket unit size rate)
      (refills : size ≤ rate * expiry) where
    -- What a key has at a time.
    abbrev tokens_of : ℕ → Option (Entry B) → ℕ
    tokens_of t o = law.tokens t (limiter_or_new bucket o)

    -- The limiter with the cleanup against the one without: from now on every key has the same.
    pub record IsLike (clock : ℕ) (l m : Limiter B) : Type ℓ where
      pub stopped : l.stopped ≡ m.stopped
      pub same :
          (key t : ℕ) → clock ≤ t → tokens_of t (l.limiters key) ≡ tokens_of t (m.limiters key)
      pub used : (key : ℕ) (e : Entry B) → l.limiters key ≡ some e → IsUsed e

    IsLike-later :
        (clock now : ℕ) (l m : Limiter B) → IsLike clock l m → clock ≤ now → IsLike now l m
    IsLike-later clock now l m v le = record {
      stopped = v.stopped;
      same = λ key t later. v.same key t (omega (arith, le, later));
      used = v.used;
    }

    -- What was idle for longer than the expiry is full.
    idle-full :
        (now t : ℕ) (e : Entry B)
        → IsUsed e
        → e.last_access + expiry < now
        → now ≤ t
        → law.tokens t e.limiter ≡ size
    idle-full now t e (b, n, made) idle le =
        let enough : rate * expiry ≤ rate * (t - e.last_access) =
          mul_le rate expiry (t - e.last_access) (omega (arith, idle, le)) in
        ap (law.tokens t) made
        ∙ law.refilled e.last_access n t b (omega (arith, idle, le))
        ∙ ground (arith, enough, refills)

    kept-tokens :
        (now t : ℕ) (o : Option (Entry B))
        → ((e : Entry B) → o ≡ some e → IsUsed e)
        → now ≤ t
        → tokens_of t (kept expiry now o) ≡ tokens_of t o
    kept-tokens now t none used le = refl
    kept-tokens now t (some e) used le = elim (Bool-cases (ltb (e.last_access + expiry) now)) [
      | inl idle ↦
          rw (idle) (law.full t ∙ sym (idle-full now t e (used e refl) (ground (arith, idle)) le))
      | inr recent ↦ rw (recent) refl
    ]

    kept-some :
        (now : ℕ) (o : Option (Entry B)) (e : Entry B) → kept expiry now o ≡ some e → o ≡ some e
    kept-some now none e h = h
    kept-some now (some f) e h = elim (Bool-cases (ltb (f.last_access + expiry) now)) [
      | inl idle ↦ absurd (ground (arith, rw (idle) at h))
      | inr recent ↦ rw (recent) at h
    ]

    IsLike-tick :
        (clock now : ℕ) (l m : Limiter B)
        → IsLike clock l m
        → clock ≤ now
        → IsLike now (cleanup expiry now l) m
    unfolding cleanup
    IsLike-tick clock now l m v le = record {
      stopped = v.stopped;
      same = λ key t later.
          kept-tokens now t (l.limiters key) (v.used key) later
          ∙ v.same key t (omega (arith, le, later));
      used = λ key e there. v.used key e (kept-some now (l.limiters key) e there);
    }

    -- The limiter with the entry of a request, and what that entry is.
    abbrev entry_after : (now key n : ℕ) → Limiter B → Entry B
    entry_after now key n l = record {
      limiter = (bucket.allow_n now n (limiter_or_new bucket (l.limiters key))).1;
      last_access = now;
    }

    abbrev with_entry : (now key n : ℕ) → Limiter B → Limiter B
    with_entry now key n l = record l {
      limiters = λ k. if k == key then some (entry_after now key n l) else l.limiters k;
    }

    -- Buckets that have the same at a request have the same after it.
    allow_n-tokens :
        (now n t : ℕ) (x y : B)
        → law.tokens now x ≡ law.tokens now y
        → now ≤ t
        → law.tokens t (bucket.allow_n now n x).1 ≡ law.tokens t (bucket.allow_n now n y).1
    allow_n-tokens now n t x y same le =
        law.refilled now n t x le
        ∙ ap (λ h. capped size ((if leb (n * unit) h then h - n * unit else h) + rate * (t - now)))
            same
        ∙ sym (law.refilled now n t y le)

    IsLike-with_entry :
        (clock now key n : ℕ) (l m : Limiter B)
        → IsLike clock l m
        → clock ≤ now
        → IsLike now (with_entry now key n l) (with_entry now key n m)
    IsLike-with_entry clock now key n l m v le = record {
      stopped = v.stopped;
      same = λ k t later. elim (Bool-cases (k == key)) [
        | inl at_key ↦ rw (at_key) (
            allow_n-tokens now n t (limiter_or_new bucket (l.limiters key))
              (limiter_or_new bucket (m.limiters key)) (v.same key now le) later)
        | inr other ↦ rw (other) (v.same k t (omega (arith, le, later)))
      ];
      used = λ k e there. elim (Bool-cases (k == key)) [
        | inl at_key ↦
            subst IsUsed (ap (λ o. entry_or (entry_after now key n l) o) (rw (at_key) at there))
              (limiter_or_new bucket (l.limiters key), n, refl)
        | inr other ↦ v.used k e (rw (other) at there)
      ];
    }

    request_by :
        (now key n : ℕ) (l : Limiter B) (b : Bool)
        → l.stopped ≡ b
        → allow_key_n bucket now key n l ≡ (
            if b then (false, l) else (
              (bucket.allow_n now n (limiter_or_new bucket (l.limiters key))).0,
              with_entry now key n l,
            ))
    unfolding allow_key_n
    request_by now key n l b h =
        ap
          (λ x. if x then (false, l) else (
            (bucket.allow_n now n (limiter_or_new bucket (l.limiters key))).0,
            with_entry now key n l,
          ))
          h

    -- A request is answered the same way, and what is left is alike.
    abbrev AreAlike : ℕ → Bool × Limiter B → Bool × Limiter B → Type ℓ
    AreAlike now x y = (x.0 ≡ y.0) × IsLike now x.1 y.1

    request-same :
        (clock now key n : ℕ) (l m : Limiter B)
        → IsLike clock l m
        → clock ≤ now
        → AreAlike now (allow_key_n bucket now key n l) (allow_key_n bucket now key n m)
    request-same clock now key n l m v le = elim (Bool-cases m.stopped) [
      | inl down ↦
          subst (λ x. AreAlike now x (allow_key_n bucket now key n m))
            (sym (request_by now key n l true (v.stopped ∙ down)))
            (subst (AreAlike now (false, l)) (sym (request_by now key n m true down))
              (refl, IsLike-later clock now l m v le))
      | inr up ↦
          subst (λ x. AreAlike now x (allow_key_n bucket now key n m))
            (sym (request_by now key n l false (v.stopped ∙ up)))
            (subst
              (AreAlike now (
                (bucket.allow_n now n (limiter_or_new bucket (l.limiters key))).0,
                with_entry now key n l,
              ))
              (sym (request_by now key n m false up))
              (
                law.gives now n (limiter_or_new bucket (l.limiters key))
                    ∙ ap (leb (n * unit)) (v.same key now le)
                    ∙ sym (law.gives now n (limiter_or_new bucket (m.limiters key))),
                IsLike-with_entry clock now key n l m v le,
              ))
    ]

    answers-same :
        (actions : List Action) (clock : ℕ) (l m : Limiter B)
        → IsOrdered clock actions
        → IsLike clock l m
        → answers actions l ≡ answers_kept actions m
    unfolding answers answers_kept
    answers-same [] clock l m ordered v = refl
    answers-same (tick now ∷ rest) clock l m (le, ordered) v =
        answers-same rest now (cleanup expiry now l) m ordered (IsLike-tick clock now l m v le)
    answers-same (request now key n ∷ rest) clock l m (le, ordered) v =
        let (same, like) = request-same clock now key n l m v le in
        rw same (
          ap (λ xs. (allow_key_n bucket now key n m).0 ∷ xs)
            (answers-same rest now _ _ ordered like))

    -- On a new limiter, requests whose times do not go back are answered as if idle entries were
    -- never dropped, whenever the cleanup runs, if the buckets are token buckets of which
    -- an empty one is full again after the expiry.
    pub answers-cleanup :
        (actions : List Action) (g : B)
        → IsOrdered 0 actions
        → answers actions (new_limiter g) ≡ answers_kept actions (new_limiter g)
    answers-cleanup actions g ordered =
        answers-same actions 0 (new_limiter g) (new_limiter g) ordered (record {
          stopped = refl;
          same = λ key t later. refl;
          used = λ key e absurd_there. ground arith;
        })
