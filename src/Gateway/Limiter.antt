-- ===== src/Gateway/Limiter.antt =====
-- The limiter, service/gateway/internal/ratelimit/limiter.go.
use lesser.Common.{
  ℕ, ◌+◌, ◌-◌, ◌*◌, ◌≤◌, ◌≡◌, leb, Bool, true, false, Option, none, some, ◌==◌, ltb, if◌then◌else◌,
}

-- The token bucket of golang.org/x/time/rate: a new one, and what `AllowN` at a time answers and makes
-- of it.
pub record Bucket {ℓ} (B : Type ℓ) : Type ℓ where
  pub new_bucket : B
  pub allow_n : (now n : ℕ) → B → Bool × B

abbrev pub capped : (cap n : ℕ) → ℕ
capped cap n = if leb n cap then n else cap

-- What golang.org/x/time/rate documents of a limiter: a bucket of tokens that is full at first, is
-- refilled at a rate up to its size, and gives `n` tokens or, when it has fewer, none. `tokens`
-- counts what a bucket has at a time, in parts of which a token has `unit`; `size` and `rate`, which
-- is for a unit of time, are in these parts too.
pub record IsTokenBucket {ℓ} {B : Type ℓ} (bucket : Bucket B) (unit size rate : ℕ) : Type ℓ where
  pub tokens : ℕ → B → ℕ
  pub full : (t : ℕ) → tokens t bucket.new_bucket ≡ size
  pub gives : (now n : ℕ) (b : B) → (bucket.allow_n now n b).0 ≡ leb (n * unit) (tokens now b)
  pub refilled :
      (now n t : ℕ) (b : B)
      → now ≤ t
      → tokens t (bucket.allow_n now n b).1
        ≡ capped size (
            (if leb (n * unit) (tokens now b) then tokens now b - n * unit else tokens now b)
            + rate * (t - now))

pub record Entry {ℓ} (B : Type ℓ) : Type ℓ where
  pub limiter : B
  pub last_access : ℕ

-- `limiters` is the map from the keys.
pub record Limiter {ℓ} (B : Type ℓ) : Type ℓ where
  pub global : B
  pub limiters : ℕ → Option (Entry B)
  pub stopped : Bool

-- The limiter as NewLimiter makes it.
abbrev pub new_limiter {ℓ} : {B : Type ℓ} → B → Limiter B
new_limiter g = record { global = g; limiters = λ _. none; stopped = false }

module _ {ℓ} {B : Type ℓ} (bucket : Bucket B) where
  abbrev pub allow : ℕ → Limiter B → Bool × Limiter B
  allow now l =
      if l.stopped
      then (false, l)
      else (let (b, g) = bucket.allow_n now 1 l.global in (b, record l { global = g }))

  -- The limiter of the key, or a new one.
  abbrev pub limiter_or_new : Option (Entry B) → B
  limiter_or_new none = bucket.new_bucket
  limiter_or_new (some e) = e.limiter

  -- The entry is found or made, and its time set; the bucket that it holds then answers.
  unfoldable pub allow_key_n : (now key n : ℕ) → Limiter B → Bool × Limiter B
  allow_key_n now key n l =
      if l.stopped
      then (false, l)
      else (let (b, next) = bucket.allow_n now n (limiter_or_new (l.limiters key)) in
          (
            b,
            record l {
              limiters = λ k.
                  if k == key
                  then some (record { limiter = next; last_access = now })
                  else l.limiters k;
            },
          ))

  abbrev pub allow_key : (now key : ℕ) → Limiter B → Bool × Limiter B
  allow_key now key = allow_key_n now key 1

-- Dropping the entries that were not used since `expiry` before now.
module _ {ℓ} {B : Type ℓ} (expiry : ℕ) where
  abbrev pub kept : ℕ → Option (Entry B) → Option (Entry B)
  kept now none = none
  kept now (some e) = if ltb (e.last_access + expiry) now then none else some e

  unfoldable pub cleanup : ℕ → Limiter B → Limiter B
  cleanup now l = record l { limiters = λ k. kept now (l.limiters k) }

abbrev pub stop {ℓ} : {B : Type ℓ} → Limiter B → Limiter B
stop l = record l { stopped = true }
