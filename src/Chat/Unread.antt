-- ===== src/Chat/Unread.antt =====
-- The cache of the unread counters, service/chat/internal/logic/unread_cache.go. A key in Redis does
-- not expire here.
use lesser.Common.{ℕ, suc, Bool, true, false, ◌&&◌, Option, none, some, ◌==◌, if◌then◌else◌}
use lesser.Db.{ok, err, Exec, pure, ◌>>=◌, ◌>>◌, branch, ignore, query, exec}
use lesser.Chat.{Tables, Error}
use lesser.Chat.Statements.{unread_rows}

-- `if err == nil { … } else { … }`
abbrev pub recover {ℓ κ} :
    {A : Type ℓ} {B : Type κ}
    → Exec Error Tables A
    → (A → Exec Error Tables B)
    → Exec Error Tables B
    → Exec Error Tables B
recover m f g s = let (r, t) = m s in elim r [ ok a ↦ f a t | err e ↦ g t ]

abbrev pub set_unread : (u c n : ℕ) → Tables → Tables
set_unread u c n t = record t { unread = λ v d. if v == u && d == c then some n else t.unread v d }

-- What INCR makes of a key.
abbrev pub bumped : Option ℕ → ℕ
bumped none = 1
bumped (some n) = suc n

abbrev pub is_cached : Option ℕ → Bool
is_cached none = false
is_cached (some n) = true

module _ (fails : ℕ → Bool) where
  -- GetUnreadCount of the data access.
  abbrev pub rows_count : (u c : ℕ) → Exec Error Tables ℕ
  rows_count u c = query fails (λ t. unread_rows c u t.members t.messages)

  abbrev pub or_load : (u c : ℕ) → Option ℕ → Exec Error Tables ℕ
  or_load u c (some n) = pure n
  or_load u c none = do
    count ← rows_count u c
    ignore (exec fails (set_unread u c count))
    pure count

  unfoldable pub cached_count : (u c : ℕ) → Exec Error Tables ℕ
  cached_count u c = recover (query fails (λ t. t.unread u c)) (or_load u c) (rows_count u c)

  unfoldable pub increment_unread_count : (u c : ℕ) → Exec Error Tables (Unit {0})
  increment_unread_count u c = do
    exists ← query fails (λ t. is_cached (t.unread u c))
    branch exists (exec fails (λ t. set_unread u c (bumped (t.unread u c)) t))
        do count ← rows_count u c; exec fails (set_unread u c count)

  abbrev pub reset_unread_count : (u c : ℕ) → Exec Error Tables (Unit {0})
  reset_unread_count u c = exec fails (set_unread u c 0)

  abbrev pub invalidate_cache : (u c : ℕ) → Exec Error Tables (Unit {0})
  invalidate_cache u c =
      exec fails (λ t. record t { unread = λ v d. if v == u && d == c then none else t.unread v d })
