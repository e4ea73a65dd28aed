-- ===== src/Channel/Steps.antt =====
-- Runs of Subscribe and Unsubscribe.
use lesser.Common.{ℕ, suc, ◌≡◌, Bool, false}
use lesser.Db.{Store}
use lesser.Channel.{Tables}
use lesser.Channel.Service.{subscribe, unsubscribe}
use lesser.Channel.Subscribers.{IsCounted, subscribe-IsCounted, unsubscribe-IsCounted}

-- A call in which the update of the counter, which runs outside a transaction, does not fail; the
-- statements before it may.
pub data Step : Store Tables → Store Tables → Type 0 where
  subscribe_step :
      (fails : ℕ → Bool) (c u : ℕ) (s : Store Tables)
      → fails (suc (suc (suc s.statements))) ≡ false
      → Step s (subscribe fails c u s).1
  unsubscribe_step :
      (fails : ℕ → Bool) (c u : ℕ) (s : Store Tables)
      → fails (suc s.statements) ≡ false
      → Step s (unsubscribe fails c u s).1

pub data Reach (s : Store Tables) : Store Tables → Type 0 where
  here : Reach s s
  next : {t u : Store Tables} → Reach s t → Step t u → Reach s u

-- Over any run of Subscribe and Unsubscribe in which the updates of the counters do not fail and other
-- statements may: if at the start the counter of every channel that is not deleted is its number of
-- subscriptions and no subscription has two rows, then so it is at the end.
pub Reach-IsCounted : {s t : Store Tables} → Reach s t → IsCounted s.tables → IsCounted t.tables
Reach-IsCounted here v = v
Reach-IsCounted (next run (subscribe_step fails c u s up)) v =
    subscribe-IsCounted fails c u s (Reach-IsCounted run v) up
Reach-IsCounted (next run (unsubscribe_step fails c u s up)) v =
    unsubscribe-IsCounted fails c u s (Reach-IsCounted run v) up
