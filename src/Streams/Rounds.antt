-- ===== src/Streams/Rounds.antt =====
-- Runs of the chat service's manager, its handlers and goroutines interleaved in any way.
use lesser.Common.{ℕ, ◌<◌, ◌≡◌, refl, Bool, true, some, arith, Option-cases, inl, inr}
use lesser.Streams.{Hub}
use lesser.Streams.Talks.{
  ServerEvent, ClientEvent, State, connect, disconnect, handle_client_event, handle_send_message,
  deliver, close_old,
}
use lesser.Streams.Safety.{
  IsOrderly, leave-stays, changed-IsOrderly, like-IsOrderly, register-IsOrderly, other_client,
}

-- A handler begins, ends or takes an event, or a goroutine makes its send.
pub data Step : State → State → Type 0 where
  connect_step : (u : ℕ) (s : State) → Step s (record s { hub = connect u s.hub })
  disconnect_step :
      (c : ℕ) (s : State)
      → (s.hub.connections c).is_live ≡ true
      → Step s (record s { hub = disconnect c s.hub })
  event_step :
      (fails : ℕ → Bool) (is_uuid : ℕ → Bool) (cached : Bool) (now fresh : ℕ) (up : Bool) (c : ℕ)
      (e : ClientEvent) (s : State)
      → c < s.hub.next
      → (s.hub.connections c).is_live ≡ true
      → Step s (handle_client_event fails is_uuid cached now fresh up c e s)
  deliver_step : (up : Bool) (i : ℕ) (s : State) → Step s (record s { hub = deliver up i s.hub })

pub data Reach (s : State) : State → Type 0 where
  here : Reach s s
  next : {t u : State} → Reach s t → Step t u → Reach s u

connect-IsOrderly : (u : ℕ) (h : Hub ServerEvent) → IsOrderly h → IsOrderly (connect u h)
unfolding connect
connect-IsOrderly u h v = elim (Option-cases (h.clients u)) [
  | inl e ↦ rw (e) (register-IsOrderly h h v u v.calm refl (λ w. refl) (λ w d f other. refl))
  | inr (old, e) ↦
      let closed = v.not_closed u old e in
      let done = v.not_done u old e in
      rw (e) (
        register-IsOrderly h (close_old (some old) h) v u (ground (arith, closed, done, v.calm))
          (ground (arith, closed)) (λ w. ground (arith, closed))
          (λ w d f other. ground (arith, closed, other_client h v u w old d e f other)))
]

disconnect-IsOrderly : (c : ℕ) (h : Hub ServerEvent) → IsOrderly h → IsOrderly (disconnect c h)
unfolding disconnect
disconnect-IsOrderly c h v =
    changed-IsOrderly h (disconnect c h) v c v.calm (omega arith) (λ d other. ground (arith, other))
      (leave-stays h v c)

-- The events change subscriptions and start sends.
event-IsOrderly :
    (fails : ℕ → Bool) (is_uuid : ℕ → Bool) (cached : Bool) (now fresh : ℕ) (up : Bool) (c : ℕ)
    (e : ClientEvent) (s : State)
    → IsOrderly s.hub
    → IsOrderly (handle_client_event fails is_uuid cached now fresh up c e s).hub
unfolding handle_client_event handle_send_message
event-IsOrderly fails is_uuid cached now fresh up c e s v =
    like-IsOrderly s.hub (handle_client_event fails is_uuid cached now fresh up c e s).hub v
      (ground arith) (ground arith) (λ u. ground arith) (λ d. ground arith) (λ d. ground arith)
      (λ d. ground arith)

deliver-IsOrderly :
    (up : Bool) (i : ℕ) (h : Hub ServerEvent) → IsOrderly h → IsOrderly (deliver up i h)
unfolding deliver
deliver-IsOrderly up i h v =
    like-IsOrderly h (deliver up i h) v (ground arith) (ground arith) (λ u. ground arith)
      (λ u. ground arith) (λ u. ground arith) (λ u. ground arith)

Step-IsOrderly : {s t : State} → Step s t → IsOrderly s.hub → IsOrderly t.hub
Step-IsOrderly (connect_step u s) v = connect-IsOrderly u s.hub v
Step-IsOrderly (disconnect_step c s live) v = disconnect-IsOrderly c s.hub v
Step-IsOrderly (event_step fails is_uuid cached now fresh up c e s arrived live) v =
    event-IsOrderly fails is_uuid cached now fresh up c e s v
Step-IsOrderly (deliver_step up i s) v = deliver-IsOrderly up i s.hub v

-- In every run of the chat service's streams, where users connect, take the place of their older
-- connections, send events and leave in any order, and the goroutines make their sends at any time:
-- if at the start every client of the map has arrived, is its user's and is neither done nor closed,
-- and no closed channel has been closed, then so it is at the end.
pub Reach-IsOrderly : {s t : State} → Reach s t → IsOrderly s.hub → IsOrderly t.hub
Reach-IsOrderly here v = v
Reach-IsOrderly (next run step) v = Step-IsOrderly step (Reach-IsOrderly run v)
