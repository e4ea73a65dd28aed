-- ===== src/Streams/Posts.antt =====
-- Runs of the channel service's manager.
use lesser.Common.{ℕ, ◌≡◌, refl, Bool, true, some, arith, Option-cases, inl, inr}
use lesser.Streams.{Hub}
use lesser.Streams.Updates.{
  ServerEvent, ClientEvent, State, connect, disconnect, handle_client_event, deliver, close_old,
  broadcast_new_post, broadcast_post_deleted, receive_update,
}
use lesser.Streams.Safety.{
  IsOrderly, leave-stays, changed-IsOrderly, like-IsOrderly, register-IsOrderly, other_client,
}

-- A handler begins, ends or takes an event, a post is made or deleted, a goroutine makes its send, or
-- an update comes out of Redis.
pub data Step : State → State → Type 0 where
  connect_step : (u : ℕ) (s : State) → Step s (record s { hub = connect u s.hub })
  disconnect_step :
      (c : ℕ) (s : State)
      → (s.hub.connections c).is_live ≡ true
      → Step s (record s { hub = disconnect c s.hub })
  event_step :
      (up : Bool) (c : ℕ) (e : ClientEvent) (s : State)
      → (s.hub.connections c).is_live ≡ true
      → Step s (record s { hub = handle_client_event up c e s.hub })
  post_step :
      (reached : ℕ → Bool) (channel post : ℕ) (s : State)
      → Step s (broadcast_new_post reached channel post s)
  delete_step :
      (reached : ℕ → Bool) (channel post : ℕ) (s : State)
      → Step s (broadcast_post_deleted reached channel post s)
  deliver_step : (up : Bool) (i : ℕ) (s : State) → Step s (record s { hub = deliver up i s.hub })
  receive_step : (up late : Bool) (i : ℕ) (s : State) → Step s (receive_update up late i s)

pub data Reach (s : State) : State → Type 0 where
  here : Reach s s
  next : {t u : State} → Reach s t → Step t u → Reach s u

connect-IsOrderly : (u : ℕ) (h : Hub ServerEvent) → IsOrderly h → IsOrderly (connect u h)
unfolding connect
connect-IsOrderly u h v = elim (Option-cases (h.clients u)) [
  | inl e ↦ rw (e) (register-IsOrderly h h v u v.calm refl (λ w. refl) (λ w d f other. refl))
  | inr (old, e) ↦
      let done = v.not_done u old e in
      rw (e) (
        register-IsOrderly h (close_old (some old) h) v u (ground (arith, done, v.calm)) refl
          (λ w. refl) (λ w d f other. ground (arith, other_client h v u w old d e f other)))
]

-- What is neither an arrival nor a leaving touches subscriptions and sends only.
module _ (s : State) (v : IsOrderly s.hub) where
  event-IsOrderly :
      (up : Bool) (c : ℕ) (e : ClientEvent) → IsOrderly (handle_client_event up c e s.hub)
  unfolding handle_client_event
  event-IsOrderly up c e =
      like-IsOrderly s.hub (handle_client_event up c e s.hub) v (ground arith) (ground arith)
        (λ u. ground arith) (λ d. ground arith) (λ d. ground arith) (λ d. ground arith)

  deliver-IsOrderly : (up : Bool) (i : ℕ) → IsOrderly (deliver up i s.hub)
  unfolding deliver
  deliver-IsOrderly up i =
      like-IsOrderly s.hub (deliver up i s.hub) v (ground arith) (ground arith) (λ u. ground arith)
        (λ d. ground arith) (λ d. ground arith) (λ d. ground arith)

  receive-IsOrderly : (up late : Bool) (i : ℕ) → IsOrderly (receive_update up late i s).hub
  unfolding receive_update
  receive-IsOrderly up late i =
      like-IsOrderly s.hub (receive_update up late i s).hub v (ground arith) (ground arith)
        (λ u. ground arith) (λ d. ground arith) (λ d. ground arith) (λ d. ground arith)

  post-IsOrderly : (reached : ℕ → Bool) (n p : ℕ) → IsOrderly (broadcast_new_post reached n p s).hub
  unfolding broadcast_new_post
  post-IsOrderly reached n p =
      like-IsOrderly s.hub (broadcast_new_post reached n p s).hub v (ground arith) (ground arith)
        (λ u. ground arith) (λ d. ground arith) (λ d. ground arith) (λ d. ground arith)

  delete-IsOrderly :
      (reached : ℕ → Bool) (n p : ℕ) → IsOrderly (broadcast_post_deleted reached n p s).hub
  unfolding broadcast_post_deleted
  delete-IsOrderly reached n p =
      like-IsOrderly s.hub (broadcast_post_deleted reached n p s).hub v (ground arith)
        (ground arith) (λ u. ground arith) (λ d. ground arith) (λ d. ground arith)
        (λ d. ground arith)

disconnect-IsOrderly : (c : ℕ) (h : Hub ServerEvent) → IsOrderly h → IsOrderly (disconnect c h)
unfolding disconnect
disconnect-IsOrderly c h v =
    changed-IsOrderly h (disconnect c h) v c v.calm (omega arith) (λ d other. ground (arith, other))
      (leave-stays h v c)

Step-IsOrderly : {s t : State} → Step s t → IsOrderly s.hub → IsOrderly t.hub
Step-IsOrderly (connect_step u s) v = connect-IsOrderly u s.hub v
Step-IsOrderly (disconnect_step c s live) v = disconnect-IsOrderly c s.hub v
Step-IsOrderly (event_step up c e s live) v = event-IsOrderly s v up c e
Step-IsOrderly (post_step reached n p s) v = post-IsOrderly s v reached n p
Step-IsOrderly (delete_step reached n p s) v = delete-IsOrderly s v reached n p
Step-IsOrderly (deliver_step up i s) v = deliver-IsOrderly s v up i
Step-IsOrderly (receive_step up late i s) v = receive-IsOrderly s v up late i

-- In every run of the channel service's streams: if at the start every client of the map has arrived,
-- is its user's and is not done, and no closed channel has been closed, then so it is at the end. The
-- code has no flag against closing twice here, and needs none.
pub Reach-IsOrderly : {s t : State} → Reach s t → IsOrderly s.hub → IsOrderly t.hub
Reach-IsOrderly here v = v
Reach-IsOrderly (next run step) v = Step-IsOrderly step (Reach-IsOrderly run v)
