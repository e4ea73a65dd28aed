-- ===== src/Streams/Updates.antt =====
-- The stream manager of the channel service, service/channel/internal/handler/stream.go. A post is its
-- identifier. `reached` tells which connections' goroutines an update comes to through Redis: none
-- when there is no client of Redis or Publish fails, and only those whose subscription has begun.
use lesser.Common.{
  ℕ, Bool, true, false, ◌&&◌, not, ◌||◌, filter, Option, none, some, List, map, ◌++◌, if◌then◌else◌,
}
use lesser.Streams.{
  Hub, arrivals, broadcast, close_done, register, leave, set_subscription, send, nth, without,
}

pub data UpdateType : Type 0 where
  new_post post_deleted channel_updated : UpdateType

pub record ChannelUpdate : Type 0 where
  pub type : UpdateType
  pub channel_id : ℕ
  pub post : Option ℕ

pub data ServerEvent : Type 0 where
  subscribed unsubscribed : ℕ → ServerEvent
  pong : ServerEvent
  new_post_event : ℕ → ServerEvent
  post_deleted_event : (channel post : ℕ) → ServerEvent
  channel_updated_event : ServerEvent
  error : ServerEvent

pub data ClientEvent : Type 0 where
  subscribe unsubscribe : ℕ → ClientEvent
  ping : ClientEvent

-- What is on its way in Redis: an update, and the connection whose goroutine it comes to.
pub record State : Type 0 where
  pub hub : Hub ServerEvent
  pub updates : List (ℕ × ChannelUpdate)

abbrev pub close_old : Option ℕ → Hub ServerEvent → Hub ServerEvent
close_old none h = h
close_old (some old) h = close_done old h

unfoldable pub connect : ℕ → Hub ServerEvent → Hub ServerEvent
connect u h = register u (close_old (h.clients u) h)

unfoldable pub disconnect : ℕ → Hub ServerEvent → Hub ServerEvent
disconnect c h = leave c h

-- A send that fails is an error, which the loop answers with another event.
abbrev pub acknowledge : Bool → ℕ → ServerEvent → Hub ServerEvent → Hub ServerEvent
acknowledge up c e h = if up then send up c e h else send up c error h

-- The loop has returned once `done` is closed.
unfoldable pub handle_client_event : Bool → ℕ → ClientEvent → Hub ServerEvent → Hub ServerEvent
handle_client_event up c (subscribe channel) h =
    acknowledge up c (subscribed channel) (set_subscription c channel true h)
handle_client_event up c (unsubscribe channel) h =
    acknowledge up c (unsubscribed channel) (set_subscription c channel false h)
handle_client_event up c ping h = acknowledge up c pong h

abbrev pub send_by_type : Bool → ℕ → UpdateType → ℕ → Option ℕ → Hub ServerEvent → Hub ServerEvent
send_by_type up c new_post n (some p) h = send up c (new_post_event p) h
send_by_type up c new_post n none h = h
send_by_type up c post_deleted n (some p) h = send up c (post_deleted_event n p) h
send_by_type up c post_deleted n none h = h
send_by_type up c channel_updated n p h = send up c channel_updated_event h

abbrev pub send_update_to_client : Bool → ℕ → ChannelUpdate → Hub ServerEvent → Hub ServerEvent
send_update_to_client up c u h = send_by_type up c u.type u.channel_id u.post h

-- A connection may be reached while it is not done, whether or not its handler still runs. An error
-- of Publish is only logged.
abbrev pub publish : (reached : ℕ → Bool) → ChannelUpdate → State → State
publish reached u s = record s {
  updates =
      map (λ c. (c, u))
        (filter (λ c. not (s.hub.connections c).is_done && reached c) (arrivals s.hub.next))
      ++ s.updates;
}

unfoldable pub broadcast_new_post : (reached : ℕ → Bool) → (channel post : ℕ) → State → State
broadcast_new_post reached n p s =
    let t = publish reached (record { type = new_post; channel_id = n; post = some p }) s in
    record t { hub = broadcast (λ k. k.subscriptions n) (new_post_event p) t.hub }

unfoldable pub broadcast_post_deleted : (reached : ℕ → Bool) → (channel post : ℕ) → State → State
broadcast_post_deleted reached n p s =
    let t = publish reached (record { type = post_deleted; channel_id = n; post = some p }) s in
    record t { hub = broadcast (λ k. k.subscriptions n) (post_deleted_event n p) t.hub }

-- One update comes out of Redis. When the connection is done as well, `late` tells which of the two
-- the goroutine meets first.
abbrev pub receive : Bool → Bool → Option (ℕ × ChannelUpdate) → Hub ServerEvent → Hub ServerEvent
receive up late none h = h
receive up late (some (c, u)) h =
    if (not (h.connections c).is_done || late) && (h.connections c).subscriptions u.channel_id
    then send_update_to_client up c u h
    else h

unfoldable pub receive_update : Bool → Bool → ℕ → State → State
receive_update up late i s = record {
  hub = receive up late (nth i s.updates) s.hub;
  updates = without i s.updates;
}

-- A goroutine makes its send.
abbrev pub run_send : Bool → ℕ → Option (ℕ × ServerEvent) → Hub ServerEvent → Hub ServerEvent
run_send up i none h = h
run_send up i (some (c, e)) h = send up c e (record h { pending = without i h.pending })

unfoldable pub deliver : Bool → ℕ → Hub ServerEvent → Hub ServerEvent
deliver up i h = run_send up i (nth i h.pending) h
