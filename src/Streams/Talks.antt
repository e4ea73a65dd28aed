-- ===== src/Streams/Talks.antt =====
-- The stream manager of the chat service, service/chat/internal/handler/stream.go. `up` tells whether
-- the stream that is written to is up, and `is_uuid` is uuid.Parse, which the texts of requests go
-- through.
use lesser.Common.{ℕ, Bool, true, false, ◌&&◌, not, Option, none, some, List, ◌==◌, if◌then◌else◌}
use lesser.Common.Text.{Text}
use lesser.Db.{Store, Result, ok, err}
use lesser.Chat.{Message, MessageType, Tables, Error}
use lesser.Chat.Service.{send_message}
use lesser.Streams.{
  Hub, set_at, broadcast, close_done, register, leave, set_subscription, send, nth, without,
}

pub data Code : Type 0 where
  internal_error invalid_conversation_id invalid_user_id send_failed : Code

pub data ServerEvent : Type 0 where
  subscribed unsubscribed : ℕ → ServerEvent
  pong : ServerEvent
  message_sent : (client_message_id : ℕ) → Message → ServerEvent
  new_message : Message → ServerEvent
  typing_indicator : (conversation user : ℕ) → Bool → ServerEvent
  message_read : (conversation reader : ℕ) → List ℕ → ServerEvent
  error : Code → ServerEvent

pub data ClientEvent : Type 0 where
  subscribe unsubscribe : ℕ → ClientEvent
  send_event : (conversation : ℕ) → Text → MessageType → (client_message_id : ℕ) → ClientEvent
  ping : ClientEvent
  typing : ℕ → Bool → ClientEvent

-- CompareAndSwap on the flag, and then the close.
abbrev pub close_old : Option ℕ → Hub ServerEvent → Hub ServerEvent
close_old none h = h
close_old (some old) h =
    if (h.connections old).is_closed
    then h
    else close_done old (record h {
      connections = set_at old (record (h.connections old) { is_closed = true }) h.connections;
    })

unfoldable pub connect : ℕ → Hub ServerEvent → Hub ServerEvent
connect u h = register u (close_old (h.clients u) h)

unfoldable pub disconnect : ℕ → Hub ServerEvent → Hub ServerEvent
disconnect c h =
    let g = leave c h in
    record g {
      connections = set_at c (record (g.connections c) { is_closed = true }) g.connections;
    }

abbrev pub send_error : Bool → ℕ → Code → Hub ServerEvent → Hub ServerEvent
send_error up c code h = if (h.connections c).is_closed then h else send up c (error code) h

abbrev pub broadcast_new_message : ℕ → Message → (excluded : ℕ) → Hub ServerEvent → Hub ServerEvent
broadcast_new_message room m excluded h =
    broadcast (λ k. not (k.user == excluded) && k.subscriptions room) (new_message m) h

abbrev pub broadcast_typing : (room user : ℕ) → Bool → Hub ServerEvent → Hub ServerEvent
broadcast_typing room u is_typing h =
    broadcast (λ k. not (k.user == u) && k.subscriptions room) (typing_indicator room u is_typing) h

abbrev pub broadcast_message_read : (room reader : ℕ) → List ℕ → Hub ServerEvent → Hub ServerEvent
broadcast_message_read room reader ids h =
    broadcast (λ k. k.subscriptions room) (message_read room reader ids) h

-- A send that fails is an error of the handler, which the loop answers with another event.
abbrev pub acknowledge : Bool → ℕ → ServerEvent → Hub ServerEvent → Hub ServerEvent
acknowledge up c e h = if up then send up c e h else send_error up c internal_error h

pub record State : Type 0 where
  pub hub : Hub ServerEvent
  pub store : Store Tables

-- The logic has been asked to send: its answer goes to the sender, and the message to the others.
abbrev pub answer_sent :
    Bool → (c room client_message_id : ℕ) → Result Error Message × Store Tables → State → State
answer_sent up c room id (err e, t) s = record {
  hub = send_error up c send_failed s.hub;
  store = t;
}
answer_sent up c room id (ok m, t) s = record {
  hub =
      broadcast_new_message room m (s.hub.connections c).user (send up c (message_sent id m) s.hub);
  store = t;
}

module _ (fails : ℕ → Bool) (is_uuid : ℕ → Bool) (cached : Bool) (now fresh : ℕ) (up : Bool) where
  unfoldable pub handle_send_message : (c room : ℕ) → Text → MessageType → ℕ → State → State
  handle_send_message c room content type id s =
      if not (is_uuid room)
      then record s { hub = send_error up c invalid_conversation_id s.hub }
      else if not (is_uuid (s.hub.connections c).user)
      then record s { hub = send_error up c invalid_user_id s.hub }
      else answer_sent up c room id
          (send_message fails cached now fresh
            record {
              conversation_id = room;
              sender_id = (s.hub.connections c).user;
              content = content;
              message_type = type;
            }
            s.store)
          s

  unfoldable pub handle_client_event : ℕ → ClientEvent → State → State
  handle_client_event c (subscribe room) s = record s {
    hub = acknowledge up c (subscribed room) (set_subscription c room true s.hub);
  }
  handle_client_event c (unsubscribe room) s = record s {
    hub = acknowledge up c (unsubscribed room) (set_subscription c room false s.hub);
  }
  handle_client_event c (send_event room content type id) s =
      handle_send_message c room content type id s
  handle_client_event c ping s = record s { hub = acknowledge up c pong s.hub }
  handle_client_event c (typing room is_typing) s = record s {
    hub = broadcast_typing room (s.hub.connections c).user is_typing s.hub;
  }

-- A goroutine makes its send, unless the connection has been closed.
abbrev pub run_send : Bool → ℕ → Option (ℕ × ServerEvent) → Hub ServerEvent → Hub ServerEvent
run_send up i none h = h
run_send up i (some (c, e)) h =
    let g = record h { pending = without i h.pending } in
    if (h.connections c).is_closed then g else send up c e g

unfoldable pub deliver : Bool → ℕ → Hub ServerEvent → Hub ServerEvent
deliver up i h = run_send up i (nth i h.pending) h
