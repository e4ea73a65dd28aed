-- ===== src/Streams/Recipients.antt =====
-- Who gets what is broadcast.
use lesser.Common.{
  ℕ, ◌+◌, ◌≡◌, ◌==◌, ltb, Bool, true, false, ◌&&◌, not, List, count_by, arith, if◌then◌else◌,
}
use lesser.Common.Text.{Text}
use lesser.Db.{Store, Result, ok, err}
use lesser.Chat.{Message, MessageType, Tables, Error}
use lesser.Chat.Service.{send_message}
use lesser.Streams.{is_registered, send}
use lesser.Streams.Talks
use lesser.Streams.Safety.{broadcast-count}

-- The sends of a list that go to a connection.
abbrev pub sends_to {ℓ} : {E : Type ℓ} → ℕ → List (ℕ × E) → ℕ
sends_to c ps = count_by (λ p. p.0 == c) ps

answer-count :
    (up : Bool) (c room id d : ℕ) (m : Message) (r : Result Error Message) (t : Store Tables)
    (s : Talks.State)
    → r ≡ ok m
    → sends_to d (Talks.answer_sent up c room id (r, t) s).hub.pending
      ≡ (if ltb d s.hub.next
            && (is_registered d s.hub
                && (not ((s.hub.connections d).user == (s.hub.connections c).user)
                    && (s.hub.connections d).subscriptions room))
          then 1
          else 0)
        + sends_to d s.hub.pending
answer-count true c room id d m (ok x) t s e =
    broadcast-count d (λ k. not (k.user == (s.hub.connections c).user) && k.subscriptions room) _
      (send true c (Talks.message_sent id x) s.hub)
answer-count false c room id d m (ok x) t s e =
    broadcast-count d (λ k. not (k.user == (s.hub.connections c).user) && k.subscriptions room) _
      s.hub
answer-count up c room id d m (err e) t s h = ground (arith, h)

-- When the logic returns the message of an event, the handler starts one more send to each connection
-- that is its user's client, is not the sender's and has subscribed to the conversation, and none to
-- any other.
pub handle_send_message-reaches :
    (fails is_uuid : ℕ → Bool) (cached : Bool) (now fresh : ℕ) (up : Bool) (c room : ℕ)
    (content : Text) (type : MessageType) (id : ℕ) (s : Talks.State) (m : Message)
    → is_uuid room ≡ true
    → is_uuid (s.hub.connections c).user ≡ true
    → (send_message fails cached now fresh
        record {
          conversation_id = room;
          sender_id = (s.hub.connections c).user;
          content = content;
          message_type = type;
        }
        s.store).0
      ≡ ok m
    → (d : ℕ)
    → sends_to d
        (Talks.handle_send_message fails is_uuid cached now fresh up c room content type id
          s).hub.pending
      ≡ (if ltb d s.hub.next
            && (is_registered d s.hub
                && (not ((s.hub.connections d).user == (s.hub.connections c).user)
                    && (s.hub.connections d).subscriptions room))
          then 1
          else 0)
        + sends_to d s.hub.pending
unfolding Talks.handle_send_message
handle_send_message-reaches fails is_uuid cached now fresh up c room content type id s m fine own
      sent d =
    rw (fine) (rw (own) (answer-count up c room id d m _ _ s sent))
