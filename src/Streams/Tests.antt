-- ===== src/Streams/Tests.antt =====
-- Small runs of the streams.
use lesser.Common.{
  ℕ, ◌+◌, ◌<◌, ◌≡◌, refl, ◌==◌, ltb, Bool, true, false, ◌&&◌, not, none, some, [], ◌∷◌, arith,
  if◌then◌else◌,
}
use lesser.Common.Text.{codes}
use lesser.Db.{Store, ok}
use lesser.Chat.{text, owner, Message, Tables}
use lesser.Chat.Statements.{is_member_of}
use lesser.Chat.Service.{send_message}
use lesser.Streams.{Hub, is_registered, new_connection, user_id_from}
use lesser.Streams.Talks
use lesser.Streams.Updates
use lesser.Streams.Safety.{IsOrderly}
use lesser.Streams.Rounds
use lesser.Streams.Foreign.{AreForeign, Reach-AreForeign}
use lesser.Streams.Recipients.{sends_to, handle_send_message-reaches}

abbrev any_uuid : ℕ → Bool
any_uuid _ = true

abbrev no_failure : ℕ → Bool
no_failure _ = false

-- User 1 is the only member of conversation 10.
abbrev lone_store : Store Tables
lone_store = record {
  tables = record {
    conversations = [];
    members =
        record {
          conversation_id = 10;
          user_id = 1;
          role = owner;
          joined_at = 0;
          last_read_at = none;
        }
        ∷ [];
    messages = [];
    unread = λ u c. none;
    published = [];
  };
  statements = 0;
}

abbrev quiet_hub : (E : Type 0) → Hub E
quiet_hub E = record {
  clients = λ _. none;
  connections = new_connection;
  next = 0;
  pending = [];
  sent = [];
  panicked = false;
}

abbrev quiet : Talks.State
quiet = record { hub = quiet_hub Talks.ServerEvent; store = lone_store }

-- Users 1 and 2 connect, and both subscribe to conversation 10.
abbrev joined : Talks.State
joined = record quiet { hub = Talks.connect 2 (Talks.connect 1 quiet.hub) }

abbrev event : ℕ → Talks.ClientEvent → Talks.State → Talks.State
event c e s = Talks.handle_client_event no_failure any_uuid true 5 20 true c e s

abbrev subscribed_both : Talks.State
subscribed_both = event 1 (Talks.subscribe 10) (event 0 (Talks.subscribe 10) joined)

abbrev said : Talks.State
said = event 0 (Talks.send_event 10 (codes "hi") text 7) subscribed_both

zero_one : 0 < 1
zero_one = omega arith

zero_two : 0 < 2
zero_two = omega arith

one_two : 1 < 2
one_two = omega arith

run : Rounds.Reach quiet said
unfolding Talks.connect Talks.handle_client_event
run =
    Rounds.next
      (Rounds.next
        (Rounds.next
          (Rounds.next (Rounds.next Rounds.here (Rounds.connect_step 1 quiet))
            (Rounds.connect_step 2 _))
          (Rounds.event_step no_failure any_uuid true 5 20 true 0 (Talks.subscribe 10) joined
            zero_two refl))
        (Rounds.event_step no_failure any_uuid true 5 20 true 1 (Talks.subscribe 10) _ one_two
          refl))
      (Rounds.event_step no_failure any_uuid true 5 20 true 0
        (Talks.send_event 10 (codes "hi") text 7) subscribed_both zero_two refl)

quiet-IsOrderly : {E : Type 0} → IsOrderly (quiet_hub E)
quiet-IsOrderly = record {
  calm = refl;
  arrived = λ u c e. ground (arith, e);
  owned = λ u c e. ground (arith, e);
  not_done = λ u c e. ground (arith, e);
  not_closed = λ u c e. ground (arith, e);
}

-- User 2 is not a member, and the message is on its way to him.
stranger-is_no_member : is_member_of 10 2 lone_store.tables ≡ false
stranger-is_no_member = refl

stranger_gets_message : sends_to 1 said.hub.pending ≡ 1
unfolding Talks.connect Talks.handle_client_event Talks.handle_send_message send_message
stranger_gets_message = refl

Reach-IsOrderly_example : IsOrderly said.hub
Reach-IsOrderly_example = Rounds.Reach-IsOrderly run quiet-IsOrderly

quiet-AreForeign : AreForeign quiet.hub
quiet-AreForeign = record { waiting = tt; out = tt }

Reach-AreForeign_example : AreForeign said.hub
Reach-AreForeign_example = Reach-AreForeign run quiet-AreForeign

abbrev hi : Message
hi = record {
  id = 20;
  conversation_id = 10;
  sender_id = 1;
  type = text;
  content = codes "hi";
  is_deleted = false;
  created_at = 5;
}

hi_returned :
    (send_message no_failure true 5 20
      record {
        conversation_id = 10;
        sender_id = (subscribed_both.hub.connections 0).user;
        content = codes "hi";
        message_type = text;
      }
      subscribed_both.store).0
    ≡ ok hi
unfolding Talks.connect Talks.handle_client_event send_message
hi_returned = refl

zero_is_uuid : any_uuid (subscribed_both.hub.connections 0).user ≡ true
zero_is_uuid = refl

handle_send_message-reaches_example :
    sends_to 1
      (Talks.handle_send_message no_failure any_uuid true 5 20 true 0 10
        (codes "hi")
        text
        7
        subscribed_both).hub.pending
    ≡ (if ltb 1 subscribed_both.hub.next
          && (is_registered 1 subscribed_both.hub
              && (not (
                    (subscribed_both.hub.connections 1).user
                    == (subscribed_both.hub.connections 0).user)
                  && (subscribed_both.hub.connections 1).subscriptions 10))
        then 1
        else 0)
      + sends_to 1 subscribed_both.hub.pending
handle_send_message-reaches_example =
    handle_send_message-reaches no_failure any_uuid true 5 20 true 0 10 (codes "hi") text 7
      subscribed_both hi refl zero_is_uuid hi_returned 1

abbrev reader : Updates.State
reader = record {
  hub =
      Updates.handle_client_event true 0 (Updates.subscribe 9)
        (Updates.connect 4 (quiet_hub Updates.ServerEvent));
  updates = [];
}

zero_arrived : 0 < reader.hub.next
unfolding Updates.connect Updates.handle_client_event
zero_arrived = omega arith

zero_registered : is_registered 0 reader.hub ≡ true
unfolding Updates.connect Updates.handle_client_event
zero_registered = refl

zero_not_done : (reader.hub.connections 0).is_done ≡ false
unfolding Updates.connect Updates.handle_client_event
zero_not_done = refl

zero_subscribed : (reader.hub.connections 0).subscriptions 9 ≡ true
unfolding Updates.connect Updates.handle_client_event
zero_subscribed = refl

own_header_first : user_id_from (some record { x_user_id = 4 ∷ []; user_id = 5 ∷ [] }) ≡ some 4
unfolding user_id_from
own_header_first = refl
