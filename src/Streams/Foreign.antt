-- ===== src/Streams/Foreign.antt =====
-- What users are sent of their own acts.
use lesser.Common.{
  ℕ, suc, zero, ◌≤◌, ◌<◌, ◌≡◌, refl, sym, subst, ◌==◌, Bool, true, false, ◌&&◌, not, some, List, [],
  ◌∷◌, ◌++◌, map, filter, All, arith, Bool-cases, Option-cases, inl, inr, if◌then◌else◌,
}
use lesser.Common.Text.{Text}
use lesser.Db.{Store, Result, ok, err}
use lesser.Chat.{Tables, MessageType, Message, Error}
use lesser.Chat.Service.{SendMessageRequest, send_message}
use lesser.Streams.{
  Connection, Hub, arrivals, is_registered, nth, without, send, broadcast, set_subscription,
}
use lesser.Streams.Talks.{
  ServerEvent, message_sent, new_message, typing_indicator, ClientEvent, State, connect, disconnect,
  handle_client_event, handle_send_message, deliver, acknowledge, send_error, error, Code,
  internal_error, invalid_conversation_id, invalid_user_id, send_failed, answer_sent, subscribed,
  unsubscribed, pong, subscribe, unsubscribe, send_event, ping, typing,
}
use lesser.Streams.Rounds.{
  Step, connect_step, disconnect_step, event_step, deliver_step, Reach, here, next,
}

-- Whether an event tells of an act of the user.
abbrev pub is_own : ServerEvent → ℕ → Bool
is_own (new_message m) u = m.sender_id == u
is_own (typing_indicator room w is_typing) u = w == u
is_own _ u = false

-- The connection has arrived, and the event does not tell its user of himself.
abbrev pub IsForeign : Hub ServerEvent → ℕ × ServerEvent → Type 0
IsForeign h (c, e) = (c < h.next) × (is_own e (h.connections c).user ≡ false)

pub record AreForeign (h : Hub ServerEvent) : Type 0 where
  pub waiting : All (IsForeign h) h.pending
  pub out : All (IsForeign h) h.sent

All-map {ℓ κ μ} :
    {A : Type ℓ} (P : A → Type κ) (Q : A → Type μ)
    → ((x : A) → P x → Q x)
    → (xs : List A) → All P xs
    → All Q xs
All-map P Q f [] v = tt
All-map P Q f (x ∷ xs) (v, vs) = (f x v, All-map P Q f xs vs)

-- A hub whose connections have the users that they had.
module _ (h g : Hub ServerEvent) where
  same_users :
      h.next ≤ g.next
      → ((c : ℕ) → c < h.next → (g.connections c).user ≡ (h.connections c).user)
      → (ps : List (ℕ × ServerEvent)) → All (IsForeign h) ps
      → All (IsForeign g) ps
  same_users later users ps v =
      All-map (IsForeign h) (IsForeign g)
        (λ (c, e) (arrived, other).
          (omega arith, subst (λ u. is_own e u ≡ false) (sym (users c arrived)) other))
        ps v

-- The sends of a broadcast.
broadcast-Foreign :
    (h : Hub ServerEvent) (test : Connection → Bool) (e : ServerEvent) (n : ℕ)
    → ((k : Connection) → test k ≡ true → is_own e k.user ≡ false)
    → n ≤ h.next
    → All (IsForeign h) h.pending
    → All (IsForeign h) (
        map (λ c. (c, e)) (filter (λ c. is_registered c h && test (h.connections c)) (arrivals n))
        ++ h.pending)
broadcast-Foreign h test e zero other le v = v
broadcast-Foreign h test e (suc n) other le v =
    let rest = broadcast-Foreign h test e n other (omega arith) v in
    elim (Bool-cases (is_registered n h && test (h.connections n))) [
      | inl passes ↦
          let fine = other (h.connections n) (ground (arith, passes)) in
          rw (passes) ((omega arith, fine), rest)
      | inr fails ↦ rw (fails) rest
    ]

nth-Foreign :
    (h : Hub ServerEvent) (i : ℕ) (ps : List (ℕ × ServerEvent)) (p : ℕ × ServerEvent)
    → nth i ps ≡ some p
    → All (IsForeign h) ps
    → IsForeign h p
nth-Foreign h i [] p e v = ground (arith, e)
nth-Foreign h zero (x ∷ ps) p e (v, vs) = let same : x ≡ p = cc e in subst (IsForeign h) same v
nth-Foreign h (suc i) (x ∷ ps) p e (v, vs) = nth-Foreign h i ps p e vs

without-Foreign :
    (h : Hub ServerEvent) (i : ℕ) (ps : List (ℕ × ServerEvent))
    → All (IsForeign h) ps
    → All (IsForeign h) (without i ps)
without-Foreign h i [] v = tt
without-Foreign h zero (x ∷ ps) (v, vs) = vs
without-Foreign h (suc i) (x ∷ ps) (v, vs) = (v, without-Foreign h i ps vs)

send_message-sender :
    (fails : ℕ → Bool) (cached : Bool) (now fresh : ℕ) (r : SendMessageRequest) (s : Store Tables)
    (m : Message)
    → (send_message fails cached now fresh r s).0 ≡ ok m
    → m.sender_id ≡ r.sender_id
unfolding send_message
send_message-sender fails cached now fresh r s m e = ground (arith, e)

users-AreForeign :
    (h g : Hub ServerEvent)
    → h.next ≤ g.next
    → ((c : ℕ) → c < h.next → (g.connections c).user ≡ (h.connections c).user)
    → g.pending ≡ h.pending
    → g.sent ≡ h.sent
    → AreForeign h
    → AreForeign g
users-AreForeign h g later users pending sent v = record {
  waiting =
      subst (All (IsForeign g)) (sym pending) (same_users h g later users h.pending v.waiting);
  out = subst (All (IsForeign g)) (sym sent) (same_users h g later users h.sent v.out);
}

send-AreForeign :
    (up : Bool) (c : ℕ) (e : ServerEvent) (h : Hub ServerEvent)
    → IsForeign h (c, e)
    → AreForeign h
    → AreForeign (send up c e h)
send-AreForeign true c e h this v = record { waiting = v.waiting; out = (this, v.out) }
send-AreForeign false c e h this v = v

unless-AreForeign :
    (b : Bool) (h g : Hub ServerEvent)
    → AreForeign h
    → AreForeign g
    → AreForeign (if b then h else g)
unless-AreForeign true h g v w = v
unless-AreForeign false h g v w = w

module _ (h : Hub ServerEvent) (v : AreForeign h) where
  connect-AreForeign : (u : ℕ) → AreForeign (connect u h)
  unfolding connect
  connect-AreForeign u =
      users-AreForeign h (connect u h) (ground arith) (λ c lt. ground arith) (ground arith)
        (ground arith) v

  disconnect-AreForeign : (c : ℕ) → AreForeign (disconnect c h)
  unfolding disconnect
  disconnect-AreForeign c =
      users-AreForeign h (disconnect c h) (omega arith) (λ d lt. ground arith) refl refl v

  deliver-AreForeign : (up : Bool) (i : ℕ) → AreForeign (deliver up i h)
  unfolding deliver
  deliver-AreForeign up i = elim (Option-cases (nth i h.pending)) [
    | inl e ↦ rw (e) v
    | inr (p, e) ↦
        let this = nth-Foreign h i h.pending p e v.waiting in
        let g : Hub ServerEvent = record h { pending = without i h.pending } in
        let w : AreForeign g = record {
          waiting = without-Foreign h i h.pending v.waiting;
          out = v.out;
        } in
        rw (e) (
          unless-AreForeign (h.connections p.0).is_closed g (send up p.0 p.1 g) w
            (send-AreForeign up p.0 p.1 g this w))
  ]

  error-AreForeign :
      (up : Bool) (c : ℕ) (code : Code) → c < h.next → AreForeign (send_error up c code h)
  error-AreForeign up c code lt =
      unless-AreForeign (h.connections c).is_closed h (send up c (error code) h) v
        (send-AreForeign up c (error code) h (lt, refl) v)

  -- The answers to a client itself.
  acknowledge-AreForeign :
      (up : Bool) (c : ℕ) (e : ServerEvent)
      → c < h.next
      → is_own e (h.connections c).user ≡ false
      → AreForeign (acknowledge up c e h)
  acknowledge-AreForeign true c e lt other = send-AreForeign true c e h (lt, other) v
  acknowledge-AreForeign false c e lt other = error-AreForeign false c internal_error lt

  broadcast-AreForeign :
      (test : Connection → Bool) (e : ServerEvent)
      → ((k : Connection) → test k ≡ true → is_own e k.user ≡ false)
      → AreForeign (broadcast test e h)
  broadcast-AreForeign test e other = record {
    waiting = broadcast-Foreign h test e h.next other (omega arith) v.waiting;
    out = v.out;
  }

  subscription-AreForeign : (c room : ℕ) (b : Bool) → AreForeign (set_subscription c room b h)
  subscription-AreForeign c room b =
      users-AreForeign h (set_subscription c room b h) (omega arith) (λ d lt. ground arith) refl
        refl v

choice-AreForeign :
    (b : Bool) (s t : State)
    → AreForeign s.hub
    → AreForeign t.hub
    → AreForeign (if b then s else t).hub
choice-AreForeign true s t v w = v
choice-AreForeign false s t v w = w

module _ (fails : ℕ → Bool) (is_uuid : ℕ → Bool) (cached : Bool) (now fresh : ℕ) (up : Bool)
    (c : ℕ) where
  answer-AreForeign :
      (room id : ℕ) (r : Result Error Message) (t : Store Tables) (s : State)
      → ((m : Message) → r ≡ ok m → m.sender_id ≡ (s.hub.connections c).user)
      → c < s.hub.next
      → AreForeign s.hub
      → AreForeign (answer_sent up c room id (r, t) s).hub
  answer-AreForeign room id (err e) t s sender lt v = error-AreForeign s.hub v up c send_failed lt
  answer-AreForeign room id (ok m) t s sender lt v =
      let h = send up c (message_sent id m) s.hub in
      broadcast-AreForeign h (send-AreForeign up c (message_sent id m) s.hub (lt, refl) v)
        (λ k. not (k.user == (s.hub.connections c).user) && k.subscriptions room) (new_message m)
        (λ k e. ground (arith, e, sender m refl))

  handle_send_message-AreForeign :
      (room : ℕ) (content : Text) (type : MessageType) (id : ℕ) (s : State)
      → c < s.hub.next
      → AreForeign s.hub
      → AreForeign
          (handle_send_message fails is_uuid cached now fresh up c room content type id s).hub
  unfolding handle_send_message
  handle_send_message-AreForeign room content type id s lt v =
      choice-AreForeign (not (is_uuid room)) _ _
        (error-AreForeign s.hub v up c invalid_conversation_id lt)
        (choice-AreForeign (not (is_uuid (s.hub.connections c).user)) _ _
          (error-AreForeign s.hub v up c invalid_user_id lt)
          (answer-AreForeign room id _ _ s
            (λ m e. send_message-sender fails cached now fresh _ s.store m e) lt v))

  event-AreForeign :
      (e : ClientEvent) (s : State)
      → c < s.hub.next
      → AreForeign s.hub
      → AreForeign (handle_client_event fails is_uuid cached now fresh up c e s).hub
  unfolding handle_client_event
  event-AreForeign (subscribe room) s lt v =
      acknowledge-AreForeign (set_subscription c room true s.hub)
        (subscription-AreForeign s.hub v c room true) up c (subscribed room) lt refl
  event-AreForeign (unsubscribe room) s lt v =
      acknowledge-AreForeign (set_subscription c room false s.hub)
        (subscription-AreForeign s.hub v c room false) up c (unsubscribed room) lt refl
  event-AreForeign (send_event room content type id) s lt v =
      handle_send_message-AreForeign room content type id s lt v
  event-AreForeign ping s lt v = acknowledge-AreForeign s.hub v up c pong lt refl
  event-AreForeign (typing room is_typing) s lt v =
      broadcast-AreForeign s.hub v
        (λ k. not (k.user == (s.hub.connections c).user) && k.subscriptions room)
        (typing_indicator room (s.hub.connections c).user is_typing) (λ k e. ground (arith, e))

Step-AreForeign : {s t : State} → Step s t → AreForeign s.hub → AreForeign t.hub
Step-AreForeign (connect_step u s) v = connect-AreForeign s.hub v u
Step-AreForeign (disconnect_step c s live) v = disconnect-AreForeign s.hub v c
Step-AreForeign (event_step fails is_uuid cached now fresh up c e s arrived live) v =
    event-AreForeign fails is_uuid cached now fresh up c e s arrived v
Step-AreForeign (deliver_step up i s) v = deliver-AreForeign s.hub v up i

-- In every run of the chat service's streams, where statements and sends fail anywhere: if at the
-- start no event that is sent, or waits to be sent, brings a user his own message as a new one or
-- tells him that he is typing, and all of them go to connections that have arrived, then so it is at
-- the end.
pub Reach-AreForeign : {s t : State} → Reach s t → AreForeign s.hub → AreForeign t.hub
Reach-AreForeign here v = v
Reach-AreForeign (next run step) v = Step-AreForeign step (Reach-AreForeign run v)
