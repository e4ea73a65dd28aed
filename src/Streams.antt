-- ===== src/Streams.antt =====
-- The streams of service/chat and service/channel: what the two managers of internal/handler/stream.go
-- have in common. A connection is the number of its arrival, which stands for its address. Iterating
-- over the map of clients is in no order, so that the goroutines that it starts are a collection of
-- sends, each of which may happen at any later time.
pub mod Talks
pub mod Updates
pub mod Safety
pub mod Rounds
pub mod Foreign
pub mod Posts
pub mod Recipients
mod Tests
use lesser.Common.{
  ℕ, suc, zero, Bool, true, false, ◌&&◌, ◌||◌, Option, none, some, List, [], ◌∷◌, ◌++◌, map, ◌==◌,
  filter, if◌then◌else◌,
}

-- `is_done` when the channel `done` has been closed, `is_closed` the flag that only the chat service
-- keeps, and `is_live` while the handler runs.
pub record Connection : Type 0 where
  pub user : ℕ
  pub subscriptions : ℕ → Bool
  pub is_done : Bool
  pub is_closed : Bool
  pub is_live : Bool

-- `next` numbers the arrivals, `pending` are sends that goroutines have still to make, `sent` is what
-- has gone out, the newest first, and `panicked` when a closed channel has been closed again.
pub record Hub (E : Type 0) : Type 0 where
  pub clients : ℕ → Option ℕ
  pub connections : ℕ → Connection
  pub next : ℕ
  pub pending : List (ℕ × E)
  pub sent : List (ℕ × E)
  pub panicked : Bool

pub record Metadata : Type 0 where
  pub x_user_id : List ℕ
  pub user_id : List ℕ

-- The identifier of the gateway first, and then that of the client itself.
abbrev pub first : List ℕ → Option ℕ
first [] = none
first (u ∷ us) = some u

abbrev pub or_first : Option ℕ → List ℕ → Option ℕ
or_first none us = first us
or_first (some u) us = some u

unfoldable pub user_id_from : Option Metadata → Option ℕ
user_id_from none = none
user_id_from (some m) = or_first (first m.x_user_id) m.user_id

abbrev pub set_at {ℓ} : {A : Type ℓ} → ℕ → A → (ℕ → A) → ℕ → A
set_at i a f j = if j == i then a else f j

abbrev pub is_some_of : Option ℕ → ℕ → Bool
is_some_of none c = false
is_some_of (some d) c = d == c

-- The connections before the n-th.
abbrev pub arrivals : ℕ → List ℕ
arrivals zero = []
arrivals (suc n) = n ∷ arrivals n

abbrev pub new_connection : ℕ → Connection
new_connection u = record {
  user = u;
  subscriptions = λ _. false;
  is_done = false;
  is_closed = false;
  is_live = true;
}

-- The i-th of a list, and the list without it.
abbrev pub nth {ℓ} : {A : Type ℓ} → ℕ → List A → Option A
nth i [] = none
nth zero (x ∷ xs) = some x
nth (suc i) (x ∷ xs) = nth i xs

abbrev pub without {ℓ} : {A : Type ℓ} → ℕ → List A → List A
without i [] = []
without zero (x ∷ xs) = xs
without (suc i) (x ∷ xs) = x ∷ without i xs

module _ {E : Type 0} where
  -- `m.clients[userID] == client`
  abbrev pub is_registered : ℕ → Hub E → Bool
  is_registered c h = is_some_of (h.clients (h.connections c).user) c

  -- `for _, client := range m.clients`, with a test on each client.
  abbrev pub targets : (Connection → Bool) → Hub E → List ℕ
  targets test h = filter (λ c. is_registered c h && test (h.connections c)) (arrivals h.next)

  -- `for _, client := range targets { go … }`
  abbrev pub start_sends : E → List ℕ → Hub E → Hub E
  start_sends e cs h = record h { pending = map (λ c. (c, e)) cs ++ h.pending }

  abbrev pub broadcast : (Connection → Bool) → E → Hub E → Hub E
  broadcast test e h = start_sends e (targets test h) h

  -- `close(client.done)`
  abbrev pub close_done : ℕ → Hub E → Hub E
  close_done c h = record h {
    connections = set_at c (record (h.connections c) { is_done = true }) h.connections;
    panicked = h.panicked || (h.connections c).is_done;
  }

  -- Entering a client whose predecessor, if there is one, has been closed.
  abbrev pub register : ℕ → Hub E → Hub E
  register u h = record h {
    clients = set_at u (some h.next) h.clients;
    connections = set_at h.next (new_connection u) h.connections;
    next = suc h.next;
  }

  -- The deferred function: the map keeps a newer client of the same user.
  abbrev pub leave : ℕ → Hub E → Hub E
  leave c h = record h {
    clients = if is_registered c h then set_at (h.connections c).user none h.clients else h.clients;
    connections = set_at c (record (h.connections c) { is_live = false }) h.connections;
  }

  abbrev pub set_subscription : (c room : ℕ) → Bool → Hub E → Hub E
  set_subscription c room b h = record h {
    connections =
        set_at c
          (record (h.connections c) {
            subscriptions = set_at room b (h.connections c).subscriptions;
          })
          h.connections;
  }

  -- `stream.Send`, which reaches the client if its stream is up.
  abbrev pub send : Bool → ℕ → E → Hub E → Hub E
  send up c e h = if up then record h { sent = (c, e) ∷ h.sent } else h
