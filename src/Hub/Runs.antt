-- ===== src/Hub/Runs.antt =====
-- The hub of internal/platform/ws/hub.go as a system of steps. A step is one critical section, so
-- the steps of concurrent calls interleave in any order: the sends of a broadcast, and then the
-- eviction of the clients that it found slow, which may be long gone by then. `BroadcastToRoom` and
-- `SendToUser` only hold a read lock, under which two of them may overlap: `offers` is one send of such
-- a loop, so that the sends of several loops, each of them a run of `offers`, interleave in any order.
use aloqa_codex.Common.{
  ℕ, String, Bool, false, List, [], ◌∷◌, Option, none, some, ◌≡◌, refl, arith, nat_eqb_iff,
  Bool-cases, Option-cases, inl, inr,
}
use aloqa_codex.Common.Equality.{◌==◌, nat_eq, string_eq, contains}
use aloqa_codex.Common.GoMap.{keys, get, contains-keys-set}
use aloqa_codex.Hub.Membership.{contains_of_get}
use aloqa_codex.Hub.State.{Client, Hub}
use aloqa_codex.Hub.Operations.{
  remove_client, session_ids, evict_session, close_removed, close_all, shutdown, register,
  unregister, subscribe, unsubscribe,
}
use aloqa_codex.Hub.Messages.{
  no_sends, offer_members, broadcast_sends, user_sends, record_deliveries, evict_slow_clients,
  take_message, tail_of,
}
use aloqa_codex.Hub.Invariant.{IsValid}
use aloqa_codex.Hub.Membership.{
  register-IsValid, unregister-IsValid, subscribe-IsValid, unsubscribe-IsValid,
}
use aloqa_codex.Hub.Sending.{
  evicting-IsValid, offer_members-IsValid, offer_user-IsValid, record_deliveries-IsValid,
  evict_session-IsValid, shutdown-IsValid, take_message-IsValid,
}
use aloqa_codex.Hub.Closing.{
  closes, ClosedOnce, Quiet, Quiet-refl, Quiet-ClosedOnce, evicting-ClosedOnce, offer_members-Quiet,
  offer_user-Quiet, record_deliveries-Quiet, remove_client-ClosedOnce, conn_closed, written,
}

-- `NewHub`, with or without a store of subscriptions and an observer.
unfoldable pub new_hub : Bool → Bool → Hub
new_hub has_state has_observer = record {
  clients = [];
  rooms = [];
  has_state = has_state;
  has_observer = has_observer;
  effects = [];
}

-- A client comes with an empty channel and an id that no client had before.
pub record IsFresh (client : Client) (h : Hub) : Type 0 where
  pub no_messages : client.send ≡ []
  pub not_registered : contains client.id (keys h.clients) ≡ false
  pub not_closed : contains client.id (closes h.effects) ≡ false

pub data Step (h : Hub) : Hub → Type 0 where
  registers :
      (user_text : ℕ → String) (client : Client)
      → IsFresh client h
      → Step h (register user_text client h)
  unregisters : (client : Client) → Step h (unregister client h)
  evicts : (session_id : String) → Step h (evict_session session_id h)
  shuts_down : Step h (shutdown h)
  subscribes : (id : Option ℕ) (room : String) → Step h (subscribe id room h)
  unsubscribes : (id : Option ℕ) (room : String) → Step h (unsubscribe id room h)
  sends_to_room : (room message : String) → Step h (broadcast_sends room message h).hub
  sends_to_user :
      (workspace_id user_id : ℕ) (message : String)
      → Step h (user_sends workspace_id user_id message h).hub
  offers : (message : String) (id : ℕ) → Step h (offer_members message (id ∷ []) (no_sends h)).hub
  records :
      (room message : String) (delivered : List Client)
      → Step h (record_deliveries room message delivered h)
  evicts_slow : (ids : List ℕ) → Step h (evict_slow_clients ids h)
  takes : (id : ℕ) → Step h (take_message id h)

pub data Reach (h : Hub) : Hub → Type 0 where
  here : Reach h h
  next : {h' h'' : Hub} → Reach h h' → Step h' h'' → Reach h h''

Step-IsValid : {h h' : Hub} → Step h h' → IsValid h → IsValid h'
unfolding evict_slow_clients broadcast_sends user_sends
Step-IsValid {h} (registers user_text client f) v =
    register-IsValid user_text client h (rw (f.no_messages) (omega arith)) v
Step-IsValid {h} (unregisters client) v = unregister-IsValid client h v
Step-IsValid {h} (evicts session_id) v = evict_session-IsValid session_id h v
Step-IsValid {h} shuts_down v = shutdown-IsValid h v
Step-IsValid {h} (subscribes id room) v = subscribe-IsValid id room h v
Step-IsValid {h} (unsubscribes id room) v = unsubscribe-IsValid id room h v
Step-IsValid {h} (sends_to_room room message) v = elim (Option-cases (get room h.rooms)) [
  | inl missing ↦ rw (missing, broadcast_sends) v
  | inr (members, found) ↦
      rw (found, broadcast_sends) (offer_members-IsValid message (keys members) (no_sends h) v)
]
Step-IsValid {h} (sends_to_user workspace_id user_id message) v =
    offer_user-IsValid message workspace_id user_id (keys h.clients) (no_sends h) v
Step-IsValid {h} (offers message id) v = offer_members-IsValid message (id ∷ []) (no_sends h) v
Step-IsValid {h} (records room message delivered) v =
    record_deliveries-IsValid room message delivered h v
Step-IsValid {h} (evicts_slow ids) v = evicting-IsValid "send buffer overflow" ids h v
Step-IsValid {h} (takes id) v = take_message-IsValid id h v

subscribe-Quiet : (id : Option ℕ) (room : String) (h : Hub) → Quiet h (subscribe id room h)
unfolding subscribe
subscribe-Quiet none room h = Quiet-refl h
subscribe-Quiet (some id) room h = record {
  same_closes = ground arith;
  same_keys = λ j. ground arith;
}

unsubscribe-Quiet : (id : Option ℕ) (room : String) (h : Hub) → Quiet h (unsubscribe id room h)
unfolding unsubscribe
unsubscribe-Quiet none room h = Quiet-refl h
unsubscribe-Quiet (some id) room h = record {
  same_closes = ground arith;
  same_keys = λ j. ground arith;
}

sends_to_room-Quiet :
    (room message : String) (h : Hub) → Quiet h (broadcast_sends room message h).hub
unfolding broadcast_sends
sends_to_room-Quiet room message h = elim (Option-cases (get room h.rooms)) [
  | inl missing ↦ rw (missing, broadcast_sends) (Quiet-refl h)
  | inr (members, found) ↦
      rw (found, broadcast_sends) (offer_members-Quiet message (keys members) (no_sends h))
]

take_message-Quiet : (id : ℕ) (h : Hub) → Quiet h (take_message id h)
unfolding take_message
take_message-Quiet id h = elim (Option-cases (get id h.clients)) [
  | inl missing ↦ rw (missing, take_message) (Quiet-refl h)
  | inr (client, found) ↦
      rw (found, take_message)
        (written id (record client { send = tail_of client.send }) h
          (contains_of_get id client h.clients found))
]

close_removed-ClosedOnce :
    (reason : String) (r : Hub × Option Client)
    → ClosedOnce r.0
    → ClosedOnce (close_removed reason r)
close_removed-ClosedOnce reason (h, none) c = c
close_removed-ClosedOnce reason (h, some client) c =
    Quiet-ClosedOnce h (close_removed reason (h, some client))
      (conn_closed client.has_conn client.id reason h) c

close_all-ClosedOnce : (ids : List ℕ) (h : Hub) → ClosedOnce h → ClosedOnce (close_all ids h)
unfolding close_all
close_all-ClosedOnce [] h c = c
close_all-ClosedOnce (id ∷ ids) h c =
    close_all-ClosedOnce ids (close_removed "server shutting down" (remove_client id h)) (
      close_removed-ClosedOnce "server shutting down" (remove_client id h)
        (remove_client-ClosedOnce id h c))

register-ClosedOnce :
    (user_text : ℕ → String) (client : Client) (h : Hub)
    → IsFresh client h
    → ClosedOnce h
    → ClosedOnce (register user_text client h)
unfolding register
register-ClosedOnce user_text client h f c = record {
  once = c.once;
  gone = λ j. ground (
    arith,
    c.gone j,
    f.not_closed,
    contains-keys-set client.id j client h.clients,
    nat_eqb_iff client.id j,
  );
}

Step-ClosedOnce : {h h' : Hub} → Step h h' → ClosedOnce h → ClosedOnce h'
unfolding evict_slow_clients evict_session unregister shutdown user_sends
Step-ClosedOnce {h} (registers user_text client f) c = register-ClosedOnce user_text client h f c
Step-ClosedOnce {h} (unregisters client) c = remove_client-ClosedOnce client.id h c
Step-ClosedOnce {h} (evicts session_id) c = elim (Bool-cases (session_id == "")) [
  | inl blank ↦ rw blank c
  | inr named ↦
      rw named (evicting-ClosedOnce "session revoked" (session_ids session_id h.clients) h c)
]
Step-ClosedOnce {h} shuts_down c = close_all-ClosedOnce (keys h.clients) h c
Step-ClosedOnce {h} (subscribes id room) c =
    Quiet-ClosedOnce h (subscribe id room h) (subscribe-Quiet id room h) c
Step-ClosedOnce {h} (unsubscribes id room) c =
    Quiet-ClosedOnce h (unsubscribe id room h) (unsubscribe-Quiet id room h) c
Step-ClosedOnce {h} (sends_to_room room message) c =
    Quiet-ClosedOnce h (broadcast_sends room message h).hub (sends_to_room-Quiet room message h) c
Step-ClosedOnce {h} (sends_to_user workspace_id user_id message) c =
    Quiet-ClosedOnce h (user_sends workspace_id user_id message h).hub
      (offer_user-Quiet message workspace_id user_id (keys h.clients) (no_sends h)) c
Step-ClosedOnce {h} (offers message id) c =
    Quiet-ClosedOnce h (offer_members message (id ∷ []) (no_sends h)).hub
      (offer_members-Quiet message (id ∷ []) (no_sends h)) c
Step-ClosedOnce {h} (records room message delivered) c =
    Quiet-ClosedOnce h (record_deliveries room message delivered h)
      (record_deliveries-Quiet room message delivered h) c
Step-ClosedOnce {h} (evicts_slow ids) c = evicting-ClosedOnce "send buffer overflow" ids h c
Step-ClosedOnce {h} (takes id) c =
    Quiet-ClosedOnce h (take_message id h) (take_message-Quiet id h) c

Reach-Sound : {h h' : Hub} → Reach h h' → IsValid h → ClosedOnce h → IsValid h' × ClosedOnce h'
Reach-Sound here v c = (v, c)
Reach-Sound (next r st) v c =
    let (v', c') = Reach-Sound r v c in (Step-IsValid st v', Step-ClosedOnce st c')

-- In every state that a hub reaches, whatever the order of the steps: the clients and the rooms
-- have distinct keys, no channel holds more than its size, each room has members, each once, all of
-- them registered, and the channel of a client was closed at most once, and not while it is
-- registered.
pub Reach-new_hub :
    (has_state has_observer : Bool) (h : Hub)
    → Reach (new_hub has_state has_observer) h
    → IsValid h × ClosedOnce h
unfolding new_hub
Reach-new_hub has_state has_observer h r =
    Reach-Sound r (record { client_keys = tt; clients_ok = tt; room_keys = tt; rooms_ok = tt })
      (record { once = tt; gone = λ id. refl })
