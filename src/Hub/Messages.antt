-- ===== src/Hub/Messages.antt =====
-- Sending over the hub of internal/platform/ws/hub.go: to a room, to a user, and what follows the sends.
use aloqa_codex.Common.{
  ℕ, String, Bool, not, ◌&&◌, ◌||◌, List, [], ◌∷◌, ◌++◌, none, some, ltb, nat_eqb, if◌then◌else◌,
  length,
}
use aloqa_codex.Common.Equality.{◌==◌, nat_eq, string_eq}
use aloqa_codex.Common.GoMap.{keys, get, set}
use aloqa_codex.Hub.State.{
  send_buf_size, Client, record_ws_dropped, record_delivery, Hub, emit, add_drop, is_slow,
}
use aloqa_codex.Hub.Operations.{remove_clients, close_conns, close_evicted}

-- What a round of sends has done: the clients, the deliveries and the slow clients, in order.
pub record Sends : Type 0 where
  pub hub : Hub
  pub delivered : List Client
  pub to_evict : List ℕ

abbrev pub if_observer : Hub → Hub
if_observer h = if h.has_observer then emit record_ws_dropped h else h

-- The `select` on one client: the channel takes the data, or the drop is counted.
unfoldable pub offer : String → ℕ → Client → Sends → Sends
unfolding set
offer message id client s =
    if ltb (length client.send) send_buf_size
    then record s {
      hub = record (s.hub) {
        clients =
            set id (record client { send = client.send ++ message ∷ []; drop_count = 0 })
              s.hub.clients;
      };
      delivered = s.delivered ++ client ∷ [];
    }
    else (let drops = add_drop client.drop_count in
        let h = record (s.hub) {
          clients = set id (record client { drop_count = drops }) s.hub.clients;
        } in
        record s {
          hub = if_observer h;
          to_evict = if is_slow drops then s.to_evict ++ id ∷ [] else s.to_evict;
        })

-- The loop of `BroadcastToRoom` over the room's members.
unfoldable pub offer_members : String → List ℕ → Sends → Sends
unfolding offer get
offer_members message [] s = s
offer_members message (id ∷ ids) s =
    offer_members message ids
      (elim (get id s.hub.clients) [ none ↦ s | some client ↦ offer message id client s ])

abbrev pub no_sends : Hub → Sends
no_sends h = record { hub = h; delivered = []; to_evict = [] }

-- `BroadcastToRoom` under the read lock.
unfoldable pub broadcast_sends : String → String → Hub → Sends
unfolding offer_members get
broadcast_sends room message h = elim (get room h.rooms) [
  | none ↦ no_sends h
  | some members ↦ offer_members message (keys members) (no_sends h)
]

abbrev pub is_target : ℕ → ℕ → Client → Bool
is_target workspace_id user_id client =
    nat_eqb client.user_id user_id
    && (nat_eqb workspace_id 0 || nat_eqb client.workspace_id workspace_id)

-- `SendToUser` under the read lock: the clients of a user, in a workspace unless that is nil.
unfoldable pub offer_user : String → ℕ → ℕ → List ℕ → Sends → Sends
unfolding offer get
offer_user message workspace_id user_id [] s = s
offer_user message workspace_id user_id (id ∷ ids) s =
    offer_user message workspace_id user_id ids (elim (get id s.hub.clients) [
      | none ↦ s
      | some client ↦ if is_target workspace_id user_id client then offer message id client s else s
    ])

unfoldable pub user_sends : ℕ → ℕ → String → Hub → Sends
unfolding offer_user
user_sends workspace_id user_id message h =
    offer_user message workspace_id user_id (keys h.clients) (no_sends h)

-- `recordDelivery` returns at once without a store or a resume key; what it writes is the store's.
unfoldable pub record_deliveries : String → String → List Client → Hub → Hub
record_deliveries room message [] h = h
record_deliveries room message (client ∷ rest) h = record_deliveries room message rest (
    if not h.has_state || client.resume_key == ""
    then h
    else emit (record_delivery client.id client.resume_key room message) h)

-- `evictSlowClients`, under the write lock.
unfoldable pub evict_slow_clients : List ℕ → Hub → Hub
unfolding remove_clients close_conns
evict_slow_clients ids h = close_evicted "send buffer overflow" (remove_clients ids h [])

abbrev pub finish_sends : String → String → Sends → Hub
finish_sends room message s =
    evict_slow_clients s.to_evict (record_deliveries room message s.delivered s.hub)

unfoldable pub broadcast_to_room : String → String → Hub → Hub
unfolding broadcast_sends record_deliveries evict_slow_clients
broadcast_to_room room message h = finish_sends room message (broadcast_sends room message h)

unfoldable pub send_to_user : ℕ → ℕ → String → Hub → Hub
unfolding user_sends record_deliveries evict_slow_clients
send_to_user workspace_id user_id message h =
    finish_sends "" message (user_sends workspace_id user_id message h)

-- The write pump of a client takes the oldest message from its channel.
abbrev pub tail_of : List String → List String
tail_of [] = []
tail_of (_ ∷ rest) = rest

unfoldable pub take_message : ℕ → Hub → Hub
unfolding get set
take_message id h = elim (get id h.clients) [
  | none ↦ h
  | some client ↦ record h {
    clients = set id (record client { send = tail_of client.send }) h.clients;
  }
]
