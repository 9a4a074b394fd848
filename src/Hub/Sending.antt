-- ===== src/Hub/Sending.antt =====
-- The sends and evictions of internal/platform/ws/hub.go keep the hub valid and leave no client over
-- the limit of drops.
use aloqa_codex.Common.{
  ℕ, ◌≤◌, String, true, not, ◌||◌, List, [], ◌∷◌, ◌++◌, Option, none, some, ◌≡◌, arith, ltb,
  if◌then◌else◌, length, length-append, Bool-cases, Option-cases, inl, inr,
}
use aloqa_codex.Common.Equality.{◌==◌, nat_eq, string_eq, contains}
use aloqa_codex.Common.GoMap.{keys, get, set, contains-keys-set, set-Distinct, All-set, All-get}
use aloqa_codex.Hub.State.{
  send_buf_size, Client, close_conn, record_ws_dropped, record_delivery, Hub, emit, add_drop,
}
use aloqa_codex.Hub.Operations.{
  remove_client, remove_clients, close_conns, close_evicted, append_client, session_ids,
  evict_session, close_removed, close_all, shutdown,
}
use aloqa_codex.Hub.Messages.{
  Sends, offer, offer_members, offer_user, no_sends, broadcast_sends, user_sends, record_deliveries,
  evict_slow_clients, finish_sends, broadcast_to_room, send_to_user, take_message, tail_of,
  is_target,
}
use aloqa_codex.Hub.Invariant.{ClientOk, IsValid, RoomOk-mono}
use aloqa_codex.Hub.Membership.{
  contains_of_get, with_effects, if_known-IsValid, remove_client-IsValid,
}

-- A registered client may be written back under its id.
pub with_client :
    (id : ℕ) (client : Client) (h : Hub)
    → contains id (keys h.clients) ≡ true
    → client.id ≡ id
    → length client.send ≤ send_buf_size
    → IsValid h
    → IsValid (record h { clients = set id client h.clients })
with_client id client h here same room_left v = record {
  client_keys = set-Distinct id client h.clients v.client_keys;
  clients_ok = All-set ClientOk id client h.clients (same, room_left) v.clients_ok;
  room_keys = v.room_keys;
  rooms_ok =
      RoomOk-mono h.clients (set id client h.clients) h.rooms
        (λ j k. ground (arith, contains-keys-set id j client h.clients)) v.rooms_ok;
}

-- A client found under an id may be written back with another channel and another count.
offered :
    (id : ℕ) (client : Client) (send : List String) (drops : ℕ) (h : Hub)
    → get id h.clients ≡ some client
    → length send ≤ send_buf_size
    → IsValid h
    → IsValid (record h {
      clients = set id (record client { send = send; drop_count = drops }) h.clients;
    })
offered id client send drops h g fits v =
    with_client id (record client { send = send; drop_count = drops }) h
      (contains_of_get id client h.clients g)
      (All-get ClientOk id client h.clients v.clients_ok g).0 fits v

offer-IsValid :
    (message : String) (id : ℕ) (client : Client) (s : Sends)
    → get id s.hub.clients ≡ some client
    → IsValid s.hub
    → IsValid (offer message id client s).hub
unfolding offer
offer-IsValid message id client s g v = elim (Bool-cases (ltb (length client.send) send_buf_size)) [
  | inl takes ↦
      rw (takes, offer)
        (offered id client (client.send ++ message ∷ []) 0 s.hub g
          (ground (arith, length-append client.send (message ∷ []))) v)
  | inr full ↦
      rw (full, offer)
        (if_known-IsValid s.hub.has_observer record_ws_dropped
          (record (s.hub) {
            clients =
                set id (record client { drop_count = add_drop client.drop_count }) s.hub.clients;
          })
          (offered id client client.send (add_drop client.drop_count) s.hub g
            (All-get ClientOk id client s.hub.clients v.clients_ok g).1 v))
]

pub offer_members-IsValid :
    (message : String) (ids : List ℕ) (s : Sends)
    → IsValid s.hub
    → IsValid (offer_members message ids s).hub
unfolding offer_members
offer_members-IsValid message [] s v = v
offer_members-IsValid message (id ∷ ids) s v = elim (Option-cases (get id s.hub.clients)) [
  | inl missing ↦ rw (missing, offer_members) (offer_members-IsValid message ids s v)
  | inr (client, found) ↦
      rw (found, offer_members)
        (offer_members-IsValid message ids (offer message id client s)
          (offer-IsValid message id client s found v))
]

remove_clients-IsValid :
    (ids : List ℕ) (h : Hub) (evicted : List Client)
    → IsValid h
    → IsValid (remove_clients ids h evicted).0
unfolding remove_clients
remove_clients-IsValid [] h evicted v = v
remove_clients-IsValid (id ∷ ids) h evicted v =
    remove_clients-IsValid ids (remove_client id h).0 (append_client (remove_client id h).1 evicted)
      (remove_client-IsValid id h v)

close_conns-IsValid :
    (reason : String) (evicted : List Client) (h : Hub)
    → IsValid h
    → IsValid (close_conns reason evicted h)
unfolding close_conns
close_conns-IsValid reason [] h v = v
close_conns-IsValid reason (client ∷ rest) h v =
    close_conns-IsValid reason rest
      (if client.has_conn then emit (close_conn client.id reason) h else h)
      (if_known-IsValid client.has_conn (close_conn client.id reason) h v)

pub evicting-IsValid :
    (reason : String) (ids : List ℕ) (h : Hub)
    → IsValid h
    → IsValid (close_evicted reason (remove_clients ids h []))
evicting-IsValid reason ids h v =
    close_conns-IsValid reason (remove_clients ids h []).1 (remove_clients ids h []).0
      (remove_clients-IsValid ids h [] v)

pub record_deliveries-IsValid :
    (room message : String) (clients : List Client) (h : Hub)
    → IsValid h
    → IsValid (record_deliveries room message clients h)
unfolding record_deliveries
record_deliveries-IsValid room message [] h v = v
record_deliveries-IsValid room message (client ∷ rest) h v =
    elim (Bool-cases (not h.has_state || client.resume_key == "")) [
      | inl skip ↦ simp (skip, record_deliveries) (record_deliveries-IsValid room message rest h v)
      | inr write ↦
          simp (write, record_deliveries)
            (record_deliveries-IsValid room message rest
              (emit (record_delivery client.id client.resume_key room message) h)
              (with_effects _ h v))
    ]

finish_sends-IsValid :
    (room message : String) (s : Sends) → IsValid s.hub → IsValid (finish_sends room message s)
unfolding evict_slow_clients
finish_sends-IsValid room message s v =
    evicting-IsValid "send buffer overflow" s.to_evict
      (record_deliveries room message s.delivered s.hub)
      (record_deliveries-IsValid room message s.delivered s.hub v)

pub broadcast_to_room-IsValid :
    (room message : String) (h : Hub) → IsValid h → IsValid (broadcast_to_room room message h)
unfolding broadcast_to_room broadcast_sends
broadcast_to_room-IsValid room message h v =
    finish_sends-IsValid room message (broadcast_sends room message h)
      (elim (Option-cases (get room h.rooms)) [
        | inl missing ↦ rw (missing, broadcast_sends) v
        | inr (members, found) ↦
            rw (found, broadcast_sends)
              (offer_members-IsValid message (keys members) (no_sends h) v)
      ])

pub offer_user-IsValid :
    (message : String) (workspace_id user_id : ℕ) (ids : List ℕ) (s : Sends)
    → IsValid s.hub
    → IsValid (offer_user message workspace_id user_id ids s).hub
unfolding offer_user
offer_user-IsValid message workspace_id user_id [] s v = v
offer_user-IsValid message workspace_id user_id (id ∷ ids) s v =
    elim (Option-cases (get id s.hub.clients)) [
      | inl missing ↦
          rw (missing, offer_user) (offer_user-IsValid message workspace_id user_id ids s v)
      | inr (client, found) ↦ elim (Bool-cases (is_target workspace_id user_id client)) [
        | inl target ↦
            rw (found, target, offer_user)
              (offer_user-IsValid message workspace_id user_id ids (offer message id client s)
                (offer-IsValid message id client s found v))
        | inr other ↦
            rw (found, other, offer_user) (offer_user-IsValid message workspace_id user_id ids s v)
      ]
    ]

pub send_to_user-IsValid :
    (workspace_id user_id : ℕ) (message : String) (h : Hub)
    → IsValid h
    → IsValid (send_to_user workspace_id user_id message h)
unfolding send_to_user user_sends
send_to_user-IsValid workspace_id user_id message h v =
    finish_sends-IsValid "" message (user_sends workspace_id user_id message h)
      (offer_user-IsValid message workspace_id user_id (keys h.clients) (no_sends h) v)

pub evict_session-IsValid :
    (session_id : String) (h : Hub) → IsValid h → IsValid (evict_session session_id h)
unfolding evict_session
evict_session-IsValid session_id h v = elim (Bool-cases (session_id == "")) [
  | inl blank ↦ rw blank v
  | inr named ↦ rw named (evicting-IsValid "session revoked" (session_ids session_id h.clients) h v)
]

close_removed-IsValid :
    (reason : String) (id : ℕ) (h : Hub)
    → IsValid h
    → IsValid (close_removed reason (remove_client id h))
close_removed-IsValid reason id h v = go (remove_client id h) (remove_client-IsValid id h v)
  where
    go : (r : Hub × Option Client) → IsValid r.0 → IsValid (close_removed reason r)
    go (h', none) w = w
    go (h', some client) w = if_known-IsValid client.has_conn (close_conn client.id reason) h' w

close_all-IsValid : (ids : List ℕ) (h : Hub) → IsValid h → IsValid (close_all ids h)
unfolding close_all
close_all-IsValid [] h v = v
close_all-IsValid (id ∷ ids) h v =
    close_all-IsValid ids (close_removed "server shutting down" (remove_client id h))
      (close_removed-IsValid "server shutting down" id h v)

pub shutdown-IsValid : (h : Hub) → IsValid h → IsValid (shutdown h)
unfolding shutdown
shutdown-IsValid h v = close_all-IsValid (keys h.clients) h v

length-tail_of-le : (send : List String) → length (tail_of send) ≤ length send
length-tail_of-le [] = omega arith
length-tail_of-le (x ∷ xs) = omega arith

pub take_message-IsValid : (id : ℕ) (h : Hub) → IsValid h → IsValid (take_message id h)
unfolding take_message
take_message-IsValid id h v = elim (Option-cases (get id h.clients)) [
  | inl missing ↦ rw (missing, take_message) v
  | inr (client, found) ↦
      let fits = (All-get ClientOk id client h.clients v.clients_ok found).1 in
      rw (found, take_message)
        (offered id client (tail_of client.send) client.drop_count h found
          (omega (arith, length-tail_of-le client.send)) v)
]
