-- ===== src/Hub/Membership.antt =====
-- The registrations and the rooms keep the hub of internal/platform/ws/hub.go valid.
use aloqa_codex.Common.{
  ℕ, ◌≤◌, String, Bool, true, false, List, [], ◌∷◌, Option, none, some, ◌≡◌, refl, arith,
  nat_eqb_iff, if◌then◌else◌, length, All, Bool-cases, Option-cases, inl, inr,
}
use aloqa_codex.Common.Equality.{nat_eq, string_eq, contains, Distinct}
use aloqa_codex.Common.GoMap.{
  GoMap, keys, get, set, delete, contains-keys, contains-keys-set, set-Distinct, delete-Distinct,
  All-set, All-delete, All-get,
}
use aloqa_codex.Hub.State.{
  send_buf_size, Client, Effect, Hub, emit, add_subscription, remove_subscription,
}
use aloqa_codex.Hub.Operations.{
  is_empty, remove_client, join, signal_room, register, subscribe, unsubscribe, leave, members_of,
  unregister, if_state, resume_key_of,
}
use aloqa_codex.Hub.Invariant.{
  RoomOk, ClientOk, IsValid, Registered, RoomOk-mono, leave_rooms-RoomOk, leave_rooms-Distinct,
}

pub remove_client-IsValid : (id : ℕ) (h : Hub) → IsValid h → IsValid (remove_client id h).0
unfolding remove_client
remove_client-IsValid id h v = elim (Option-cases (get id h.clients)) [
  | inl missing ↦ rw (missing, remove_client) v
  | inr (client, found) ↦
      rw (found, remove_client)
        (record {
          client_keys = delete-Distinct id h.clients v.client_keys;
          clients_ok = All-delete ClientOk id h.clients v.clients_ok;
          room_keys = leave_rooms-Distinct id h.rooms v.room_keys;
          rooms_ok = leave_rooms-RoomOk id h.clients h.rooms v.rooms_ok;
        })
]

pub unregister-IsValid : (client : Client) (h : Hub) → IsValid h → IsValid (unregister client h)
unfolding unregister
unregister-IsValid client h v = remove_client-IsValid client.id h v

members_of-ok :
    (clients : GoMap ℕ Client) (room : String) (rooms : GoMap String (GoMap ℕ Bool))
    → All (RoomOk clients) rooms
    → Distinct (keys (members_of (get room rooms)))
      × Registered clients (keys (members_of (get room rooms)))
members_of-ok clients room rooms h = elim (Option-cases (get room rooms)) [
  | inl missing ↦ rw missing (tt, tt)
  | inr (members, found) ↦
      let ok = All-get (RoomOk clients) room members rooms h found in rw found (ok.1, ok.2)
]

set_not_empty : (id : ℕ) (members : GoMap ℕ Bool) → is_empty (set id true members) ≡ false
unfolding set
set_not_empty id [] = refl
set_not_empty id ((j, b) ∷ members) = ground arith

Registered-set :
    (clients : GoMap ℕ Client) (id : ℕ) (members : GoMap ℕ Bool)
    → contains id (keys clients) ≡ true
    → Registered clients (keys members)
    → Registered clients (keys (set id true members))
unfolding set
Registered-set clients id [] now h = (now, tt)
Registered-set clients id ((j, b) ∷ members) now (first, later) =
    ground (arith, Registered-set clients id members)

join-RoomOk :
    (clients : GoMap ℕ Client) (room : String) (id : ℕ) (rooms : GoMap String (GoMap ℕ Bool))
    → contains id (keys clients) ≡ true
    → All (RoomOk clients) rooms
    → All (RoomOk clients) (join room id rooms)
unfolding join
join-RoomOk clients room id rooms now h =
    let (distinct, registered) = members_of-ok clients room rooms h in
    All-set (RoomOk clients) room (set id true (members_of (get room rooms))) rooms
      (
        set_not_empty id (members_of (get room rooms)),
        set-Distinct id true (members_of (get room rooms)) distinct,
        Registered-set clients id (members_of (get room rooms)) now registered,
      )
      h

join-Distinct :
    (room : String) (id : ℕ) (rooms : GoMap String (GoMap ℕ Bool))
    → Distinct (keys rooms)
    → Distinct (keys (join room id rooms))
unfolding join
join-Distinct room id rooms d =
    set-Distinct room (set id true (members_of (get room rooms))) rooms d

pub register-IsValid :
    (user_text : ℕ → String) (client : Client) (h : Hub)
    → length client.send ≤ send_buf_size
    → IsValid h
    → IsValid (register user_text client h)
unfolding register
register-IsValid user_text client h room_left v = record {
  client_keys = set-Distinct client.id client h.clients v.client_keys;
  clients_ok = All-set ClientOk client.id client h.clients (refl, room_left) v.clients_ok;
  room_keys = join-Distinct (signal_room user_text client) client.id h.rooms v.room_keys;
  rooms_ok =
      join-RoomOk (set client.id client h.clients) (signal_room user_text client) client.id h.rooms
        (ground (
          arith,
          contains-keys-set client.id client.id client h.clients,
          nat_eqb_iff client.id client.id,
        ))
        (RoomOk-mono h.clients (set client.id client h.clients) h.rooms
          (λ id k. ground (arith, contains-keys-set client.id id client h.clients)) v.rooms_ok);
}

pub contains_of_get :
    (id : ℕ) (client : Client) (clients : GoMap ℕ Client)
    → get id clients ≡ some client
    → contains id (keys clients) ≡ true
contains_of_get id client clients g = rw (contains-keys id clients, g)

emitted : (e : Effect) (h : Hub) → IsValid h → IsValid (emit e h)
emitted e h v = record {
  client_keys = v.client_keys;
  clients_ok = v.clients_ok;
  room_keys = v.room_keys;
  rooms_ok = v.rooms_ok;
}

pub with_effects : (es : List Effect) (h : Hub) → IsValid h → IsValid (record h { effects = es })
with_effects es h v = record {
  client_keys = v.client_keys;
  clients_ok = v.clients_ok;
  room_keys = v.room_keys;
  rooms_ok = v.rooms_ok;
}

pub with_rooms :
    (rooms : GoMap String (GoMap ℕ Bool)) (h : Hub)
    → Distinct (keys rooms)
    → All (RoomOk h.clients) rooms
    → IsValid h
    → IsValid (record h { rooms = rooms })
with_rooms rooms h d r v = record {
  client_keys = v.client_keys;
  clients_ok = v.clients_ok;
  room_keys = d;
  rooms_ok = r;
}

pub if_known-IsValid :
    (b : Bool) (e : Effect) (h : Hub) → IsValid h → IsValid (if b then emit e h else h)
if_known-IsValid true e h v = with_effects (e ∷ h.effects) h v
if_known-IsValid false e h v = v

pub if_state-IsValid : (e : Effect) (h : Hub) → IsValid h → IsValid (if_state e h)
if_state-IsValid e h v = if_known-IsValid h.has_state e h v

pub subscribe-IsValid :
    (id : Option ℕ) (room : String) (h : Hub) → IsValid h → IsValid (subscribe id room h)
unfolding subscribe
subscribe-IsValid none room h v = v
subscribe-IsValid (some id) room h v = elim (Option-cases (get id h.clients)) [
  | inl missing ↦ rw (missing, subscribe) v
  | inr (client, found) ↦
      rw (found, subscribe)
        (if_state-IsValid (add_subscription client.resume_key room)
          (record h { rooms = join room id h.rooms })
          (with_rooms (join room id h.rooms) h (join-Distinct room id h.rooms v.room_keys)
            (join-RoomOk h.clients room id h.rooms (contains_of_get id client h.clients found)
              v.rooms_ok)
            v))
]

Registered-keep :
    (clients : GoMap ℕ Client) (id : ℕ) (members : GoMap ℕ Bool)
    → Registered clients (keys members)
    → Registered clients (keys (delete id members))
unfolding delete
Registered-keep clients id [] h = tt
Registered-keep clients id ((j, b) ∷ members) (now, later) =
    ground (arith, Registered-keep clients id members)

leave-ok :
    (clients : GoMap ℕ Client) (room : String) (id : ℕ) (members : GoMap ℕ Bool)
    (rooms : GoMap String (GoMap ℕ Bool))
    → RoomOk clients (room, members)
    → Distinct (keys rooms)
    → All (RoomOk clients) rooms
    → Distinct (keys (leave room id members rooms))
      × All (RoomOk clients) (leave room id members rooms)
leave-ok clients room id members rooms (full, distinct, here) d r =
    elim (Bool-cases (is_empty (delete id members))) [
      | inl emptied ↦
          rw emptied (delete-Distinct room rooms d, All-delete (RoomOk clients) room rooms r)
      | inr left ↦ rw left (
        set-Distinct room (delete id members) rooms d,
        All-set (RoomOk clients) room (delete id members) rooms
            (left, delete-Distinct id members distinct, Registered-keep clients id members here) r,
      )
    ]

pub unsubscribe-IsValid :
    (id : Option ℕ) (room : String) (h : Hub) → IsValid h → IsValid (unsubscribe id room h)
unfolding unsubscribe
unsubscribe-IsValid none room h v = v
unsubscribe-IsValid (some id) room h v = elim (Option-cases (get room h.rooms)) [
  | inl missing ↦ rw (missing, unsubscribe) v
  | inr (members, found) ↦
      let (d, r) =
        leave-ok h.clients room id members h.rooms
          (All-get (RoomOk h.clients) room members h.rooms v.rooms_ok found) v.room_keys
          v.rooms_ok in
      rw (found, unsubscribe)
        (if_known-IsValid _ (remove_subscription (resume_key_of (get id h.clients)) room)
          (record h { rooms = leave room id members h.rooms })
          (with_rooms (leave room id members h.rooms) h d r v))
]
