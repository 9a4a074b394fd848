-- ===== src/Hub/Invariant.antt =====
-- What holds of the hub of internal/platform/ws/hub.go between two critical sections.
use aloqa_codex.Common.{
  ℕ, ◌≤◌, String, Bool, true, false, List, [], ◌∷◌, ◌≡◌, refl, arith, nat_eqb, length, All,
  Bool-cases, inl, inr,
}
use aloqa_codex.Common.Equality.{nat_eq, string_eq, contains, Distinct}
use aloqa_codex.Common.GoMap.{GoMap, keys, delete, contains-keys-delete, delete-Distinct}
use aloqa_codex.Hub.State.{send_buf_size, Client, Hub}
use aloqa_codex.Hub.Operations.{is_empty, leave_rooms}

-- A room has members, each once, and each is a registered client.
abbrev pub RoomOk : GoMap ℕ Client → String × GoMap ℕ Bool → Type 0
RoomOk clients (room, members) =
    (is_empty members ≡ false)
    × Distinct (keys members)
    × All (λ (id : ℕ). contains id (keys clients) ≡ true) (keys members)

-- A client stands under its id, and its channel is not over its size.
abbrev pub ClientOk : ℕ × Client → Type 0
ClientOk (id, client) = (client.id ≡ id) × (length client.send ≤ send_buf_size)

pub record IsValid (h : Hub) : Type 0 where
  pub client_keys : Distinct (keys h.clients)
  pub clients_ok : All ClientOk h.clients
  pub room_keys : Distinct (keys h.rooms)
  pub rooms_ok : All (RoomOk h.clients) h.rooms

-- ---- rooms over a changed set of clients

abbrev pub Registered : GoMap ℕ Client → List ℕ → Type 0
Registered clients ids = All (λ (id : ℕ). contains id (keys clients) ≡ true) ids

Registered-mono :
    (clients clients' : GoMap ℕ Client) (ids : List ℕ)
    → ((id : ℕ) → contains id (keys clients) ≡ true → contains id (keys clients') ≡ true)
    → Registered clients ids
    → Registered clients' ids
Registered-mono clients clients' [] f h = tt
Registered-mono clients clients' (id ∷ ids) f (now, later) =
    (f id now, Registered-mono clients clients' ids f later)

pub RoomOk-mono :
    (clients clients' : GoMap ℕ Client) (rooms : GoMap String (GoMap ℕ Bool))
    → ((id : ℕ) → contains id (keys clients) ≡ true → contains id (keys clients') ≡ true)
    → All (RoomOk clients) rooms
    → All (RoomOk clients') rooms
RoomOk-mono clients clients' [] f h = tt
RoomOk-mono clients clients' ((room, members) ∷ rooms) f ((full, distinct, here), later) = (
  (full, distinct, Registered-mono clients clients' (keys members) f here),
  RoomOk-mono clients clients' rooms f later,
)

-- Members but the removed one are registered without it.
Registered-delete :
    (id : ℕ) (clients : GoMap ℕ Client) (members : GoMap ℕ Bool)
    → Registered clients (keys members)
    → Registered (delete id clients) (keys (delete id members))
unfolding delete
Registered-delete id clients [] h = tt
Registered-delete id clients ((j, b) ∷ members) (now, later) = elim (Bool-cases (nat_eqb j id)) [
  | inl hit ↦ rw hit (Registered-delete id clients members later)
  | inr miss ↦ rw miss (
    ground (arith, contains-keys-delete id j clients),
    Registered-delete id clients members later,
  )
]

pub leave_rooms-RoomOk :
    (id : ℕ) (clients : GoMap ℕ Client) (rooms : GoMap String (GoMap ℕ Bool))
    → All (RoomOk clients) rooms
    → All (RoomOk (delete id clients)) (leave_rooms id rooms)
unfolding leave_rooms
leave_rooms-RoomOk id clients [] h = tt
leave_rooms-RoomOk id clients ((room, members) ∷ rooms) ((full, distinct, here), later) =
    elim (Bool-cases (is_empty (delete id members))) [
      | inl emptied ↦ rw (emptied, leave_rooms) (leave_rooms-RoomOk id clients rooms later)
      | inr left ↦
          rw (left, leave_rooms)
            (
              (
                left,
                delete-Distinct id members distinct,
                Registered-delete id clients members here,
              ),
              leave_rooms-RoomOk id clients rooms later,
            )
    ]

leave_rooms-keys :
    (id : ℕ) (room : String) (rooms : GoMap String (GoMap ℕ Bool))
    → contains room (keys rooms) ≡ false
    → contains room (keys (leave_rooms id rooms)) ≡ false
unfolding leave_rooms
leave_rooms-keys id room [] h = refl
leave_rooms-keys id room ((r, members) ∷ rooms) h = ground (arith, leave_rooms-keys id room rooms)

pub leave_rooms-Distinct :
    (id : ℕ) (rooms : GoMap String (GoMap ℕ Bool))
    → Distinct (keys rooms)
    → Distinct (keys (leave_rooms id rooms))
unfolding leave_rooms
leave_rooms-Distinct id [] d = tt
leave_rooms-Distinct id ((room, members) ∷ rooms) d =
    ground (arith, leave_rooms-keys id room rooms, leave_rooms-Distinct id rooms)
