-- ===== src/Hub/Delivery.antt =====
-- Whom `BroadcastToRoom` of internal/platform/ws/hub.go reaches, and what `Subscribe`, `Unsubscribe`
-- and the removal of a client do to the rooms.
use aloqa_codex.Common.{
  ℕ, String, Bool, true, false, List, [], ◌∷◌, ◌++◌, Option, none, some, ◌≡◌, arith, ltb,
  nat_eqb_iff, if◌then◌else◌, length, Option-cases, inl, inr,
}
use aloqa_codex.Common.Equality.{nat_eq, string_eq, contains, Distinct}
use aloqa_codex.Common.GoMap.{GoMap, keys, get, set, get-set, All-get}
use aloqa_codex.Hub.State.{send_buf_size, Client, Hub, add_drop}
use aloqa_codex.Hub.Messages.{Sends, offer, offer_members, no_sends, broadcast_sends}
use aloqa_codex.Hub.Invariant.{RoomOk, IsValid}

-- What a send does to one client: the message is appended, or the drop is counted.
abbrev pub after_offer : String → Client → Client
after_offer message client =
    if ltb (length client.send) send_buf_size
    then record client { send = client.send ++ message ∷ []; drop_count = 0 }
    else record client { drop_count = add_drop client.drop_count }

clients-offer :
    (message : String) (id : ℕ) (client : Client) (s : Sends)
    → (offer message id client s).hub.clients ≡ set id (after_offer message client) s.hub.clients
unfolding offer
clients-offer message id client s = ground arith

abbrev pub offered_if : Bool → String → Option Client → Option Client
offered_if b message none = none
offered_if true message (some client) = some (after_offer message client)
offered_if false message (some client) = some client

get-offer_members :
    (message : String) (ids : List ℕ) (id : ℕ) (s : Sends)
    → Distinct ids
    → get id (offer_members message ids s).hub.clients
      ≡ offered_if (contains id ids) message (get id s.hub.clients)
unfolding offer_members
get-offer_members message [] id s d = ground arith
get-offer_members message (j ∷ ids) id s (new, d) = elim (Option-cases (get j s.hub.clients)) [
  | inl missing ↦
      rw (missing, offer_members)
        (ground (arith, get-offer_members message ids id s d, nat_eqb_iff j id, missing))
  | inr (client, found) ↦
      rw (found, offer_members)
        (ground (
          arith,
          get-offer_members message ids id (offer message j client s) d,
          clients-offer message j client s,
          get-set j id (after_offer message client) s.hub.clients,
          nat_eqb_iff j id,
          found,
          new,
        ))
]

-- Over a valid hub a broadcast offers the message once to each member of the room, and to no other
-- client: every client but the members is as before, and a member's channel has the message at its
-- end, or is full and one more drop is counted.
pub broadcast_sends_lem :
    (room message : String) (h : Hub) (members : GoMap ℕ Bool)
    → IsValid h
    → get room h.rooms ≡ some members
    → (id : ℕ)
    → get id (broadcast_sends room message h).hub.clients
      ≡ offered_if (contains id (keys members)) message (get id h.clients)
unfolding broadcast_sends
broadcast_sends_lem room message h members v found id =
    rw (found, broadcast_sends)
      (get-offer_members message (keys members) id (no_sends h)
        (All-get (RoomOk h.clients) room members h.rooms v.rooms_ok found).1)
