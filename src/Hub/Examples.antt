-- ===== src/Hub/Examples.antt =====
-- The hub of internal/platform/ws/hub.go on concrete data: the clients 1 and 2 in one room, the second
-- with four drops behind it and its channel full.
use aloqa_codex.Common.{ℕ, zero, suc, String, true, false, List, [], ◌∷◌, some, ◌≡◌, refl}
use aloqa_codex.Common.Equality.{contains, nat_eq, string_eq}
use aloqa_codex.Common.GoMap.{keys, get}
use aloqa_codex.Hub.State.{Client, Hub}
use aloqa_codex.Hub.Operations.{register, subscribe}
use aloqa_codex.Hub.Messages.{broadcast_sends, broadcast_to_room, send_to_user}
use aloqa_codex.Hub.Invariant.{IsValid}
use aloqa_codex.Hub.Closing.{ClosedOnce}
use aloqa_codex.Hub.Runs.{
  new_hub, Reach, here, next, registers, subscribes, sends_to_room, Reach-new_hub,
}
use aloqa_codex.Hub.Delivery.{offered_if, broadcast_sends_lem}
use aloqa_codex.Hub.Slow.{NoneSlow, broadcast_to_room-NoneSlow, send_to_user-NoneSlow}

abbrev client : ℕ → List String → ℕ → Client
client id send drops = record {
  id = id;
  user_id = id;
  session_id = "s";
  resume_key = "r";
  workspace_id = 1;
  has_conn = true;
  send = send;
  drop_count = drops;
}

abbrev user_text : ℕ → String
user_text n = "u"

-- A run: a client registers, joins a room and is sent a message.
abbrev hub_1 : Hub
hub_1 = register user_text (client 1 [] 0) (new_hub true true)

abbrev hub_2 : Hub
hub_2 = subscribe (some 1) "room" hub_1

abbrev hub_3 : Hub
hub_3 = (broadcast_sends "room" "hello" hub_2).hub

run_2 : Reach (new_hub true true) hub_2
unfolding new_hub
run_2 =
    next
      (next here (
        registers user_text (client 1 [] 0)
          record { no_messages = refl; not_registered = refl; not_closed = refl }))
      (subscribes (some 1) "room")

run_3 : Reach (new_hub true true) hub_3
run_3 = next run_2 (sends_to_room "room" "hello")

Reach-new_hub_example : IsValid hub_3 × ClosedOnce hub_3
Reach-new_hub_example = Reach-new_hub true true hub_3 run_3

delivered : get 1 hub_3.clients ≡ some (client 1 ("hello" ∷ []) 0)
unfolding get new_hub register subscribe broadcast_sends
delivered = refl

hub_2-IsValid : IsValid hub_2
hub_2-IsValid = (Reach-new_hub true true hub_2 run_2).0

room_2 : get "room" hub_2.rooms ≡ some ((1, true) ∷ [])
unfolding get new_hub register subscribe
room_2 = refl

broadcast_sends_lem_example :
    get 1 (broadcast_sends "room" "hello" hub_2).hub.clients
    ≡ offered_if (contains {A = ℕ} 1 (1 ∷ [])) "hello" (get 1 hub_2.clients)
broadcast_sends_lem_example =
    broadcast_sends_lem "room" "hello" hub_2 ((1, true) ∷ []) hub_2-IsValid room_2 1

-- ---- a client that is slow

abbrev full : ℕ → List String
full zero = []
full (suc n) = "m" ∷ full n

abbrev slow_hub : Hub
slow_hub = record {
  clients = (1, client 1 [] 0) ∷ (2, client 2 (full 256) 4) ∷ [];
  rooms = ("room", (1, true) ∷ (2, true) ∷ []) ∷ [];
  has_state = false;
  has_observer = false;
  effects = [];
}

slow_hub-NoneSlow : NoneSlow slow_hub
slow_hub-NoneSlow = (refl, (refl, tt))

evicted : keys (broadcast_to_room "room" "hello" slow_hub).clients ≡ 1 ∷ []
unfolding broadcast_to_room
evicted = refl

broadcast_to_room-NoneSlow_example : NoneSlow (broadcast_to_room "room" "hello" slow_hub)
broadcast_to_room-NoneSlow_example =
    broadcast_to_room-NoneSlow "room" "hello" slow_hub slow_hub-NoneSlow

send_to_user-NoneSlow_example : NoneSlow (send_to_user 1 2 "hello" slow_hub)
send_to_user-NoneSlow_example = send_to_user-NoneSlow 1 2 "hello" slow_hub slow_hub-NoneSlow
