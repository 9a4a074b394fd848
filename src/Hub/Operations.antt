-- ===== src/Hub/Operations.antt =====
-- The operations of internal/platform/ws/hub.go.
use Prim.Native.String.{◌++◌ as text_append}
use aloqa_codex.Common.{
  ℕ, String, Bool, true, false, not, ◌&&◌, List, [], ◌∷◌, ◌++◌, Option, none, some, if◌then◌else◌,
}
use aloqa_codex.Common.Equality.{◌==◌, nat_eq, string_eq}
use aloqa_codex.Common.GoMap.{GoMap, keys, get, set, delete}
use aloqa_codex.Hub.State.{
  Client, Effect, close_send, close_conn, add_subscription, remove_subscription, Hub, emit,
}

abbrev pub is_empty {ℓ} : {A : Type ℓ} → List A → Bool
is_empty [] = true
is_empty (_ ∷ _) = false

-- `delete(members, clientID)` in every room, and the rooms that it empties.
unfoldable pub leave_rooms : ℕ → GoMap String (GoMap ℕ Bool) → GoMap String (GoMap ℕ Bool)
unfolding delete
leave_rooms id [] = []
leave_rooms id ((room, members) ∷ rooms) =
    let members' = delete id members in
    if is_empty members' then leave_rooms id rooms else (room, members') ∷ leave_rooms id rooms

-- `removeClientLocked`
unfoldable pub remove_client : ℕ → Hub → Hub × Option Client
unfolding get delete leave_rooms
remove_client id h = elim (get id h.clients) [
  | none ↦ (h, none)
  | some client ↦ (
    record h {
      clients = delete id h.clients;
      rooms = leave_rooms id h.rooms;
      effects = close_send id ∷ h.effects;
    },
    some client,
  )
]

-- `if removed := …; removed != nil && removed.Conn != nil { removed.Conn.Close(…) }`
abbrev pub close_removed : String → Hub × Option Client → Hub
close_removed reason (h, none) = h
close_removed reason (h, some client) =
    if client.has_conn then emit (close_conn client.id reason) h else h

abbrev pub members_of : Option (GoMap ℕ Bool) → GoMap ℕ Bool
members_of none = []
members_of (some members) = members

-- `if h.rooms[room] == nil { … }; h.rooms[room][id] = true`
unfoldable pub join : String → ℕ → GoMap String (GoMap ℕ Bool) → GoMap String (GoMap ℕ Bool)
unfolding get set
join room id rooms = set room (set id true (members_of (get room rooms))) rooms

-- The user's own room; `user_text` is the UUID package's formatting.
abbrev pub signal_room : (ℕ → String) → Client → String
signal_room user_text client = text_append "aloqa.signal." (user_text client.user_id)

-- `case client := <-h.register`
unfoldable pub register : (ℕ → String) → Client → Hub → Hub
unfolding join set
register user_text client h = record h {
  clients = set client.id client h.clients;
  rooms = join (signal_room user_text client) client.id h.rooms;
}

-- `case client := <-h.unregister`
unfoldable pub unregister : Client → Hub → Hub
unfolding remove_client
unregister client h = (remove_client client.id h).0

abbrev pub append_client : Option Client → List Client → List Client
append_client none evicted = evicted
append_client (some client) evicted = evicted ++ client ∷ []

-- A loop that removes clients and collects those that it found.
unfoldable pub remove_clients : List ℕ → Hub → List Client → Hub × List Client
unfolding remove_client
remove_clients [] h evicted = (h, evicted)
remove_clients (id ∷ ids) h evicted =
    let (h', removed) = remove_client id h in remove_clients ids h' (append_client removed evicted)

-- After the lock is given back the connections are closed.
unfoldable pub close_conns : String → List Client → Hub → Hub
close_conns reason [] h = h
close_conns reason (client ∷ rest) h =
    close_conns reason rest (if client.has_conn then emit (close_conn client.id reason) h else h)

abbrev pub close_evicted : String → Hub × List Client → Hub
close_evicted reason (h, evicted) = close_conns reason evicted h

-- The ids that the range over the clients finds in a session.
unfoldable pub session_ids : String → GoMap ℕ Client → List ℕ
session_ids session_id [] = []
session_ids session_id ((id, client) ∷ rest) =
    if client.session_id == session_id
    then id ∷ session_ids session_id rest
    else session_ids session_id rest

-- `case sessionID := <-h.evict`
unfoldable pub evict_session : String → Hub → Hub
unfolding remove_clients close_conns session_ids
evict_session session_id h =
    if session_id == ""
    then h
    else close_evicted "session revoked" (remove_clients (session_ids session_id h.clients) h [])

-- `case <-ctx.Done()`
unfoldable pub close_all : List ℕ → Hub → Hub
unfolding remove_client
close_all [] h = h
close_all (id ∷ ids) h = close_all ids (close_removed "server shutting down" (remove_client id h))

unfoldable pub shutdown : Hub → Hub
unfolding close_all
shutdown h = close_all (keys h.clients) h

abbrev pub if_state : Effect → Hub → Hub
if_state e h = if h.has_state then emit e h else h

-- `Subscribe`; `none` is a client id that is no UUID.
unfoldable pub subscribe : Option ℕ → String → Hub → Hub
unfolding get join
subscribe none room h = h
subscribe (some id) room h = elim (get id h.clients) [
  | none ↦ h
  | some client ↦
      if_state (add_subscription client.resume_key room) (record h { rooms = join room id h.rooms })
]

-- `delete(members, id); if len(members) == 0 { delete(h.rooms, room) }`
abbrev pub leave :
    String → ℕ → GoMap ℕ Bool → GoMap String (GoMap ℕ Bool) → GoMap String (GoMap ℕ Bool)
leave room id members rooms =
    let members' = delete id members in
    if is_empty members' then delete room rooms else set room members' rooms

abbrev pub resume_key_of : Option Client → String
resume_key_of none = ""
resume_key_of (some client) = client.resume_key

unfoldable pub unsubscribe : Option ℕ → String → Hub → Hub
unfolding get set delete
unsubscribe none room h = h
unsubscribe (some id) room h = elim (get room h.rooms) [
  | none ↦ h
  | some members ↦
      let resume_key = resume_key_of (get id h.clients) in
      let h' = record h { rooms = leave room id members h.rooms } in
      if h.has_state && not (resume_key == "")
      then emit (remove_subscription resume_key room) h'
      else h'
]
