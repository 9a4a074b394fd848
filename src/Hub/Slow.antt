-- ===== src/Hub/Slow.antt =====
-- The slow clients of internal/platform/ws/hub.go: a round of sends evicts whom it finds too slow.
use aloqa_codex.Common.{
  ℕ, String, true, not, ◌||◌, List, [], ◌∷◌, ◌++◌, none, some, ◌≡◌, refl, arith, ltb, nat_eqb,
  nat_eqb_iff, if◌then◌else◌, length, All, Bool-cases, Option-cases, inl, inr, subst, sym,
}
use aloqa_codex.Common.Equality.{◌==◌, nat_eq, string_eq, contains, contains-append}
use aloqa_codex.Common.GoMap.{GoMap, keys, get, set, delete, All-set, All-get}
use aloqa_codex.Hub.State.{
  send_buf_size, max_slow_drops, Client, close_conn, record_delivery, Hub, emit, add_drop, is_slow,
}
use aloqa_codex.Hub.Operations.{remove_client, remove_clients, close_conns, append_client}
use aloqa_codex.Hub.Messages.{
  Sends, offer, offer_members, offer_user, no_sends, broadcast_sends, user_sends, record_deliveries,
  evict_slow_clients, finish_sends, broadcast_to_room, send_to_user, if_observer, is_target,
}

-- A client is below the limit of drops, or will be evicted.
abbrev pub Calm : List ℕ → ℕ × Client → Type 0
Calm ids (id, client) = (ltb client.drop_count max_slow_drops || contains id ids) ≡ true

Calm-mono :
    (ids more : List ℕ) (clients : GoMap ℕ Client)
    → All (Calm ids) clients
    → All (Calm (ids ++ more)) clients
Calm-mono ids more [] h = tt
Calm-mono ids more ((id, client) ∷ clients) (now, later) =
    (ground (arith, contains-append id ids more), Calm-mono ids more clients later)

abbrev listed : ℕ → ℕ → List ℕ → List ℕ
listed id drops ids = if is_slow drops then ids ++ id ∷ [] else ids

-- One more drop: the client stays below the limit or is listed.
drop-Calm :
    (id : ℕ) (client : Client) (ids : List ℕ) (clients : GoMap ℕ Client)
    → get id clients ≡ some client
    → All (Calm ids) clients
    → let drops = add_drop client.drop_count in
      All (Calm (listed id drops ids)) (set id (record client { drop_count = drops }) clients)
drop-Calm id client ids clients g h =
    let calm = All-get (Calm ids) id client clients h g in
    let drops = add_drop client.drop_count in
    elim (Bool-cases (is_slow drops)) [
      | inl slow ↦ rw slow (
          All-set (Calm (ids ++ id ∷ [])) id (record client { drop_count = drops }) clients
            (ground (arith, contains-append id ids (id ∷ []), nat_eqb_iff id id))
            (Calm-mono ids (id ∷ []) clients h))
      | inr quick ↦
          rw quick
            (All-set (Calm ids) id (record client { drop_count = drops }) clients (ground arith) h)
    ]

clients-if_observer : (h : Hub) → (if_observer h).clients ≡ h.clients
clients-if_observer h = ground arith

offer-Calm :
    (message : String) (id : ℕ) (client : Client) (s : Sends)
    → get id s.hub.clients ≡ some client
    → All (Calm s.to_evict) s.hub.clients
    → All (Calm (offer message id client s).to_evict) (offer message id client s).hub.clients
unfolding offer
offer-Calm message id client s g h = elim (Bool-cases (ltb (length client.send) send_buf_size)) [
  | inl takes ↦
      rw (takes, offer)
        (All-set (Calm s.to_evict) id
          (record client { send = client.send ++ message ∷ []; drop_count = 0 }) s.hub.clients
          (ground arith) h)
  | inr full ↦
      rw (full, offer)
        (subst (All (Calm (listed id (add_drop client.drop_count) s.to_evict)))
          (sym (
            clients-if_observer (record (s.hub) {
              clients =
                  set id (record client { drop_count = add_drop client.drop_count }) s.hub.clients;
            })))
          (drop-Calm id client s.to_evict s.hub.clients g h))
]

offer_members-Calm :
    (message : String) (ids : List ℕ) (s : Sends)
    → All (Calm s.to_evict) s.hub.clients
    → let t = offer_members message ids s in All (Calm t.to_evict) t.hub.clients
unfolding offer_members
offer_members-Calm message [] s h = h
offer_members-Calm message (id ∷ ids) s h = elim (Option-cases (get id s.hub.clients)) [
  | inl missing ↦ rw (missing, offer_members) (offer_members-Calm message ids s h)
  | inr (client, found) ↦
      rw (found, offer_members)
        (offer_members-Calm message ids (offer message id client s)
          (offer-Calm message id client s found h))
]

offer_user-Calm :
    (message : String) (workspace_id user_id : ℕ) (ids : List ℕ) (s : Sends)
    → All (Calm s.to_evict) s.hub.clients
    → let t = offer_user message workspace_id user_id ids s in All (Calm t.to_evict) t.hub.clients
unfolding offer_user
offer_user-Calm message workspace_id user_id [] s h = h
offer_user-Calm message workspace_id user_id (id ∷ ids) s h =
    elim (Option-cases (get id s.hub.clients)) [
      | inl missing ↦
          rw (missing, offer_user) (offer_user-Calm message workspace_id user_id ids s h)
      | inr (client, found) ↦ elim (Bool-cases (is_target workspace_id user_id client)) [
        | inl target ↦
            rw (found, target, offer_user)
              (offer_user-Calm message workspace_id user_id ids (offer message id client s)
                (offer-Calm message id client s found h))
        | inr other ↦
            rw (found, other, offer_user) (offer_user-Calm message workspace_id user_id ids s h)
      ]
    ]

-- ---- the eviction

delete-Calm :
    (id : ℕ) (ids : List ℕ) (clients : GoMap ℕ Client)
    → All (Calm (id ∷ ids)) clients
    → All (Calm ids) (delete id clients)
unfolding delete
delete-Calm id ids [] h = tt
delete-Calm id ids ((j, client) ∷ clients) (now, later) = elim (Bool-cases (nat_eqb j id)) [
  | inl hit ↦ rw hit (delete-Calm id ids clients later)
  | inr miss ↦
      rw miss (ground (arith, nat_eqb_iff id j, nat_eqb_iff j id), delete-Calm id ids clients later)
]

-- A client that is not there needs no eviction.
missing-Calm :
    (id : ℕ) (ids : List ℕ) (clients : GoMap ℕ Client)
    → get id clients ≡ none
    → All (Calm (id ∷ ids)) clients
    → All (Calm ids) clients
unfolding get
missing-Calm id ids [] g h = tt
missing-Calm id ids ((j, client) ∷ clients) g (now, later) = elim (Bool-cases (nat_eqb j id)) [
  | inl hit ↦ absurd (cc (rw (hit, get) at g))
  | inr miss ↦ (
    ground (arith, nat_eqb_iff id j, nat_eqb_iff j id),
    missing-Calm id ids clients (rw (miss, get) at g) later,
  )
]

remove_client-Calm :
    (id : ℕ) (ids : List ℕ) (h : Hub)
    → All (Calm (id ∷ ids)) h.clients
    → All (Calm ids) (remove_client id h).0.clients
unfolding remove_client
remove_client-Calm id ids h c = elim (Option-cases (get id h.clients)) [
  | inl missing ↦ rw (missing, remove_client) (missing-Calm id ids h.clients missing c)
  | inr (client, found) ↦ rw (found, remove_client) (delete-Calm id ids h.clients c)
]

remove_clients-Calm :
    (ids : List ℕ) (h : Hub) (evicted : List Client)
    → All (Calm ids) h.clients
    → All (Calm []) (remove_clients ids h evicted).0.clients
unfolding remove_clients
remove_clients-Calm [] h evicted c = c
remove_clients-Calm (id ∷ ids) h evicted c =
    remove_clients-Calm ids (remove_client id h).0 (append_client (remove_client id h).1 evicted)
      (remove_client-Calm id ids h c)

clients-close_conns :
    (reason : String) (evicted : List Client) (h : Hub)
    → (close_conns reason evicted h).clients ≡ h.clients
unfolding close_conns
clients-close_conns reason [] h = refl
clients-close_conns reason (client ∷ rest) h = ground (
  arith,
  clients-close_conns reason rest
      (if client.has_conn then emit (close_conn client.id reason) h else h),
)

clients-record_deliveries :
    (room message : String) (delivered : List Client) (h : Hub)
    → (record_deliveries room message delivered h).clients ≡ h.clients
unfolding record_deliveries
clients-record_deliveries room message [] h = refl
clients-record_deliveries room message (client ∷ rest) h = ground (
  arith,
  clients-record_deliveries room message rest (
      if not h.has_state || client.resume_key == ""
      then h
      else emit (record_delivery client.id client.resume_key room message) h),
)

finish_sends-Calm :
    (room message : String) (s : Sends)
    → All (Calm s.to_evict) s.hub.clients
    → All (Calm []) (finish_sends room message s).clients
unfolding evict_slow_clients
finish_sends-Calm room message s c =
    let h = record_deliveries room message s.delivered s.hub in
    rw
      (clients-close_conns "send buffer overflow" (remove_clients s.to_evict h []).1
        (remove_clients s.to_evict h []).0)
      (remove_clients-Calm s.to_evict h []
        (rw (clients-record_deliveries room message s.delivered s.hub) c))

-- No client of the hub has dropped as many messages in a row as the limit.
abbrev pub NoneSlow : Hub → Type 0
NoneSlow h = All (Calm []) h.clients

-- When every registered client has fewer than `maxSlowDrops` drops, the same holds after
-- `BroadcastToRoom`: a client that reaches the limit is removed in the same call.
pub broadcast_to_room-NoneSlow :
    (room message : String) (h : Hub) → NoneSlow h → NoneSlow (broadcast_to_room room message h)
unfolding broadcast_to_room broadcast_sends
broadcast_to_room-NoneSlow room message h c =
    finish_sends-Calm room message (broadcast_sends room message h)
      (elim (Option-cases (get room h.rooms)) [
        | inl missing ↦ rw (missing, broadcast_sends) c
        | inr (members, found) ↦
            rw (found, broadcast_sends) (offer_members-Calm message (keys members) (no_sends h) c)
      ])

-- When every registered client has fewer than `maxSlowDrops` drops, the same holds after `SendToUser`: a
-- client that reaches the limit is removed in the same call.
pub send_to_user-NoneSlow :
    (workspace_id user_id : ℕ) (message : String) (h : Hub)
    → NoneSlow h
    → NoneSlow (send_to_user workspace_id user_id message h)
unfolding send_to_user user_sends
send_to_user-NoneSlow workspace_id user_id message h c =
    finish_sends-Calm "" message (user_sends workspace_id user_id message h)
      (offer_user-Calm message workspace_id user_id (keys h.clients) (no_sends h) c)
