-- ===== src/Hub/Closing.antt =====
-- A send channel of internal/platform/ws/hub.go is closed once, when its client leaves the hub. (To
-- close a channel twice, or to send on a closed one, is a panic.)
use aloqa_codex.Common.{
  ℕ, String, Bool, true, false, not, ◌&&◌, ◌||◌, List, [], ◌∷◌, ◌++◌, some, ◌≡◌, refl, arith, ltb,
  nat_eqb_iff, if◌then◌else◌, length, Bool-cases, Option-cases, inl, inr, ◌∙◌,
}
use aloqa_codex.Common.Equality.{◌==◌, nat_eq, string_eq, contains, Distinct}
use aloqa_codex.Common.GoMap.{keys, get, set, contains-keys-set, contains-keys-delete}
use aloqa_codex.Hub.Membership.{contains_of_get}
use aloqa_codex.Hub.State.{
  send_buf_size, Client, Effect, close_send, add_subscription, remove_subscription, close_conn,
  record_ws_dropped, record_delivery, Hub, emit, add_drop,
}
use aloqa_codex.Hub.Operations.{
  remove_client, remove_clients, close_conns, close_evicted, append_client,
}
use aloqa_codex.Hub.Messages.{
  Sends, offer, offer_members, offer_user, record_deliveries, if_observer, is_target,
}

-- The ids whose channels were closed, newest first.
abbrev pub closes : List Effect → List ℕ
closes [] = []
closes (close_send id ∷ es) = id ∷ closes es
closes (close_conn _ _ ∷ es) = closes es
closes (record_ws_dropped ∷ es) = closes es
closes (add_subscription _ _ ∷ es) = closes es
closes (remove_subscription _ _ ∷ es) = closes es
closes (record_delivery _ _ _ _ ∷ es) = closes es

-- No channel was closed twice, and none of a client that is still registered.
pub record ClosedOnce (h : Hub) : Type 0 where
  pub once : Distinct (closes h.effects)
  pub gone : (id : ℕ) → (contains id (closes h.effects) && contains id (keys h.clients)) ≡ false

-- An operation that closes nothing and keeps the registered ids.
pub record Quiet (h h' : Hub) : Type 0 where
  pub same_closes : closes h'.effects ≡ closes h.effects
  pub same_keys : (id : ℕ) → contains id (keys h'.clients) ≡ contains id (keys h.clients)

pub Quiet-refl : (h : Hub) → Quiet h h
Quiet-refl h = record { same_closes = refl; same_keys = λ id. refl }

pub Quiet-trans : (h h' h'' : Hub) → Quiet h h' → Quiet h' h'' → Quiet h h''
Quiet-trans h h' h'' p q = record {
  same_closes = q.same_closes ∙ p.same_closes;
  same_keys = λ id. q.same_keys id ∙ p.same_keys id;
}

pub Quiet-ClosedOnce : (h h' : Hub) → Quiet h h' → ClosedOnce h → ClosedOnce h'
Quiet-ClosedOnce h h' q c = record {
  once = rw (q.same_closes) c.once;
  gone = λ id. rw (q.same_closes, q.same_keys id) (c.gone id);
}

pub remove_client-ClosedOnce : (id : ℕ) (h : Hub) → ClosedOnce h → ClosedOnce (remove_client id h).0
unfolding remove_client
remove_client-ClosedOnce id h c = elim (Option-cases (get id h.clients)) [
  | inl missing ↦ rw (missing, remove_client) c
  | inr (client, found) ↦
      let here : contains id (keys h.clients) ≡ true = contains_of_get id client h.clients found in
      rw (found, remove_client)
        (record {
          once = (ground (arith, c.gone id), c.once);
          gone =
              λ j. ground (arith, c.gone j, contains-keys-delete id j h.clients, nat_eqb_iff id j);
        })
]

remove_clients-ClosedOnce :
    (ids : List ℕ) (h : Hub) (evicted : List Client)
    → ClosedOnce h
    → ClosedOnce (remove_clients ids h evicted).0
unfolding remove_clients
remove_clients-ClosedOnce [] h evicted c = c
remove_clients-ClosedOnce (id ∷ ids) h evicted c =
    remove_clients-ClosedOnce ids (remove_client id h).0
      (append_client (remove_client id h).1 evicted) (remove_client-ClosedOnce id h c)

-- ---- the quiet operations

pub written :
    (id : ℕ) (client : Client) (h : Hub)
    → contains id (keys h.clients) ≡ true
    → Quiet h (record h { clients = set id client h.clients })
written id client h here = record {
  same_closes = refl;
  same_keys = λ j. ground (arith, contains-keys-set id j client h.clients, nat_eqb_iff id j);
}

dropped : (b : Bool) (h : Hub) → Quiet h (if b then emit record_ws_dropped h else h)
dropped true h = record { same_closes = refl; same_keys = λ id. refl }
dropped false h = Quiet-refl h

offer-Quiet :
    (message : String) (id : ℕ) (client : Client) (s : Sends)
    → get id s.hub.clients ≡ some client
    → Quiet s.hub (offer message id client s).hub
unfolding offer
offer-Quiet message id client s g =
    let here = contains_of_get id client s.hub.clients g in
    elim (Bool-cases (ltb (length client.send) send_buf_size)) [
      | inl takes ↦
          rw (takes, offer)
            (written id (record client { send = client.send ++ message ∷ []; drop_count = 0 }) s.hub
              here)
      | inr full ↦
          let client' : Client = record client { drop_count = add_drop client.drop_count } in
          let h' : Hub = record (s.hub) { clients = set id client' s.hub.clients } in
          rw (full, offer)
            (Quiet-trans s.hub h' (if_observer h') (written id client' s.hub here)
              (dropped s.hub.has_observer h'))
    ]

pub offer_members-Quiet :
    (message : String) (ids : List ℕ) (s : Sends) → Quiet s.hub (offer_members message ids s).hub
unfolding offer_members
offer_members-Quiet message [] s = Quiet-refl s.hub
offer_members-Quiet message (id ∷ ids) s = elim (Option-cases (get id s.hub.clients)) [
  | inl missing ↦ rw (missing, offer_members) (offer_members-Quiet message ids s)
  | inr (client, found) ↦
      let t = offer message id client s in
      rw (found, offer_members)
        (Quiet-trans s.hub t.hub (offer_members message ids t).hub
          (offer-Quiet message id client s found) (offer_members-Quiet message ids t))
]

pub offer_user-Quiet :
    (message : String) (workspace_id user_id : ℕ) (ids : List ℕ) (s : Sends)
    → Quiet s.hub (offer_user message workspace_id user_id ids s).hub
unfolding offer_user
offer_user-Quiet message workspace_id user_id [] s = Quiet-refl s.hub
offer_user-Quiet message workspace_id user_id (id ∷ ids) s =
    elim (Option-cases (get id s.hub.clients)) [
      | inl missing ↦ rw (missing, offer_user) (offer_user-Quiet message workspace_id user_id ids s)
      | inr (client, found) ↦ elim (Bool-cases (is_target workspace_id user_id client)) [
        | inl target ↦
            let t = offer message id client s in
            rw (found, target, offer_user)
              (Quiet-trans s.hub t.hub (offer_user message workspace_id user_id ids t).hub
                (offer-Quiet message id client s found)
                (offer_user-Quiet message workspace_id user_id ids t))
        | inr other ↦
            rw (found, other, offer_user) (offer_user-Quiet message workspace_id user_id ids s)
      ]
    ]

pub conn_closed :
    (b : Bool) (id : ℕ) (reason : String) (h : Hub)
    → Quiet h (if b then emit (close_conn id reason) h else h)
conn_closed true id reason h = record { same_closes = refl; same_keys = λ j. refl }
conn_closed false id reason h = Quiet-refl h

close_conns-Quiet :
    (reason : String) (evicted : List Client) (h : Hub) → Quiet h (close_conns reason evicted h)
unfolding close_conns
close_conns-Quiet reason [] h = Quiet-refl h
close_conns-Quiet reason (client ∷ rest) h =
    let h' : Hub = if client.has_conn then emit (close_conn client.id reason) h else h in
    Quiet-trans h h' (close_conns reason rest h') (conn_closed client.has_conn client.id reason h)
      (close_conns-Quiet reason rest h')

recorded :
    (b : Bool) (client : Client) (room message : String) (h : Hub)
    → Quiet h (if b then h else emit (record_delivery client.id client.resume_key room message) h)
recorded true client room message h = Quiet-refl h
recorded false client room message h = record { same_closes = refl; same_keys = λ j. refl }

pub record_deliveries-Quiet :
    (room message : String) (delivered : List Client) (h : Hub)
    → Quiet h (record_deliveries room message delivered h)
unfolding record_deliveries
record_deliveries-Quiet room message [] h = Quiet-refl h
record_deliveries-Quiet room message (client ∷ rest) h =
    let skip = not h.has_state || client.resume_key == "" in
    let h' : Hub =
      if skip then h else emit (record_delivery client.id client.resume_key room message) h in
    Quiet-trans h h' (record_deliveries room message rest h') (recorded skip client room message h)
      (record_deliveries-Quiet room message rest h')

pub evicting-ClosedOnce :
    (reason : String) (ids : List ℕ) (h : Hub)
    → ClosedOnce h
    → ClosedOnce (close_evicted reason (remove_clients ids h []))
evicting-ClosedOnce reason ids h c =
    let r = remove_clients ids h [] in
    Quiet-ClosedOnce r.0 (close_conns reason r.1 r.0) (close_conns-Quiet reason r.1 r.0)
      (remove_clients-ClosedOnce ids h [] c)
