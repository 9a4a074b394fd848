-- ===== src/Collaboration/Agreement.antt =====
-- The runs of internal/service/collaboration/service.go on its table: calls in any order, each with the members
-- and roles of its time, and with a database that may fail and come back between them.
use aloqa_codex.Common.{
  ℕ, true, false, List, [], ◌∷◌, Option, none, some, ◌≡◌, ◌≢◌, ◌⊎◌, inl, inr, refl, sym, subst,
  arith, any, nat_eqb, Option-cases, Bool-cases, All,
}
use aloqa_codex.Cerrors.{GoError, ok, Result-cases}
use aloqa_codex.Security.Rbac.Parse.{collaboration_manage}
use aloqa_codex.Collaboration.Policy.{
  WorkspaceConnection, WorkspaceConnectionPolicy, pending, active, validate_policy,
}
use aloqa_codex.Collaboration.Store.{
  Store, is_pair, clashes, create_connection, find_pair, get_connection, update_rows,
  update_connection_status,
}
use aloqa_codex.Collaboration.Service.{
  Service, require_permission, new_connection, request_checks, request_connection, approve_checks,
  approve_connection,
}
use aloqa_codex.Collaboration.Lifecycle.{
  IsKeyed, approved, request_connection-IsKeyed, approve_connection-IsKeyed, find_pair-no_clash,
}

-- Runs, with the service of every call, the last one first.
pub data Calls : List Service → Store → Type 0 where
  empty : (fault : Option GoError) → Calls [] (record { fault = fault; connections = [] })
  requests :
      (ss : List Service) (s : Service) (db : Store) (source target actor : ℕ)
      (policy : WorkspaceConnectionPolicy) (id now : ℕ)
      → Calls ss db
      → Calls (s ∷ ss) (request_connection s db source target actor policy id now).0
  approves :
      (ss : List Service) (s : Service) (db : Store) (source target actor now : ℕ)
      → Calls ss db
      → Calls (s ∷ ss) (approve_connection s db source target actor now).0
  fails :
      (ss : List Service) (db : Store) (fault : Option GoError)
      → Calls ss db
      → Calls ss (record db { fault = fault })

Calls-IsKeyed : (ss : List Service) (db : Store) → Calls ss db → IsKeyed db.connections
Calls-IsKeyed ss db (empty fault) = tt
Calls-IsKeyed ss db (requests rs s b source target actor policy id now calls) =
    request_connection-IsKeyed s b source target actor policy id now (Calls-IsKeyed rs b calls)
Calls-IsKeyed ss db (approves rs s b source target actor now calls) =
    approve_connection-IsKeyed s b source target actor now (Calls-IsKeyed rs b calls)
Calls-IsKeyed ss db (fails rs b fault calls) = Calls-IsKeyed rs b calls

-- At the time of one of the calls, the user managed the workspace's connections.
abbrev pub Managed : List Service → ℕ → ℕ → Type 0
Managed [] workspace_id user_id = ⊥
Managed (s ∷ ss) workspace_id user_id =
    (require_permission s workspace_id user_id collaboration_manage ≡ ok tt)
    ⊎ Managed ss workspace_id user_id

-- Both sides of an active connection have agreed to it, and one side to a pending one.
abbrev pub IsAgreed : List Service → WorkspaceConnection → Type 0
IsAgreed ss c =
    (c.source_workspace_id ≢ c.target_workspace_id)
    × (validate_policy c.policy ≡ ok tt)
    × Managed ss c.source_workspace_id c.created_by
    × (((c.status ≡ pending) × (c.approved_by ≡ none))
        ⊎ ((c.status ≡ active)
            × ((u : ℕ) × (c.approved_by ≡ some u) × Managed ss c.target_workspace_id u)))

IsAgreed-later :
    (s : Service) (ss : List Service) (c : WorkspaceConnection)
    → IsAgreed ss c
    → IsAgreed (s ∷ ss) c
IsAgreed-later s ss c (apart, valid, asked, inl waits) = (apart, valid, inr asked, inl waits)
IsAgreed-later s ss c (apart, valid, asked, inr (runs, (u, by, agreed))) =
    (apart, valid, inr asked, inr (runs, (u, by, inr agreed)))

All-later :
    (s : Service) (ss : List Service) (cs : List WorkspaceConnection)
    → All (IsAgreed ss) cs
    → All (IsAgreed (s ∷ ss)) cs
All-later s ss [] h = tt
All-later s ss (c ∷ cs) h = (IsAgreed-later s ss c h.0, All-later s ss cs h.1)

-- ---- RequestConnection

request_rows :
    (s : Service) (db : Store) (source target actor : ℕ) (policy : WorkspaceConnectionPolicy)
    (id now : ℕ)
    → ((request_connection s db source target actor policy id now).0.connections ≡ db.connections)
      ⊎ (((request_connection s db source target actor policy id now).0.connections
            ≡ new_connection id source target actor policy now ∷ db.connections)
          × (source ≢ target)
          × (require_permission s source actor collaboration_manage ≡ ok tt)
          × (validate_policy policy ≡ ok tt))
unfolding request_connection create_connection
request_rows s db source target actor policy id now =
    elim (Result-cases (request_checks s source target actor policy)) [
      | inr (e, bad) ↦ inl (rw (bad, request_connection) refl)
      | inl (_, fine) ↦ elim (Option-cases db.fault) [
        | inr (e, broken) ↦ inl (ground arith)
        | inl works ↦
            elim (Bool-cases
              (any (clashes (new_connection id source target actor policy now)) db.connections)) [
                | inl taken ↦ inl (ground arith)
                | inr free ↦ inr (ground arith, ground arith, ground arith, ground arith)
              ]
      ]
    ]

-- ---- ApproveConnection

approve_rows :
    (s : Service) (db : Store) (source target actor now : ℕ)
    → ((approve_connection s db source target actor now).0.connections ≡ db.connections)
      ⊎ ((c : WorkspaceConnection) × (find_pair source target db.connections ≡ some c)
          × (require_permission s target actor collaboration_manage ≡ ok tt)
          × ((approve_connection s db source target actor now).0.connections
              ≡ update_rows c.id (approved actor now) db.connections))
unfolding approve_connection update_connection_status get_connection
approve_rows s db source target actor now = elim (Option-cases db.fault) [
  | inr (e, broken) ↦ inl (ground arith)
  | inl works ↦ elim (Result-cases (approve_checks s db source target actor)) [
    | inr (e, bad) ↦ inl (rw (bad, approve_connection) refl)
    | inl (c, fine) ↦ elim (Bool-cases (any (λ d. nat_eqb d.id c.id) db.connections)) [
      | inr gone ↦ inl (ground arith)
      | inl here ↦ inr (c, ground arith, ground arith, ground arith)
    ]
  ]
]

-- The row of an id that a pair finds is the row of the pair.
abbrev OfPair : ℕ → ℕ → WorkspaceConnection → WorkspaceConnection → Type 0
OfPair a b c d = nat_eqb d.id c.id ≡ true → is_pair a b d ≡ true

clashes-OfPair :
    (a b : ℕ) (c : WorkspaceConnection) (cs : List WorkspaceConnection)
    → any (clashes c) cs ≡ false
    → All (OfPair a b c) cs
clashes-OfPair a b c [] h = tt
clashes-OfPair a b c (d ∷ cs) h = (λ e. ground arith, clashes-OfPair a b c cs (ground arith))

find_pair-OfPair :
    (a b : ℕ) (c : WorkspaceConnection) (cs : List WorkspaceConnection)
    → IsKeyed cs
    → find_pair a b cs ≡ some c
    → All (OfPair a b c) cs
unfolding find_pair
find_pair-OfPair a b c [] k e = tt
find_pair-OfPair a b c (x ∷ cs) k e = elim (Bool-cases (is_pair a b x)) [
  | inl hit ↦
      let same : x ≡ c = ground arith in
      (λ _. hit, subst (λ y. All (OfPair a b y) cs) same (clashes-OfPair a b x cs k.0))
  | inr miss ↦
      let later : find_pair a b cs ≡ some c = ground arith in
      (
        λ own. absurd (ground (arith, find_pair-no_clash a b x c cs k.0 later)),
        find_pair-OfPair a b c cs k.1 later,
      )
]

approved-IsAgreed :
    (s : Service) (ss : List Service) (a b id actor now : ℕ) (d : WorkspaceConnection)
    → require_permission s b actor collaboration_manage ≡ ok tt
    → (nat_eqb d.id id ≡ true → is_pair a b d ≡ true)
    → IsAgreed (s ∷ ss) d
    → (hit : nat_eqb d.id id ≡ true) → IsAgreed (s ∷ ss) (approved actor now d)
approved-IsAgreed s ss a b id actor now d may pair (apart, valid, asked, status) hit =
    let own : b ≡ d.target_workspace_id = ground (arith, pair hit) in
    (
      apart,
      valid,
      asked,
      inr (
        refl,
        (
          actor,
          refl,
          inl (subst (λ w. require_permission s w actor collaboration_manage ≡ ok tt) own may),
        ),
      ),
    )

update_rows-IsAgreed :
    (s : Service) (ss : List Service) (a b actor now : ℕ) (c : WorkspaceConnection)
    (cs : List WorkspaceConnection)
    → require_permission s b actor collaboration_manage ≡ ok tt
    → All (OfPair a b c) cs
    → All (IsAgreed (s ∷ ss)) cs
    → All (IsAgreed (s ∷ ss)) (update_rows c.id (approved actor now) cs)
unfolding update_rows
update_rows-IsAgreed s ss a b actor now c [] may pair h = tt
update_rows-IsAgreed s ss a b actor now c (d ∷ cs) may pair h =
    let rest = update_rows-IsAgreed s ss a b actor now c cs may pair.1 h.1 in
    elim (Bool-cases (nat_eqb d.id c.id)) [
      | inl hit ↦ rw hit (approved-IsAgreed s ss a b c.id actor now d may pair.0 h.0 hit, rest)
      | inr miss ↦ rw miss (h.0, rest)
    ]

-- After any calls of `RequestConnection` and `ApproveConnection` on an empty table, each with the members and
-- roles of its time, and whatever the database reports in between: every connection joins two different
-- workspaces under a valid policy, and its creator managed the connections of the source at the time of one of
-- the calls. It is pending without an approver, or active with one who managed the connections of the target at
-- the time of one of the calls.
pub Calls-IsAgreed :
    (ss : List Service) (db : Store) → Calls ss db → All (IsAgreed ss) db.connections
Calls-IsAgreed ss db (empty fault) = tt
Calls-IsAgreed ss db (requests rs s b source target actor policy id now calls) =
    let before = All-later s rs b.connections (Calls-IsAgreed rs b calls) in
    elim (request_rows s b source target actor policy id now) [
      | inl same ↦ subst (All (IsAgreed (s ∷ rs))) (sym same) before
      | inr (added, apart, may, valid) ↦
          subst (All (IsAgreed (s ∷ rs))) (sym added)
            ((apart, valid, inl may, inl (refl, refl)), before)
    ]
Calls-IsAgreed ss db (approves rs s b source target actor now calls) =
    let before = All-later s rs b.connections (Calls-IsAgreed rs b calls) in
    elim (approve_rows s b source target actor now) [
      | inl same ↦ subst (All (IsAgreed (s ∷ rs))) (sym same) before
      | inr (c, found, may, updated) ↦ subst (All (IsAgreed (s ∷ rs))) (sym updated) (
          update_rows-IsAgreed s rs source target actor now c b.connections may
            (find_pair-OfPair source target c b.connections (Calls-IsKeyed rs b calls) found)
            before)
    ]
Calls-IsAgreed ss db (fails rs b fault calls) = Calls-IsAgreed rs b calls
