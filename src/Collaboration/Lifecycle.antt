-- ===== src/Collaboration/Lifecycle.antt =====
-- What `RequestConnection` and `ApproveConnection` of internal/service/collaboration/service.go leave
-- in the table of connections.
use aloqa_codex.Common.{
  ℕ, true, false, ◌&&◌, List, [], ◌∷◌, none, some, ◌≡◌, ◌≢◌, inl, inr, refl, ◌∙◌, arith, any,
  nat_eqb, if◌then◌else◌, Option-cases, Bool-cases,
}
use aloqa_codex.Cerrors.{ok, Result-cases}
use aloqa_codex.Security.Rbac.Parse.{collaboration_manage}
use aloqa_codex.Collaboration.Policy.{
  WorkspaceConnection, WorkspaceConnectionPolicy, pending, active, validate_policy,
}
use aloqa_codex.Collaboration.Store.{
  Store, is_pair, clashes, create_connection, find_pair, get_connection, update_rows,
  update_connection_status,
}
use aloqa_codex.Collaboration.Service.{
  Service, require_permission, new_connection, request_connection, approve_checks,
  approve_connection,
}

-- A request that succeeds comes from someone who manages the source workspace's connections, joins
-- two workspaces, and has a valid policy. It leaves the pending connection that it returns, and
-- every other pair of workspaces as it was.
pub request_connection_sound :
    (s : Service) (db db' : Store) (source target actor : ℕ) (policy : WorkspaceConnectionPolicy)
    (id now : ℕ) (c : WorkspaceConnection)
    → request_connection s db source target actor policy id now ≡ (db', ok c)
    → (source ≢ target)
      × (require_permission s source actor collaboration_manage ≡ ok tt)
      × (validate_policy policy ≡ ok tt)
      × (c ≡ new_connection id source target actor policy now)
      × (get_connection db' source target ≡ ok c)
      × ((a b : ℕ)
          → get_connection db' a b
            ≡ (if nat_eqb source a && nat_eqb target b then ok c else get_connection db a b))
unfolding request_connection create_connection get_connection find_pair
request_connection_sound s db db' source target actor policy id now c h =
    (ground arith, ground arith, ground arith, ground arith, ground arith, λ a b. ground arith)

-- ---- the keys of the table

-- No two rows share an id or a pair of workspaces.
abbrev pub IsKeyed : List WorkspaceConnection → Type 0
IsKeyed [] = Unit {0}
IsKeyed (c ∷ cs) = (any (clashes c) cs ≡ false) × IsKeyed cs

pub request_connection-IsKeyed :
    (s : Service) (db : Store) (source target actor : ℕ) (policy : WorkspaceConnectionPolicy)
    (id now : ℕ)
    → IsKeyed db.connections
    → IsKeyed (request_connection s db source target actor policy id now).0.connections
unfolding request_connection create_connection
request_connection-IsKeyed s db source target actor policy id now k = ground arith

-- What approval does to a row.
abbrev pub approved : ℕ → ℕ → WorkspaceConnection → WorkspaceConnection
approved actor now c = record c { status = active; approved_by = some actor; updated_at = now }

any-clashes-update_rows :
    (id actor now : ℕ) (c : WorkspaceConnection) (cs : List WorkspaceConnection)
    → any (clashes c) (update_rows id (approved actor now) cs) ≡ any (clashes c) cs
unfolding update_rows
any-clashes-update_rows id actor now c [] = refl
any-clashes-update_rows id actor now c (d ∷ cs) =
    ground (arith, any-clashes-update_rows id actor now c cs)

update_rows-IsKeyed :
    (id actor now : ℕ) (cs : List WorkspaceConnection)
    → IsKeyed cs
    → IsKeyed (update_rows id (approved actor now) cs)
unfolding update_rows
update_rows-IsKeyed id actor now [] k = tt
update_rows-IsKeyed id actor now (c ∷ cs) k = (
  elim (Bool-cases (nat_eqb c.id id)) [
    | inl e ↦ rw e (any-clashes-update_rows id actor now c cs ∙ k.0)
    | inr e ↦ rw e (any-clashes-update_rows id actor now c cs ∙ k.0)
  ],
  update_rows-IsKeyed id actor now cs k.1,
)

pub approve_connection-IsKeyed :
    (s : Service) (db : Store) (source target actor now : ℕ)
    → IsKeyed db.connections
    → IsKeyed (approve_connection s db source target actor now).0.connections
unfolding approve_connection update_connection_status
approve_connection-IsKeyed s db source target actor now k =
    elim (Result-cases (approve_checks s db source target actor)) [
      | inr (e, failed) ↦ rw (failed, approve_connection) k
      | inl (c, done) ↦ ground (arith, done, update_rows-IsKeyed c.id actor now db.connections k)
    ]

find_pair-update_rows :
    (id actor now a b : ℕ) (cs : List WorkspaceConnection)
    → find_pair a b (update_rows id (approved actor now) cs) ≡ (elim (find_pair a b cs) [
      | none ↦ none
      | some d ↦ some (if nat_eqb d.id id then approved actor now d else d)
    ])
unfolding update_rows find_pair
find_pair-update_rows id actor now a b [] = refl
find_pair-update_rows id actor now a b (c ∷ cs) =
    ground (arith, find_pair-update_rows id actor now a b cs)

pub find_pair-no_clash :
    (a b : ℕ) (c d : WorkspaceConnection) (cs : List WorkspaceConnection)
    → any (clashes c) cs ≡ false
    → find_pair a b cs ≡ some d
    → (nat_eqb d.id c.id ≡ false) × (is_pair a b d ≡ true)
unfolding find_pair
find_pair-no_clash a b c d [] h e = cc
find_pair-no_clash a b c d (x ∷ cs) h e = ground (arith, find_pair-no_clash a b c d cs)

find_pair-is_pair :
    (a b : ℕ) (d : WorkspaceConnection) (cs : List WorkspaceConnection)
    → find_pair a b cs ≡ some d
    → is_pair a b d ≡ true
unfolding find_pair
find_pair-is_pair a b d [] e = cc
find_pair-is_pair a b d (x ∷ cs) e = ground (arith, find_pair-is_pair a b d cs)

-- Two pairs that find rows of one id are one pair.
find_pair-id :
    (a b a' b' : ℕ) (c d : WorkspaceConnection) (cs : List WorkspaceConnection)
    → IsKeyed cs
    → find_pair a b cs ≡ some c
    → find_pair a' b' cs ≡ some d
    → nat_eqb d.id c.id ≡ true
    → (a ≡ a') × (b ≡ b')
unfolding find_pair
find_pair-id a b a' b' c d [] k e e' h = absurd (cc)
find_pair-id a b a' b' c d (x ∷ cs) k e e' h = ground (
  arith,
  find_pair-id a b a' b' c d cs,
  find_pair-no_clash a b x c cs,
  find_pair-no_clash a' b' x d cs,
)

-- What a pair of workspaces finds after the row of another pair was approved.
get_connection-approved :
    (db : Store) (source target actor now a b : ℕ) (c : WorkspaceConnection)
    → IsKeyed db.connections
    → db.fault ≡ none
    → find_pair source target db.connections ≡ some c
    → get_connection
        (record db { connections = update_rows c.id (approved actor now) db.connections })
        a
        b
      ≡ (if nat_eqb source a && nat_eqb target b
          then ok (approved actor now c)
          else get_connection db a b)
unfolding get_connection
get_connection-approved db source target actor now a b c k works found =
    elim (Option-cases (find_pair a b db.connections)) [
      | inl missing ↦
          ground (arith, missing, find_pair-update_rows c.id actor now a b db.connections)
      | inr (d, hit) ↦ ground (
        arith,
        hit,
        find_pair-update_rows c.id actor now a b db.connections,
        find_pair-id source target a b c d db.connections,
        find_pair-is_pair a b d db.connections,
        find_pair-is_pair source target c db.connections,
      )
    ]

-- Over a table with its keys, an approval that succeeds comes from someone who manages the target
-- workspace's connections, finds a pending connection, and makes it active under that name; every
-- other pair of workspaces stays as it was.
pub approve_connection_sound :
    (s : Service) (db db' : Store) (source target actor now : ℕ)
    → IsKeyed db.connections
    → approve_connection s db source target actor now ≡ (db', ok tt)
    → (c : WorkspaceConnection) × (require_permission s target actor collaboration_manage ≡ ok tt)
      × (get_connection db source target ≡ ok c)
      × (c.status ≡ pending)
      × ((a b : ℕ)
          → get_connection db' a b ≡ (
              if nat_eqb source a && nat_eqb target b
              then ok (approved actor now c)
              else get_connection db a b))
unfolding approve_connection update_connection_status get_connection
approve_connection_sound s db db' source target actor now k h = elim (Option-cases db.fault) [
  | inr (e, broken) ↦ absurd (ground arith)
  | inl works ↦ elim (Option-cases (find_pair source target db.connections)) [
    | inl missing ↦ absurd (ground arith)
    | inr (c, found) ↦ (
      c,
      ground arith,
      ground arith,
      ground arith,
      λ a b. ground (arith, get_connection-approved db source target actor now a b c k works found),
    )
  ]
]
