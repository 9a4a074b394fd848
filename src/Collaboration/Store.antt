-- ===== src/Collaboration/Store.antt =====
-- internal/repository/postgres/workspace_collaboration.go: the table `workspace_connections`, with
-- its keys: the id, and the pair of workspaces. `fault` is what the driver reports when the
-- database cannot be used; the policy column keeps what was written.
use aloqa_codex.Common.{
  ℕ, Bool, ◌&&◌, ◌||◌, List, [], ◌∷◌, Option, none, some, any, if◌then◌else◌, nat_eqb,
}
use aloqa_codex.Cerrors.{GoError, app, Code, wrap, Result, ok, err, new_not_found}
use aloqa_codex.Collaboration.Policy.{
  WorkspaceConnection, WorkspaceConnectionPolicy, WorkspaceConnectionStatus,
}

pub record Store : Type 0 where
  pub fault : Option GoError
  pub connections : List WorkspaceConnection

abbrev pub is_pair : ℕ → ℕ → WorkspaceConnection → Bool
is_pair source target c =
    nat_eqb c.source_workspace_id source && nat_eqb c.target_workspace_id target

-- Two rows that the table does not hold at once: the primary key and the unique pair of
-- migrations/011_workspace_rbac_collaboration.sql.
abbrev pub clashes : WorkspaceConnection → WorkspaceConnection → Bool
clashes c d = nat_eqb d.id c.id || is_pair c.source_workspace_id c.target_workspace_id d

-- The database refuses such a row with error 23505, which `Create` turns into one of its own.
unfoldable pub create_connection : Store → WorkspaceConnection → Store × Result (Unit {0})
create_connection s c = elim s.fault [
  | some e ↦ (s, err (wrap "postgres: create workspace connection" e))
  | none ↦
      if any (clashes c) s.connections
      then (s, err (app Code.already_exists "workspace connection already exists"))
      else (record s { connections = c ∷ s.connections }, ok tt)
]

unfoldable pub find_pair : ℕ → ℕ → List WorkspaceConnection → Option WorkspaceConnection
find_pair source target [] = none
find_pair source target (c ∷ cs) =
    if is_pair source target c then some c else find_pair source target cs

unfoldable pub get_connection : Store → ℕ → ℕ → Result WorkspaceConnection
unfolding find_pair
get_connection s source target = elim s.fault [
  | some e ↦ err (wrap "postgres: scan workspace connection" e)
  | none ↦ elim (find_pair source target s.connections) [
    | none ↦ err (new_not_found "workspace connection not found")
    | some c ↦ ok c
  ]
]

-- `UPDATE … SET … WHERE id = $1`; the trigger of the table stamps `updated_at`.
unfoldable pub update_rows :
    ℕ
    → (WorkspaceConnection → WorkspaceConnection)
    → List WorkspaceConnection
    → List WorkspaceConnection
update_rows id f [] = []
update_rows id f (c ∷ cs) = (if nat_eqb c.id id then f c else c) ∷ update_rows id f cs

abbrev pub has_id : ℕ → List WorkspaceConnection → Bool
has_id id = any (λ c. nat_eqb c.id id)

unfoldable pub update_connection_status :
    Store → ℕ → WorkspaceConnectionStatus → Option ℕ → ℕ → Store × Result (Unit {0})
unfolding update_rows
update_connection_status s id status approved_by now = elim s.fault [
  | some e ↦ (s, err (wrap "postgres: update workspace connection status" e))
  | none ↦
      if has_id id s.connections
      then (
        record s {
          connections =
              update_rows id
                (λ c. record c { status = status; approved_by = approved_by; updated_at = now })
                s.connections;
        },
        ok tt,
      )
      else (s, err (new_not_found "workspace connection not found"))
]

unfoldable pub update_connection_policy :
    Store → ℕ → WorkspaceConnectionPolicy → ℕ → Store × Result (Unit {0})
unfolding update_rows
update_connection_policy s id policy now = elim s.fault [
  | some e ↦ (s, err (wrap "postgres: update workspace connection policy" e))
  | none ↦
      if has_id id s.connections
      then (
        record s {
          connections =
              update_rows id (λ c. record c { policy = policy; updated_at = now }) s.connections;
        },
        ok tt,
      )
      else (s, err (new_not_found "workspace connection not found"))
]
