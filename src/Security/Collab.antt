-- ===== src/Security/Collab.antt =====
-- internal/security/collabaccess/checker.go: the channels that workspaces share.
use aloqa_codex.Common.{
  ℕ, Bool, true, false, not, ◌&&◌, ◌||◌, List, [], ◌∷◌, Option, none, some, ◌≡◌, arith,
  if◌then◌else◌, Bool-cases, inl, inr, nat_eqb,
}
use aloqa_codex.Domain.{ChannelAccessGrant}
use aloqa_codex.Cerrors.{
  Result, ok, err, ◌>>=◌, map_err, new_internal, is_not_found, is_forbidden, Result-cases,
}
use aloqa_codex.Collaboration.Policy.{WorkspaceConnectionPolicy}
use aloqa_codex.Collaboration.Store.{Store}
use aloqa_codex.Collaboration.Service.{Service, can_share_channel, can_share_call}
use aloqa_codex.Collaboration.Sharing.{Shared, can_share_channel_sound, can_share_call_sound}

pub record Decision : Type 0 where
  pub managed : Bool
  pub allowed : Bool

-- The checker, with the grants of a channel, the collaboration service and its table.
pub record Checker : Type 0 where
  pub list_by_channel : ℕ → Result (List ChannelAccessGrant)
  pub collaboration : Service
  pub connections : Store

abbrev names : ℕ → ChannelAccessGrant → Bool
names user_id g = nat_eqb user_id g.user_id || nat_eqb user_id g.source_user_id

unfoldable pub can_share : Checker → ℕ → Bool → ChannelAccessGrant → Result (Unit {0})
can_share c now true g =
    can_share_call c.collaboration c.connections now g.workspace_id g.remote_workspace_id
      g.source_user_id g.user_id
can_share c now false g =
    can_share_channel c.collaboration c.connections now g.workspace_id g.remote_workspace_id
      g.source_user_id g.user_id

-- The loop of `authorize`: a refusal or a missing object goes on, any other error stops.
unfoldable pub authorize_grants : Checker → ℕ → ℕ → Bool → List ChannelAccessGrant → Result Decision
unfolding can_share
authorize_grants c now user_id require_calls [] = ok (record { managed = true; allowed = false })
authorize_grants c now user_id require_calls (g ∷ gs) =
    let rest = authorize_grants c now user_id require_calls gs in
    if not (names user_id g)
    then rest
    else if require_calls && not g.allow_calls
    then rest
    else elim (can_share c now require_calls g) [
      | ok _ ↦ ok (record { managed = true; allowed = true })
      | err e ↦ if is_forbidden e || is_not_found e then rest else err e
    ]

abbrev decide_grants : Checker → ℕ → ℕ → Bool → List ChannelAccessGrant → Result Decision
decide_grants c now user_id require_calls [] = ok (record { managed = false; allowed = false })
decide_grants c now user_id require_calls (g ∷ gs) =
    authorize_grants c now user_id require_calls (g ∷ gs)

-- A nil checker, repository or service is `none`.
unfoldable pub authorize : Option Checker → ℕ → ℕ → ℕ → Bool → Result Decision
unfolding authorize_grants
authorize none now channel_id user_id require_calls =
    ok (record { managed = false; allowed = false })
authorize (some c) now channel_id user_id require_calls = do
  grants ←
      map_err (new_internal "failed to verify collaboration access") (c.list_by_channel channel_id)
  decide_grants c now user_id require_calls grants

unfoldable pub authorize_channel : Option Checker → ℕ → ℕ → ℕ → Result Decision
authorize_channel c now channel_id user_id = authorize c now channel_id user_id false

unfoldable pub authorize_call : Option Checker → ℕ → ℕ → ℕ → Result Decision
authorize_call c now channel_id user_id = authorize c now channel_id user_id true

abbrev shares : Bool → WorkspaceConnectionPolicy → Bool
shares true p = p.shared_calls
shares false p = p.shared_channels

-- A grant of the list that lets the user in.
pub data Opened (c : Checker) (now user_id : ℕ) (calls : Bool)
    : List ChannelAccessGrant → Type 0 where
  here :
      {g : ChannelAccessGrant} {gs : List ChannelAccessGrant}
      → names user_id g ≡ true
      → (not calls || g.allow_calls) ≡ true
      → Shared
          (shares calls)
          c.collaboration
          c.connections
          now
          g.workspace_id
          g.remote_workspace_id
          g.source_user_id
          g.user_id
      → Opened c now user_id calls (g ∷ gs)
  later :
      {g : ChannelAccessGrant} {gs : List ChannelAccessGrant}
      → Opened c now user_id calls gs
      → Opened c now user_id calls (g ∷ gs)

can_share-Shared :
    (c : Checker) (now : ℕ) (calls : Bool) (g : ChannelAccessGrant)
    → can_share c now calls g ≡ ok tt
    → Shared
        (shares calls)
        c.collaboration
        c.connections
        now
        g.workspace_id
        g.remote_workspace_id
        g.source_user_id
        g.user_id
unfolding can_share
can_share-Shared c now true g h = can_share_call_sound c.collaboration c.connections now _ _ _ _ h
can_share-Shared c now false g h =
    can_share_channel_sound c.collaboration c.connections now _ _ _ _ h

authorize_grants-Opened :
    (c : Checker) (now user_id : ℕ) (calls : Bool) (gs : List ChannelAccessGrant) (m : Bool)
    → authorize_grants c now user_id calls gs ≡ ok (record { managed = m; allowed = true })
    → Opened c now user_id calls gs
unfolding authorize_grants
authorize_grants-Opened c now user_id calls [] m h = absurd (ground arith)
authorize_grants-Opened c now user_id calls (g ∷ gs) m h = elim (Bool-cases (names user_id g)) [
  | inr off ↦
      later (authorize_grants-Opened c now user_id calls gs m (rw (off, authorize_grants) at h))
  | inl on ↦ elim (Bool-cases (calls && not g.allow_calls)) [
    | inl barred ↦
        later (
          authorize_grants-Opened c now user_id calls gs m (rw (on, barred, authorize_grants) at h))
    | inr free ↦ elim (Result-cases (can_share c now calls g)) [
      | inl (_, shared) ↦ here on (ground arith) (can_share-Shared c now calls g shared)
      | inr (e, failed) ↦ later (authorize_grants-Opened c now user_id calls gs m (ground arith))
    ]
  ]
]

-- A managed channel or call is opened to a user only by one of its grants that names the user,
-- allows calls where a call is wanted, and stands on a connection that shares it.
pub authorize_sound :
    (c : Checker) (now channel_id user_id : ℕ) (calls : Bool) (d : Decision)
    → authorize (some c) now channel_id user_id calls ≡ ok d
    → d.allowed ≡ true
    → (gs : List ChannelAccessGrant) × (c.list_by_channel channel_id ≡ ok gs)
      × Opened c now user_id calls gs
unfolding authorize
authorize_sound c now channel_id user_id calls d h a =
    elim (Result-cases (c.list_by_channel channel_id)) [
      | inr (e, failed) ↦ absurd (ground arith)
      | inl ([], found) ↦ absurd (ground arith)
      | inl (g ∷ gs, found) ↦ (
        g ∷ gs,
        found,
        authorize_grants-Opened c now user_id calls (g ∷ gs) d.managed (ground arith),
      )
    ]
