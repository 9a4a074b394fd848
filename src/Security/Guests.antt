-- ===== src/Security/Guests.antt =====
-- internal/security/guestaccess/checker.go: what the active grants of a guest reach.
use aloqa_codex.Common.{
  ℕ, Bool, true, false, ◌||◌, List, [], ◌∷◌, Option, none, some, ◌≡◌, refl, arith, inl, inr,
}
use aloqa_codex.Common.Equality.{contains, nat_eq}
use aloqa_codex.Domain.{GuestAccessGrant}
use aloqa_codex.Cerrors.{
  GoError, Result, ok, ◌>>=◌, map_err, find_app_error, new_internal, Result-cases,
}

-- `ListActiveByUserWorkspace`, at a user, a workspace and a time; nil where the checker or its
-- repository is nil.
abbrev pub Guests : Type 0
Guests = Option (ℕ → ℕ → ℕ → Result (List GuestAccessGrant))

-- `entityGrant.AllowsChannel`: a grant with no channels allows each.
unfoldable pub allows_channel : ℕ → List ℕ → Bool
allows_channel channel_id [] = true
allows_channel channel_id (allowed ∷ rest) = contains channel_id (allowed ∷ rest)

abbrev grants_error : GoError → GoError
grants_error e = elim (find_app_error e) [
  | some a ↦ a
  | none ↦ new_internal "failed to load guest access grants" e
]

-- The loop that keeps the channels of each grant.
abbrev grant_channels : List GuestAccessGrant → List (List ℕ)
grant_channels [] = []
grant_channels (g ∷ gs) = g.channel_ids ∷ grant_channels gs

unfoldable pub active_grants : Guests → ℕ → ℕ → ℕ → Result (List (List ℕ))
active_grants none workspace_id user_id now = ok []
active_grants (some list) workspace_id user_id now = do
  grants ← map_err grants_error (list user_id workspace_id now)
  ok (grant_channels grants)

abbrev some_grant : List (List ℕ) → Bool
some_grant [] = false
some_grant (_ ∷ _) = true

unfoldable pub has_workspace_access : Guests → ℕ → ℕ → ℕ → Result Bool
unfolding active_grants
has_workspace_access c workspace_id user_id now = do
  grants ← active_grants c workspace_id user_id now
  ok (some_grant grants)

unfoldable pub any_allows : ℕ → List (List ℕ) → Bool
unfolding allows_channel
any_allows channel_id [] = false
any_allows channel_id (g ∷ gs) = allows_channel channel_id g || any_allows channel_id gs

unfoldable pub has_channel_access : Guests → ℕ → ℕ → ℕ → ℕ → Result Bool
unfolding active_grants any_allows
has_channel_access c workspace_id channel_id user_id now = do
  grants ← active_grants c workspace_id user_id now
  ok (any_allows channel_id grants)

any_allows-some_grant :
    (channel_id : ℕ) (gs : List (List ℕ)) → any_allows channel_id gs ≡ true → some_grant gs ≡ true
unfolding any_allows
any_allows-some_grant channel_id [] h = cc
any_allows-some_grant channel_id (g ∷ gs) h = refl

-- A guest who reaches a channel of a workspace reaches the workspace.
pub has_channel_access_workspace :
    (c : Guests) (workspace_id channel_id user_id now : ℕ)
    → has_channel_access c workspace_id channel_id user_id now ≡ ok true
    → has_workspace_access c workspace_id user_id now ≡ ok true
unfolding has_channel_access has_workspace_access
has_channel_access_workspace c workspace_id channel_id user_id now h =
    elim (Result-cases (active_grants c workspace_id user_id now)) [
      | inr (e, failed) ↦ absurd (ground (arith, failed))
      | inl (gs, done) ↦ ground (arith, done, any_allows-some_grant channel_id gs)
    ]
