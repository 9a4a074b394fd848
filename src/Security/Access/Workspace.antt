-- ===== src/Security/Access/Workspace.antt =====
-- On what grounds `WorkspaceAccess` of internal/security/accesspolicy/checker.go lets a user in.
use aloqa_codex.Common.{ℕ, true, false, some, ◌≡◌, inl, inr, subst, arith, Bool-cases, Option-cases}
use aloqa_codex.Domain.{WorkspaceMember}
use aloqa_codex.Cerrors.{ok, is_forbidden, Result-cases}
use aloqa_codex.Security.Access.{
  Subject, member, guest, GuestAccess, Checker, workspace_member, workspace_access,
}

pub data Entry (c : Checker) (workspace_id user_id : ℕ) : Subject → Type 0 where
  as_member :
      (m : WorkspaceMember)
      → workspace_member c workspace_id user_id ≡ ok m
      → Entry c workspace_id user_id member
  as_guest :
      (g : GuestAccess)
      → c.guests ≡ some g
      → g.has_workspace_access workspace_id user_id ≡ ok true
      → Entry c workspace_id user_id guest

-- `WorkspaceAccess` answers with a subject only for a workspace member, as a member, or for a user whom the
-- guest checker lets into the workspace, as a guest.
pub workspace_access_sound :
    (c : Checker) (workspace_id user_id : ℕ) (s : Subject)
    → workspace_access (some c) workspace_id user_id ≡ ok s
    → Entry c workspace_id user_id s
unfolding workspace_access
workspace_access_sound c workspace_id user_id s h =
    elim (Result-cases (workspace_member c workspace_id user_id)) [
      | inl (m, found) ↦
          subst (Entry c workspace_id user_id) (ground (arith, found, h)) (as_member m found)
      | inr (e, failed) ↦ elim (Bool-cases (is_forbidden e)) [
        | inr other ↦ absurd (ground arith)
        | inl outside ↦ elim (Option-cases c.guests) [
          | inl nil ↦ absurd (ground arith)
          | inr (g, given) ↦ elim (Result-cases (g.has_workspace_access workspace_id user_id)) [
            | inr (x, broken) ↦ absurd (ground arith)
            | inl (false, refused) ↦ absurd (ground arith)
            | inl (true, allowed) ↦
                subst (Entry c workspace_id user_id) (ground arith) (as_guest g given allowed)
          ]
        ]
      ]
    ]
