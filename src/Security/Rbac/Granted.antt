-- ===== src/Security/Rbac/Granted.antt =====
-- Whom `Require` of internal/security/rbac/checker.go lets through.
use aloqa_codex.Common.{
  ℕ, String, Bool, true, ◌||◌, ◌&&◌, List, [], ◌∷◌, map, if◌then◌else◌, none, some, ◌≡◌, refl,
  arith, any, Bool-cases, Option-cases, inl, inr,
}
use aloqa_codex.Common.Equality.{contains, string_eq}
use aloqa_codex.Common.Text.{trim_space}
use aloqa_codex.Common.GoMap.{GoMap, set}
use aloqa_codex.Domain.{WorkspaceRole, WorkspaceMember, WorkspaceRoleDefinition, role_eqb}
use aloqa_codex.Cerrors.{Result, ok, Result-cases}
use aloqa_codex.Security.Rbac.Parse.{Permission}
use aloqa_codex.Security.Rbac.Roles.{
  RoleDefinition, role_has, default_workspace_role, has, role_definition_from_entity, merge,
  parse_stored,
}
use aloqa_codex.Security.Rbac.Merging.{role_has-merge, role_has-role_definition_from_entity}
use aloqa_codex.Security.Rbac.Normal.{is_valid, parse_valid, parse_invalid, AllValid}
use aloqa_codex.Security.Rbac.Checker.{
  PermissionChecker, resolve_overlays, resolve, has_permission, require,
}

-- What an assigned definition adds to a role: the permissions that it lists, if it stands over
-- that role.
abbrev pub adds : WorkspaceRole → Permission → WorkspaceRoleDefinition → Bool
adds role p d = role_eqb d.base_role role && contains p (map trim_space d.permissions)

resolve_overlays-has :
    (uuid_text : ℕ → String) (role : WorkspaceRole) (ds : List WorkspaceRoleDefinition)
    (effective r : RoleDefinition)
    → resolve_overlays uuid_text role ds effective ≡ ok r
    → (p : Permission) → role_has r p ≡ (role_has effective p || any (adds role p) ds)
unfolding resolve_overlays
resolve_overlays-has uuid_text role [] effective r h p = ground arith
resolve_overlays-has uuid_text role (d ∷ ds) effective r h p =
    elim (Bool-cases (role_eqb d.base_role role)) [
      | inr off ↦
          rw off
            (resolve_overlays-has uuid_text role ds effective r (rw (off, resolve_overlays) at h) p)
      | inl on ↦ elim (Result-cases (role_definition_from_entity d)) [
        | inr (e, failed) ↦ absurd (cc (rw (on, failed, resolve_overlays) at h))
        | inl (overlay, done) ↦ ground (
          arith,
          resolve_overlays-has uuid_text role ds (merge effective (overlay ∷ [])) r
              (rw (on, done, resolve_overlays) at h) p,
          role_has-merge effective (overlay ∷ []) p,
          (role_has-role_definition_from_entity d overlay done).2 p,
        )
      ]
    ]

-- The stored definitions that apply to the role can all be read.
abbrev pub AllReadable : WorkspaceRole → List WorkspaceRoleDefinition → Type 0
AllReadable role [] = Unit {0}
AllReadable role (d ∷ ds) =
    (if role_eqb d.base_role role then AllValid d.permissions else Unit {0}) × AllReadable role ds

parse_stored-AllValid :
    (raws : List String) (m out : GoMap Permission Bool)
    → parse_stored raws m ≡ ok out
    → AllValid raws
unfolding parse_stored
parse_stored-AllValid [] m out h = tt
parse_stored-AllValid (raw ∷ raws) m out h = elim (Bool-cases (is_valid raw)) [
  | inr bad ↦ absurd (cc (rw (parse_invalid raw bad, parse_stored) at h))
  | inl good ↦ (
    good,
    parse_stored-AllValid raws (set (trim_space raw) true m) out
        (rw (parse_valid raw good, parse_stored) at h),
  )
]

parse_stored_total :
    (raws : List String) (m : GoMap Permission Bool)
    → AllValid raws
    → (out : GoMap Permission Bool) × (parse_stored raws m ≡ ok out)
unfolding parse_stored
parse_stored_total [] m v = (m, refl)
parse_stored_total (raw ∷ raws) m (good, v) =
    rw (parse_valid raw good, parse_stored)
      (parse_stored_total raws (set (trim_space raw) true m) v)

definition-AllValid :
    (d : WorkspaceRoleDefinition) (r : RoleDefinition)
    → role_definition_from_entity d ≡ ok r
    → AllValid d.permissions
unfolding role_definition_from_entity
definition-AllValid d r h = elim (Result-cases (parse_stored d.permissions [])) [
  | inr (e, failed) ↦ absurd (cc (h, failed))
  | inl (m, done) ↦ parse_stored-AllValid d.permissions [] m done
]

definition_total :
    (d : WorkspaceRoleDefinition)
    → AllValid d.permissions
    → (r : RoleDefinition) × (role_definition_from_entity d ≡ ok r)
unfolding role_definition_from_entity
definition_total d v =
    let (m, done) = parse_stored_total d.permissions [] v in
    (
      record { name = d.name; base_role = d.base_role; permissions = m },
      rw (done, role_definition_from_entity),
    )

resolve_overlays-AllReadable :
    (uuid_text : ℕ → String) (role : WorkspaceRole) (ds : List WorkspaceRoleDefinition)
    (effective r : RoleDefinition)
    → resolve_overlays uuid_text role ds effective ≡ ok r
    → AllReadable role ds
unfolding resolve_overlays
resolve_overlays-AllReadable uuid_text role [] effective r h = tt
resolve_overlays-AllReadable uuid_text role (d ∷ ds) effective r h =
    elim (Bool-cases (role_eqb d.base_role role)) [
      | inr off ↦ rw off (
        tt,
        resolve_overlays-AllReadable uuid_text role ds effective r
            (rw (off, resolve_overlays) at h),
      )
      | inl on ↦ elim (Result-cases (role_definition_from_entity d)) [
        | inr (e, failed) ↦ absurd (cc (rw (on, failed, resolve_overlays) at h))
        | inl (overlay, done) ↦ rw on (
          definition-AllValid d overlay done,
          resolve_overlays-AllReadable uuid_text role ds (merge effective (overlay ∷ [])) r
              (rw (on, done, resolve_overlays) at h),
        )
      ]
    ]

resolve_overlays_total :
    (uuid_text : ℕ → String) (role : WorkspaceRole) (ds : List WorkspaceRoleDefinition)
    (effective : RoleDefinition)
    → AllReadable role ds
    → (r : RoleDefinition) × (resolve_overlays uuid_text role ds effective ≡ ok r)
unfolding resolve_overlays
resolve_overlays_total uuid_text role [] effective v = (effective, refl)
resolve_overlays_total uuid_text role (d ∷ ds) effective (now, later) =
    elim (Bool-cases (role_eqb d.base_role role)) [
      | inr off ↦
          rw (off, resolve_overlays) (resolve_overlays_total uuid_text role ds effective later)
      | inl on ↦
          let (overlay, done) = definition_total d (rw on at now) in
          rw (on, done, resolve_overlays)
            (resolve_overlays_total uuid_text role ds (merge effective (overlay ∷ [])) later)
    ]

-- Who has a permission, read off the stored data: a member whose role has it by default or by an
-- assigned definition over the same role, all of which can be read.
pub data Granted (c : PermissionChecker) (w u : ℕ) (p : Permission) : Type 0 where
  by_default :
      (m : WorkspaceMember)
      → c.get_member w u ≡ ok m
      → c.list_assigned_definitions ≡ none
      → has m.role p ≡ true
      → Granted c w u p
  by_assignment :
      (m : WorkspaceMember) (list : ℕ → ℕ → Result (List WorkspaceRoleDefinition))
      (ds : List WorkspaceRoleDefinition)
      → c.get_member w u ≡ ok m
      → c.list_assigned_definitions ≡ some list
      → list w u ≡ ok ds
      → AllReadable m.role ds
      → (has m.role p || any (adds m.role p) ds) ≡ true
      → Granted c w u p

-- `Require` answers without an error only when the user is loaded as a member of the workspace and the
-- member's role has the permission: by default, or by an assigned definition over the same role, where
-- there is a repository of definitions, its list is loaded and each that stands over the role can be read.
pub require_sound :
    (c : PermissionChecker) (w u : ℕ) (p : Permission) → require c w u p ≡ ok tt → Granted c w u p
unfolding require has_permission resolve has
require_sound c w u p h = elim (Result-cases (c.get_member w u)) [
  | inr (e, failed) ↦ absurd (cc (rw (failed, require) at h))
  | inl (m, found) ↦ elim (Option-cases c.list_assigned_definitions) [
    | inl nil ↦ by_default m found nil (ground arith)
    | inr (list, some_list) ↦ elim (Result-cases (list w u)) [
      | inr (e, failed) ↦ absurd (cc (rw (found, some_list, failed, require) at h))
      | inl (ds, listed) ↦
          elim (Result-cases
            (resolve_overlays c.uuid_text m.role ds (default_workspace_role m.role))) [
              | inr (e, failed) ↦ absurd (ground (arith))
              | inl (r, done) ↦
                  by_assignment m list ds found some_list listed
                    (resolve_overlays-AllReadable c.uuid_text m.role ds
                      (default_workspace_role m.role) r done)
                    (ground (
                      arith,
                      resolve_overlays-has c.uuid_text m.role ds (default_workspace_role m.role) r
                          done p,
                    ))
            ]
    ]
  ]
]

-- `Require` answers without an error whenever the user is loaded as a member of the workspace and the
-- member's role has the permission: by default, or by an assigned definition over the same role, where
-- there is a repository of definitions, its list is loaded and each that stands over the role can be read.
pub require_complete :
    (c : PermissionChecker) (w u : ℕ) (p : Permission) → Granted c w u p → require c w u p ≡ ok tt
unfolding require has_permission resolve has
require_complete c w u p (by_default m found nil h) = ground arith
require_complete c w u p (by_assignment m list ds found some_list listed readable h) =
    let (r, done) =
      resolve_overlays_total c.uuid_text m.role ds (default_workspace_role m.role) readable in
    ground (
      arith,
      done,
      resolve_overlays-has c.uuid_text m.role ds (default_workspace_role m.role) r done p,
    )
