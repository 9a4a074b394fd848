-- ===== src/Security/Rbac/Merging.antt =====
-- What `Merge`, the default roles and stored definitions of internal/security/rbac/rbac.go allow.
use aloqa_codex.Common.{
  String, Bool, true, false, not, ◌||◌, ◌&&◌, List, [], ◌∷◌, map, if◌then◌else◌, Option, none, some,
  ◌≡◌, refl, arith, any, Bool-cases, inl, inr,
}
use aloqa_codex.Common.Equality.{contains, ◌==◌, string_eq}
use aloqa_codex.Common.GoMap.{GoMap, keys, get, set, get-set, contains-keys}
use aloqa_codex.Common.Text.{trim_space}
use text.Mathlib.TextEquality.{eq_iff}
use aloqa_codex.Domain.{owner, admin, member, guest, other_role, WorkspaceRoleDefinition}
use aloqa_codex.Cerrors.{ok, Result-cases}
use aloqa_codex.Security.Rbac.Parse.{
  Permission, admin_permissions, workspace_manage, white_label_manage,
}
use aloqa_codex.Security.Rbac.Normal.{is_valid, parse_valid, parse_invalid}
use aloqa_codex.Security.Rbac.Roles.{
  RoleDefinition, holds, role_has, grant_all, default_workspace_permissions, default_workspace_role,
  has, parse_stored, role_definition_from_entity, copy_entries, overlay_entries, overlay_all, merge,
  set_found, every_member, every_guest,
}

pub holds-set :
    (k p : Permission) (v : Bool) (m : GoMap Permission Bool)
    → holds (set k v m) p ≡ (if k == p then v else holds m p)
unfolding holds
holds-set k p v m = ground (arith, get-set k p v m)

holds-overlay_entries :
    (ks : List Permission) (o m : GoMap Permission Bool) (p : Permission)
    → holds (overlay_entries ks o m) p ≡ (holds m p || (contains p ks && holds o p))
unfolding overlay_entries
holds-overlay_entries [] o m p = ground arith
holds-overlay_entries (k ∷ ks) o m p = ground (
  arith,
  holds-overlay_entries ks o (if holds o k then set k true m else m) p,
  holds-set k p true m,
  eq_iff k p,
)

holds-keys :
    (o : GoMap Permission Bool) (p : Permission) → (contains p (keys o) && holds o p) ≡ holds o p
unfolding holds
holds-keys o p = ground (arith, contains-keys p o)

holds-overlay_all :
    (os : List RoleDefinition) (m : GoMap Permission Bool) (p : Permission)
    → holds (overlay_all os m) p ≡ (holds m p || any (λ o. role_has o p) os)
unfolding overlay_all role_has
holds-overlay_all [] m p = ground arith
holds-overlay_all (o ∷ os) m p = ground (
  arith,
  holds-overlay_all os (overlay_entries (keys o.permissions) o.permissions m) p,
  holds-overlay_entries (keys o.permissions) o.permissions m p,
  holds-keys o.permissions p,
)

holds-set_found :
    (k p : Permission) (o : Option Bool) (m : GoMap Permission Bool)
    → holds (set_found k o m) p
      ≡ (elim o [ none ↦ holds m p | some v ↦ if k == p then v else holds m p ])
holds-set_found k p none m = refl
holds-set_found k p (some v) m = holds-set k p v m

abbrev value_or : Option Bool → Bool → Bool
value_or none b = b
value_or (some v) b = v

holds-copy_entries :
    (ks : List Permission) (m acc : GoMap Permission Bool) (p : Permission)
    → holds (copy_entries ks m acc) p
      ≡ (if contains p ks then value_or (get p m) (holds acc p) else holds acc p)
unfolding copy_entries
holds-copy_entries [] m acc p = refl
holds-copy_entries (k ∷ ks) m acc p = ground (
  arith,
  holds-copy_entries ks m (set_found k (get k m) acc) p,
  holds-set_found k p (get k m) acc,
  eq_iff k p,
)

-- A copy of a map holds what the map holds.
pub holds-copy :
    (m : GoMap Permission Bool) (p : Permission) → holds (copy_entries (keys m) m []) p ≡ holds m p
unfolding holds
holds-copy m p = ground (arith, holds-copy_entries (keys m) m [] p, contains-keys p m)

-- `Merge` allows what the base or one of the overlays allows, and nothing else: an overlay never
-- takes a permission away, whatever its entries say.
pub role_has-merge :
    (base : RoleDefinition) (overlays : List RoleDefinition) (p : Permission)
    → role_has (merge base overlays) p ≡ (role_has base p || any (λ o. role_has o p) overlays)
unfolding merge role_has
role_has-merge base overlays p = ground (
  arith,
  holds-overlay_all overlays (copy_entries (keys base.permissions) base.permissions []) p,
  holds-copy base.permissions p,
)

-- ---- default roles

holds-grant_all :
    (ps : List Permission) (m : GoMap Permission Bool) (p : Permission)
    → holds (grant_all ps m) p ≡ (holds m p || contains p ps)
unfolding grant_all
holds-grant_all [] m p = ground arith
holds-grant_all (q ∷ ps) m p =
    ground (arith, holds-grant_all ps (set q true m) p, holds-set q p true m)

holds-nil : (p : Permission) → holds [] p ≡ false
unfolding holds
holds-nil p = refl

guest-member : (p : Permission) → holds every_guest p ≡ true → holds every_member p ≡ true
unfolding holds
guest-member p h = ground arith

admin-owner :
    (p : Permission) (m : GoMap Permission Bool)
    → holds m p ≡ true
    → holds (set white_label_manage true (set workspace_manage true m)) p ≡ true
admin-owner p m h = ground (
  arith,
  holds-set white_label_manage p true (set workspace_manage true m),
  holds-set workspace_manage p true m,
)

abbrev pub implies : Bool → Bool → Bool
implies a b = not a || b

-- Each default role holds what the role below it holds, for every text that could name a
-- permission: a guest's permissions are a member's, a member's an admin's, an admin's an owner's;
-- a role that is not one of the four holds nothing.
pub has_hierarchy :
    (p : Permission) (s : String)
    → (implies (has guest p) (has member p) ≡ true)
      × (implies (has member p) (has admin p) ≡ true)
      × (implies (has admin p) (has owner p) ≡ true)
      × (has (other_role s) p ≡ false)
unfolding has role_has default_workspace_role default_workspace_permissions
has_hierarchy p s = (
  ground (arith, guest-member p),
  ground (arith, holds-grant_all admin_permissions every_member p),
  ground (arith, admin-owner p (grant_all admin_permissions every_member)),
  holds-nil p,
)

-- ---- stored definitions

holds-parse_stored :
    (raws : List String) (m out : GoMap Permission Bool)
    → parse_stored raws m ≡ ok out
    → (p : Permission) → holds out p ≡ (holds m p || contains p (map trim_space raws))
unfolding parse_stored
holds-parse_stored [] m out h p = ground arith
holds-parse_stored (raw ∷ raws) m out h p = elim (Bool-cases (is_valid raw)) [
  | inr bad ↦ cc (rw (parse_invalid raw bad, parse_stored) at h)
  | inl good ↦ ground (
    arith,
    holds-parse_stored raws (set (trim_space raw) true m) out
        (rw (parse_valid raw good, parse_stored) at h) p,
    holds-set (trim_space raw) p true m,
  )
]

-- A stored definition that is read allows exactly the texts that it lists, trimmed, and keeps its
-- name and base role.
pub role_has-role_definition_from_entity :
    (d : WorkspaceRoleDefinition) (r : RoleDefinition)
    → role_definition_from_entity d ≡ ok r
    → (r.base_role ≡ d.base_role)
      × (r.name ≡ d.name)
      × ((p : Permission) → role_has r p ≡ contains p (map trim_space d.permissions))
unfolding role_definition_from_entity role_has
role_has-role_definition_from_entity d r h = elim (Result-cases (parse_stored d.permissions [])) [
  | inr (e, failed) ↦ absurd (cc (h, failed))
  | inl (m, done) ↦ (
    ground (arith, done),
    ground (arith, done),
    λ p. ground (arith, done, holds-nil p, holds-parse_stored d.permissions [] m done p),
  )
]
