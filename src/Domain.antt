-- ===== src/Domain.antt =====
-- internal/domain/entity: the records and enumerations that the components share. A UUID is a
-- number, and `uuid.Nil` is 0; a Go string type with named constants is a data type with a
-- constructor for each constant and one for every other text. Fields that no modelled operation reads
-- or writes, such as timestamps and display names, are left out of a record.
use aloqa_codex.Common.{ℕ, String, Bool, true, false, List}
use aloqa_codex.Common.Equality.{◌==◌, nat_eq, string_eq}

-- workspace.go
pub data WorkspaceRole : Type 0 where
  owner admin member guest : WorkspaceRole
  other_role : String → WorkspaceRole

abbrev pub role_eqb : WorkspaceRole → WorkspaceRole → Bool
role_eqb owner owner = true
role_eqb admin admin = true
role_eqb member member = true
role_eqb guest guest = true
role_eqb (other_role s) (other_role t) = s == t
role_eqb _ _ = false

pub record WorkspaceMember : Type 0 where
  pub id : ℕ
  pub workspace_id : ℕ
  pub user_id : ℕ
  pub role : WorkspaceRole

-- workspace_role.go
pub record WorkspaceRoleDefinition : Type 0 where
  pub id : ℕ
  pub workspace_id : ℕ
  pub name : String
  pub base_role : WorkspaceRole
  pub permissions : List String
  pub system : Bool

-- channel.go
pub data ChannelType : Type 0 where
  public private dm group_dm meeting : ChannelType
  other_type : String → ChannelType

pub record Channel : Type 0 where
  pub id : ℕ
  pub workspace_id : ℕ
  pub name : String
  pub topic : String
  pub kind : ChannelType  -- `Type`
  pub created_by : ℕ
  pub archived : Bool

pub record ChannelMember : Type 0 where
  pub id : ℕ
  pub channel_id : ℕ
  pub user_id : ℕ

-- channel_access_grant.go
pub record ChannelAccessGrant : Type 0 where
  pub id : ℕ
  pub channel_id : ℕ
  pub workspace_id : ℕ
  pub user_id : ℕ
  pub source_user_id : ℕ
  pub remote_workspace_id : ℕ
  pub allow_calls : Bool

-- guest_access.go
pub record GuestAccessGrant : Type 0 where
  pub id : ℕ
  pub invite_id : ℕ
  pub workspace_id : ℕ
  pub user_id : ℕ
  pub channel_ids : List ℕ
  pub expires_at : ℕ
