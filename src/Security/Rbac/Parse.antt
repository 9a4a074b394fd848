-- ===== src/Security/Rbac/Parse.antt =====
-- internal/security/rbac/rbac.go: the permissions and how their texts are read.
use Prim.Native.String.{◌++◌ as text_append}
use aloqa_codex.Common.{String, List, [], ◌∷◌, ◌++◌, if◌then◌else◌, Option, none, some}
use aloqa_codex.Common.Equality.{contains, string_eq}
use aloqa_codex.Common.Text.{sort_strings, trim_space}
use aloqa_codex.Cerrors.{plain, Result, ok, err, ◌>>=◌}

-- The type is a Go string: a value need not be one of the constants.
abbrev pub Permission : Type 0
Permission = String

abbrev pub workspace_manage : Permission
workspace_manage = "workspace.manage"

abbrev pub workspace_settings : Permission
workspace_settings = "workspace.settings.manage"

abbrev pub member_read : Permission
member_read = "member.read"

abbrev pub member_invite : Permission
member_invite = "member.invite"

abbrev pub member_manage : Permission
member_manage = "member.manage"

abbrev pub channel_create : Permission
channel_create = "channel.create"

abbrev pub channel_manage : Permission
channel_manage = "channel.manage"

abbrev pub message_send : Permission
message_send = "message.send"

abbrev pub message_moderate : Permission
message_moderate = "message.moderate"

abbrev pub call_start : Permission
call_start = "call.start"

abbrev pub call_moderate : Permission
call_moderate = "call.moderate"

abbrev pub recording_start : Permission
recording_start = "recording.start"

abbrev pub recording_read : Permission
recording_read = "recording.read"

abbrev pub file_upload : Permission
file_upload = "file.upload"

abbrev pub file_download : Permission
file_download = "file.download"

abbrev pub file_manage : Permission
file_manage = "file.manage"

abbrev pub marketplace_manage : Permission
marketplace_manage = "marketplace.manage"

abbrev pub ai_use : Permission
ai_use = "ai.use"

abbrev pub telephony_use : Permission
telephony_use = "telephony.use"

abbrev pub white_label_manage : Permission
white_label_manage = "white_label.manage"

abbrev pub collaboration_manage : Permission
collaboration_manage = "collaboration.manage"

abbrev pub directory_read_shared : Permission
directory_read_shared = "directory.shared.read"

abbrev pub direct_message_shared : Permission
direct_message_shared = "direct_message.shared.start"

abbrev pub cross_workspace_invite : Permission
cross_workspace_invite = "workspace.external.invite"

-- `adminPermissions`
abbrev pub admin_permissions : List Permission
admin_permissions =
    workspace_settings ∷ member_read ∷ member_invite ∷ member_manage ∷ channel_create
    ∷ channel_manage ∷ message_send ∷ message_moderate ∷ call_start ∷ call_moderate
    ∷ recording_start ∷ recording_read ∷ file_upload ∷ file_download ∷ file_manage
    ∷ marketplace_manage ∷ ai_use ∷ telephony_use ∷ collaboration_manage ∷ directory_read_shared
    ∷ direct_message_shared ∷ cross_workspace_invite ∷ []

-- The list of `AllPermissions`, before it is sorted.
abbrev pub listed_permissions : List Permission
listed_permissions =
    workspace_manage ∷ workspace_settings ∷ member_read ∷ member_invite ∷ member_manage
    ∷ channel_create ∷ channel_manage ∷ message_send ∷ message_moderate ∷ call_start ∷ call_moderate
    ∷ recording_start ∷ recording_read ∷ file_upload ∷ file_download ∷ file_manage
    ∷ marketplace_manage ∷ ai_use ∷ telephony_use ∷ white_label_manage ∷ collaboration_manage
    ∷ directory_read_shared ∷ direct_message_shared ∷ cross_workspace_invite ∷ []

unfoldable pub all_permissions : List Permission
unfolding sort_strings
all_permissions = sort_strings listed_permissions

-- `for _, candidate := range AllPermissions() { if candidate == permission { … } }`
unfoldable pub parse_permission : String → Option Permission
unfolding all_permissions trim_space
parse_permission raw =
    let permission = trim_space raw in
    if contains permission all_permissions then some permission else none

-- The loop of `NormalizePermissionStrings`: `normalized` holds the keys of the set `unique`.
unfoldable pub normalize_from : List String → List String → Result (List String)
unfolding parse_permission
normalize_from normalized [] = ok normalized
normalize_from normalized (value ∷ raw) = elim (parse_permission value) [
  | none ↦ err (plain (text_append "invalid permission: " value))
  | some key ↦
      let next = if contains key normalized then normalized else normalized ++ key ∷ [] in
      normalize_from next raw
]

unfoldable pub normalize_permission_strings : List String → Result (List String)
unfolding normalize_from
normalize_permission_strings raw = do
  normalized ← normalize_from [] raw
  ok (sort_strings normalized)
