-- ===== src/Security/Runs.antt =====
-- The channel checks of internal/security on concrete data: the direct message 5 of workspace 1, which
-- the user 9 of workspace 2 shares over an active connection.
use aloqa_codex.Common.{
  ℕ, true, false, List, [], ◌∷◌, none, some, ◌≡◌, refl, zero, suc, ◌-◌, nat_eqb, if◌then◌else◌,
}
use aloqa_codex.Domain.{
  Channel, ChannelMember, ChannelAccessGrant, WorkspaceMember, member, dm, public,
}
use aloqa_codex.Cerrors.{Result, ok, err, new_not_found}
use aloqa_codex.Common.Int.{pos_part}
use aloqa_codex.Collaboration.Policy.{
  WorkspaceConnection, WorkspaceConnectionPolicy, active, visibility_basic, contact_open,
}
use aloqa_codex.Collaboration.Service.{can_share_channel}
use aloqa_codex.Security.Collab
use aloqa_codex.Security.Collab.{Opened, authorize, authorize_sound}
use aloqa_codex.Security.Access.{
  view, participate, collaborator, ChannelDecision, Checker, channel_access, workspace_access,
}
use aloqa_codex.Security.Access.Admission.{channel_access_complete}
use aloqa_codex.Security.Access.{Subject, decision, workspace_member, channel_member_or_nil}
use aloqa_codex.Security.Access.Decisions.{reads_public, Grounds, channel_access_sound}
use aloqa_codex.Security.Access.Workspace.{Entry, workspace_access_sound}
use aloqa_codex.Security.Access.Listing.{Channels, list_channels, take}
use aloqa_codex.Security.Access.Truncation.{WithinPage, list_channels_truncates}

abbrev policy : WorkspaceConnectionPolicy
policy = record {
  directory_visibility = visibility_basic;
  contact_policy = contact_open;
  allowed_source_roles = [];
  allowed_target_roles = [];
  shared_channels = true;
  shared_calls = false;
  expires_at = some 100;
}

abbrev connection : WorkspaceConnection
connection = record {
  id = 1;
  source_workspace_id = 1;
  target_workspace_id = 2;
  status = active;
  policy = policy;
  created_by = 7;
  approved_by = some 9;
  created_at = 10;
  updated_at = 20;
}

abbrev find_member : ℕ → ℕ → Result WorkspaceMember
find_member w u = ok (record { id = u; workspace_id = w; user_id = u; role = member })

abbrev chat_grant : ChannelAccessGrant
chat_grant = record {
  id = 1;
  channel_id = 5;
  workspace_id = 1;
  user_id = 9;
  source_user_id = 7;
  remote_workspace_id = 2;
  allow_calls = false;
}

abbrev collab : Collab.Checker
collab = record {
  list_by_channel = λ id. ok (chat_grant ∷ []);
  collaboration = record { get_member = find_member; permissions = none };
  connections = record { fault = none; connections = connection ∷ [] };
}

chat_shared : authorize (some collab) 50 5 9 false ≡ ok (record { managed = true; allowed = true })
unfolding authorize can_share_channel
chat_shared = refl

-- After the connection has expired the user is refused, and so is a call at any time.
chat_expired :
    authorize (some collab) 100 5 9 false ≡ ok (record { managed = true; allowed = false })
unfolding authorize can_share_channel
chat_expired = refl

call_refused : authorize (some collab) 50 5 9 true ≡ ok (record { managed = true; allowed = false })
unfolding authorize can_share_channel
call_refused = refl

authorize_sound_example :
    (gs : List ChannelAccessGrant) × (collab.list_by_channel 5 ≡ ok gs)
    × Opened collab 50 9 false gs
authorize_sound_example =
    authorize_sound collab 50 5 9 false (record { managed = true; allowed = true }) chat_shared refl

abbrev chat : Channel
chat = record {
  id = 5;
  workspace_id = 1;
  name = "";
  topic = "";
  kind = dm;
  created_by = 7;
  archived = false;
}

abbrev bob : ChannelMember
bob = record { id = 1; channel_id = 5; user_id = 9 }

abbrev checker : Checker
checker = record {
  get_workspace_member = some (λ w u. err (new_not_found "workspace member not found"));
  get_channel = λ id. ok chat;
  get_channel_member = λ id u. ok bob;
  guests = none;
  collab = some (λ id u. authorize (some collab) 50 id u false);
}

abbrev bob_decision : ChannelDecision
bob_decision = record {
  subject = collaborator;
  channel = chat;
  workspace_member = none;
  channel_member = some bob;
}

bob_enters : channel_access (some checker) 5 9 participate ≡ ok bob_decision
unfolding channel_access authorize can_share_channel
bob_enters = refl

channel_access_sound_example :
    (checker.get_channel 5 ≡ ok chat)
    × (chat.archived ≡ false)
    × Grounds checker chat 9 participate bob_decision
channel_access_sound_example = channel_access_sound checker 5 9 participate bob_decision bob_enters

-- A workspace with 150 public channels: the newest is 150, and a cursor 0 asks for the first page.
abbrev open_channel : ℕ → Channel
open_channel id = record {
  id = id;
  workspace_id = 1;
  name = "";
  topic = "";
  kind = public;
  created_by = 7;
  archived = false;
}

abbrev below : ℕ → List Channel
below zero = []
below (suc n) = open_channel (suc n) ∷ below n

abbrev channels : Channels
channels = record {
  query_workspace = λ w cursor limit.
      ok (take (pos_part limit) (below (if nat_eqb cursor 0 then 150 else cursor - 1)));
  list_by_user = λ w u. ok [];
}

abbrev open_checker : Checker
open_checker = record {
  get_workspace_member = some find_member;
  get_channel = λ id. ok (open_channel id);
  get_channel_member = λ id u. err (new_not_found "channel member not found");
  guests = none;
  collab = none;
}

list_channels_truncates_example :
    (r : Result (List Channel)) × (list_channels 9 (some open_checker) channels 1 7 view ≡ some r)
    × WithinPage r
list_channels_truncates_example = list_channels_truncates 8 open_checker channels 1 7

abbrev visitor : WorkspaceMember
visitor = record { id = 7; workspace_id = 1; user_id = 7; role = member }

visitor_found : workspace_member open_checker 1 7 ≡ ok visitor
unfolding workspace_member
visitor_found = refl

visitor_not_joined : channel_member_or_nil open_checker 3 7 ≡ ok none
unfolding channel_member_or_nil
visitor_not_joined = refl

-- A member who never joined a public channel sees it.
channel_access_complete_example :
    channel_access (some open_checker) 3 7 view
    ≡ ok (decision Subject.member (open_channel 3) (some visitor) none)
channel_access_complete_example =
    channel_access_complete open_checker (open_channel 3) visitor none 3 7 view refl refl refl
      visitor_found visitor_not_joined (reads_public refl refl)

visitor_enters : workspace_access (some open_checker) 1 7 ≡ ok Subject.member
unfolding workspace_access workspace_member
visitor_enters = refl

workspace_access_sound_example : Entry open_checker 1 7 Subject.member
workspace_access_sound_example =
    workspace_access_sound open_checker 1 7 Subject.member visitor_enters
