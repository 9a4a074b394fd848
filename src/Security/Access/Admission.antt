-- ===== src/Security/Access/Admission.antt =====
-- Whom `Channel` of internal/security/accesspolicy/checker.go does not turn away.
use aloqa_codex.Common.{ℕ, Bool, true, false, Option, none, some, ◌≡◌, refl, arith}
use aloqa_codex.Domain.{
  Channel, ChannelMember, ChannelType, public, private, dm, group_dm, meeting, other_type,
  WorkspaceMember,
}
use aloqa_codex.Cerrors.{ok}
use aloqa_codex.Security.Access.{
  Capability, view, participate, Checker, workspace_member, channel_member_or_nil, member_gate,
  channel_decision_for_workspace_member, channel_access, decision, member,
}
use aloqa_codex.Security.Access.Decisions.{MemberMay, reads_public, takes_part, converses}

-- The five types of a channel that the source names.
abbrev pub is_known : ChannelType → Bool
is_known (other_type t) = false
is_known public = true
is_known private = true
is_known dm = true
is_known group_dm = true
is_known meeting = true

member_gate_complete :
    (c : Checker) (kind : ChannelType) (channel_id user_id : ℕ) (capability : Capability)
    (cm : Option ChannelMember)
    → is_known kind ≡ true
    → MemberMay c kind channel_id user_id capability cm
    → member_gate c kind channel_id user_id capability cm ≡ ok tt
unfolding member_gate
member_gate_complete c public channel_id user_id view cm k may = refl
member_gate_complete c public channel_id user_id participate (some m) k may = refl
member_gate_complete c public channel_id user_id participate none k (reads_public e v) =
    absurd (ground arith)
member_gate_complete c public channel_id user_id participate none k (takes_part m e s) = absurd (cc)
member_gate_complete c public channel_id user_id participate none k (converses m e s a) =
    absurd (cc)
member_gate_complete c (other_type t) channel_id user_id capability cm k may = absurd (cc)
member_gate_complete c private channel_id user_id capability cm k (reads_public e v) = absurd (cc)
member_gate_complete c private channel_id user_id capability cm k (takes_part m e s) =
    ground (arith, e)
member_gate_complete c private channel_id user_id capability cm k (converses m e s a) = absurd (cc)
member_gate_complete c meeting channel_id user_id capability cm k (reads_public e v) = absurd (cc)
member_gate_complete c meeting channel_id user_id capability cm k (takes_part m e s) =
    ground (arith, e)
member_gate_complete c meeting channel_id user_id capability cm k (converses m e s a) = absurd (cc)
member_gate_complete c dm channel_id user_id capability cm k (reads_public e v) = absurd (cc)
member_gate_complete c dm channel_id user_id capability cm k (takes_part m e s) = absurd (cc)
member_gate_complete c dm channel_id user_id capability cm k (converses m e s a) =
    ground (arith, e, a)
member_gate_complete c group_dm channel_id user_id capability cm k (reads_public e v) = absurd (cc)
member_gate_complete c group_dm channel_id user_id capability cm k (takes_part m e s) = absurd (cc)
member_gate_complete c group_dm channel_id user_id capability cm k (converses m e s a) =
    ground (arith, e, a)

-- `Channel` lets a workspace member in, as a member, whenever the channel is found, is not archived and has
-- one of the five types, the look-up of the channel member does not fail, and the member may: the channel is
-- public and is only viewed, or the user is a channel member, with the consent of the collaboration policy
-- in a direct message.
pub channel_access_complete :
    (c : Checker) (ch : Channel) (m : WorkspaceMember) (cm : Option ChannelMember)
    (channel_id user_id : ℕ) (capability : Capability)
    → c.get_channel channel_id ≡ ok ch
    → ch.archived ≡ false
    → is_known ch.kind ≡ true
    → workspace_member c ch.workspace_id user_id ≡ ok m
    → channel_member_or_nil c ch.id user_id ≡ ok cm
    → MemberMay c ch.kind ch.id user_id capability cm
    → channel_access (some c) channel_id user_id capability ≡ ok (decision member ch (some m) cm)
unfolding channel_access channel_decision_for_workspace_member
channel_access_complete c ch m cm channel_id user_id capability found fresh known is_member looked
      may =
    ground (
      arith,
      found,
      fresh,
      is_member,
      looked,
      member_gate_complete c ch.kind ch.id user_id capability cm known may,
    )
