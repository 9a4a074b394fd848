-- ===== src/Security/Access/Decisions.antt =====
-- On what grounds `Channel` of internal/security/accesspolicy/checker.go lets a user
-- in.
use aloqa_codex.Common.{
  ℕ, true, false, Option, none, some, ◌≡◌, inl, inr, refl, sym, subst, arith, Bool-cases,
  Option-cases,
}
use aloqa_codex.Domain.{
  Channel, ChannelMember, ChannelType, public, private, dm, group_dm, meeting, other_type,
  WorkspaceMember,
}
use aloqa_codex.Cerrors.{ok, is_forbidden, Result-cases}
use aloqa_codex.Security.Access.{
  member, guest, collaborator, Capability, view, participate, ChannelDecision, GuestAccess, Checker,
  workspace_member, authorize_collaboration, channel_member_or_nil, is_shared_type, member_gate,
  channel_decision_for_workspace_member, channel_decision_for_collaborator, outsider_decision,
  channel_access, require_collaboration,
}

-- The gate of a workspace member: a public channel is open to view, any other use wants a channel
-- member, and a direct message also the consent of the collaboration policy.
pub data MemberMay (c : Checker) (kind : ChannelType) (channel_id user_id : ℕ)
    (capability : Capability) (cm : Option ChannelMember) : Type 0 where
  reads_public :
      kind ≡ public → capability ≡ view → MemberMay c kind channel_id user_id capability cm
  takes_part :
      (m : ChannelMember)
      → cm ≡ some m
      → is_shared_type kind ≡ false
      → MemberMay c kind channel_id user_id capability cm
  converses :
      (m : ChannelMember)
      → cm ≡ some m
      → is_shared_type kind ≡ true
      → authorize_collaboration c channel_id user_id ≡ ok true
      → MemberMay c kind channel_id user_id capability cm

require_collaboration_sound :
    (c : Checker) (channel_id user_id : ℕ)
    → require_collaboration c channel_id user_id ≡ ok tt
    → authorize_collaboration c channel_id user_id ≡ ok true
require_collaboration_sound c channel_id user_id h =
    elim (Result-cases (authorize_collaboration c channel_id user_id)) [
      | inr (e, failed) ↦ absurd (ground arith)
      | inl (allowed, done) ↦ ground arith
    ]

member_gate_sound :
    (c : Checker) (kind : ChannelType) (channel_id user_id : ℕ) (capability : Capability)
    (cm : Option ChannelMember)
    → member_gate c kind channel_id user_id capability cm ≡ ok tt
    → MemberMay c kind channel_id user_id capability cm
unfolding member_gate
member_gate_sound c public channel_id user_id view cm h = reads_public refl refl
member_gate_sound c public channel_id user_id participate none h = absurd (cc)
member_gate_sound c public channel_id user_id participate (some m) h = takes_part m refl refl
member_gate_sound c (other_type t) channel_id user_id capability cm h = absurd (cc)
member_gate_sound c private channel_id user_id capability none h = absurd (cc)
member_gate_sound c private channel_id user_id capability (some m) h = takes_part m refl refl
member_gate_sound c meeting channel_id user_id capability none h = absurd (cc)
member_gate_sound c meeting channel_id user_id capability (some m) h = takes_part m refl refl
member_gate_sound c dm channel_id user_id capability none h = absurd (cc)
member_gate_sound c dm channel_id user_id capability (some m) h =
    converses m refl refl (require_collaboration_sound c channel_id user_id h)
member_gate_sound c group_dm channel_id user_id capability none h = absurd (cc)
member_gate_sound c group_dm channel_id user_id capability (some m) h =
    converses m refl refl (require_collaboration_sound c channel_id user_id h)

-- The grounds of a decision. The channel is found and not archived in each.
pub data Grounds (c : Checker) (ch : Channel) (user_id : ℕ) (capability : Capability)
    (d : ChannelDecision) : Type 0 where
  of_member :
      (m : WorkspaceMember)
      → workspace_member c ch.workspace_id user_id ≡ ok m
      → d.subject ≡ member
      → d.workspace_member ≡ some m
      → channel_member_or_nil c ch.id user_id ≡ ok d.channel_member
      → MemberMay c ch.kind ch.id user_id capability d.channel_member
      → Grounds c ch user_id capability d
  of_guest :
      (g : GuestAccess)
      → c.guests ≡ some g
      → g.has_channel_access ch.workspace_id ch.id user_id ≡ ok true
      → d.subject ≡ guest
      → Grounds c ch user_id capability d
  of_collaborator :
      (m : ChannelMember)
      → is_shared_type ch.kind ≡ true
      → c.get_channel_member ch.id user_id ≡ ok m
      → authorize_collaboration c ch.id user_id ≡ ok true
      → d.subject ≡ collaborator
      → d.channel_member ≡ some m
      → Grounds c ch user_id capability d

member_decision_sound :
    (c : Checker) (ch : Channel) (m : WorkspaceMember) (user_id : ℕ) (capability : Capability)
    (d : ChannelDecision)
    → workspace_member c ch.workspace_id user_id ≡ ok m
    → channel_decision_for_workspace_member c ch m user_id capability ≡ ok d
    → Grounds c ch user_id capability d × (d.channel ≡ ch)
unfolding channel_decision_for_workspace_member
member_decision_sound c ch m user_id capability d found h =
    elim (Result-cases (channel_member_or_nil c ch.id user_id)) [
      | inr (e, failed) ↦ absurd (ground arith)
      | inl (cm, looked) ↦ elim (Result-cases (member_gate c ch.kind ch.id user_id capability cm)) [
        | inr (e, failed) ↦ absurd (ground arith)
        | inl (_, passed) ↦
            let e : d.channel_member ≡ cm = ground arith in
            (
              of_member m found (ground arith) (ground arith) (rw e looked)
                  (rw e (member_gate_sound c ch.kind ch.id user_id capability cm passed)),
              ground arith,
            )
      ]
    ]

collaborator_decision_sound :
    (c : Checker) (ch : Channel) (user_id : ℕ) (capability : Capability) (d : ChannelDecision)
    → channel_decision_for_collaborator c ch user_id ≡ ok d
    → Grounds c ch user_id capability d × (d.channel ≡ ch)
unfolding channel_decision_for_collaborator
collaborator_decision_sound c ch user_id capability d h =
    elim (Bool-cases (is_shared_type ch.kind)) [
      | inr off ↦ absurd (cc (rw (off, channel_decision_for_collaborator) at h))
      | inl on ↦ elim (Result-cases (c.get_channel_member ch.id user_id)) [
        | inr (e, failed) ↦ absurd (ground arith)
        | inl (m, found) ↦ elim (Result-cases (require_collaboration c ch.id user_id)) [
          | inr (e, failed) ↦ absurd (ground arith)
          | inl (_, passed) ↦ (
            of_collaborator m on found (require_collaboration_sound c ch.id user_id passed)
                (ground arith) (ground arith),
            ground arith,
          )
        ]
      ]
    ]

outsider_decision_sound :
    (c : Checker) (ch : Channel) (user_id : ℕ) (capability : Capability) (d : ChannelDecision)
    → outsider_decision c ch user_id ≡ ok d
    → Grounds c ch user_id capability d × (d.channel ≡ ch)
unfolding outsider_decision
outsider_decision_sound c ch user_id capability d h = elim (Option-cases c.guests) [
  | inl nil ↦
      collaborator_decision_sound c ch user_id capability d (rw (nil, outsider_decision) at h)
  | inr (g, given) ↦ elim (Result-cases (g.has_channel_access ch.workspace_id ch.id user_id)) [
    | inr (e, failed) ↦ absurd (ground arith)
    | inl (true, allowed) ↦ (of_guest g given allowed (ground arith), ground arith)
    | inl (false, allowed) ↦ collaborator_decision_sound c ch user_id capability d (ground arith)
  ]
]

-- `Channel` decides for a user only about a channel that is found and not archived, and only on
-- one of three grounds: a workspace member whom the channel's type lets in, a guest with a grant,
-- or a member of a direct message whose collaboration is allowed.
pub channel_access_sound :
    (c : Checker) (channel_id user_id : ℕ) (capability : Capability) (d : ChannelDecision)
    → channel_access (some c) channel_id user_id capability ≡ ok d
    → (c.get_channel channel_id ≡ ok d.channel)
      × (d.channel.archived ≡ false)
      × Grounds c d.channel user_id capability d
unfolding channel_access
channel_access_sound c channel_id user_id capability d h =
    elim (Result-cases (c.get_channel channel_id)) [
      | inr (e, failed) ↦ absurd (ground arith)
      | inl (ch, found) ↦ elim (Bool-cases ch.archived) [
        | inl old ↦ absurd (ground arith)
        | inr fresh ↦
            let (grounds, same) = decided ch found fresh in
            (
              rw same found,
              rw same fresh,
              subst (λ x. Grounds c x user_id capability d) (sym same) grounds,
            )
      ]
    ]
  where
    decided :
        (ch : Channel)
        → c.get_channel channel_id ≡ ok ch
        → ch.archived ≡ false
        → Grounds c ch user_id capability d × (d.channel ≡ ch)
    decided ch found fresh = elim (Result-cases (workspace_member c ch.workspace_id user_id)) [
      | inl (m, is_member) ↦
          member_decision_sound c ch m user_id capability d is_member (ground arith)
      | inr (e, failed) ↦ elim (Bool-cases (is_forbidden e)) [
        | inr other ↦ absurd (ground arith)
        | inl outside ↦ outsider_decision_sound c ch user_id capability d (ground arith)
      ]
    ]
