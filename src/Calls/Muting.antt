-- ===== src/Calls/Muting.antt =====
-- What `MuteParticipant` of internal/service/call/service.go does to the rows of participants.
use aloqa_codex.Common.{ℕ, true, false, not, ◌&&◌, ◌≡◌, ◌⊎◌, refl, inl, inr, arith}
use aloqa_codex.Cerrors.{GoError, ok, err, Result-cases, new_internal}
use aloqa_codex.Calls.Types.{Call, CallParticipant, is_ended, is_moderator}
use aloqa_codex.Calls.Store.{Db, update_where}
use aloqa_codex.Calls.Participants.{is_participant, get_participant, update_participant_media}
use aloqa_codex.Calls.Actions.{reading, bind, with_error, do_publish}
use aloqa_codex.Calls.Service.{Service, require_call_access}
use aloqa_codex.Calls.Targets.{ParticipantTarget, get_participant_by_target}
use aloqa_codex.Calls.Hosting.{MediaPatch, overlaid, writes_media}
use aloqa_codex.Calls.Controls.{mute_checks, mute_participant}

-- The patch leaves every control of the participant as it is, or shuts it.
abbrev pub OnlyShuts : CallParticipant → CallParticipant → Type 0
OnlyShuts p q =
    (p.audio_muted && not q.audio_muted ≡ false)
    × (p.video_muted && not q.video_muted ≡ false)
    × (q.screen_sharing && not p.screen_sharing ≡ false)

-- What the checks of `MuteParticipant` have seen.
abbrev Allowed :
    Service → Db → ℕ → ℕ → ℕ → ParticipantTarget → MediaPatch → Call → CallParticipant → Type 0
Allowed s db w c u target m call p =
    (require_call_access s db w c u ≡ ok call)
    × (is_ended call.status ≡ false)
    × (get_participant_by_target db c target ≡ ok p)
    × OnlyShuts p (overlaid m p)

mute_checks_sound :
    (s : Service) (db : Db) (w c u : ℕ) (target : ParticipantTarget) (m : MediaPatch) (call : Call)
    (p : CallParticipant)
    → mute_checks s db w c u target m ≡ ok (call, p)
    → Allowed s db w c u target m call p
unfolding mute_checks
mute_checks_sound s db w c u target m call p h =
    (ground arith, ground arith, ground arith, (ground arith, ground arith, ground arith))

mute_checks_actor :
    (s : Service) (db : Db) (w c u : ℕ) (target : ParticipantTarget) (m : MediaPatch) (call : Call)
    (p : CallParticipant)
    → mute_checks s db w c u target m ≡ ok (call, p)
    → (actor : CallParticipant) × (get_participant db c u ≡ ok actor)
      × (is_moderator actor.role ≡ true)
unfolding mute_checks
mute_checks_actor s db w c u target m call p h = elim (Result-cases (get_participant db c u)) [
  | inl (actor, e) ↦ (actor, e, ground arith)
  | inr (e, bad) ↦ absurd (ground arith)
]

-- What a call of `MuteParticipant` that succeeds has written.
abbrev pub Muted : Service → ℕ → ℕ → ℕ → ParticipantTarget → MediaPatch → Db → Db → Type 0
Muted s w c u target m a b =
    (call : Call) × (actor : CallParticipant) × (p : CallParticipant) × (get_participant a c u
      ≡ ok actor)
    × (is_moderator actor.role ≡ true)
    × Allowed s a w c u target m call p
    × (b.participants
        ≡ update_where (is_participant p.id)
            (λ q. record q {
              audio_muted = (overlaid m p).audio_muted;
              video_muted = (overlaid m p).video_muted;
              screen_sharing = (overlaid m p).screen_sharing;
            })
            a.participants)
    × (b.calls ≡ a.calls)

mute_refused :
    (s : Service) (w c u : ℕ) (target : ParticipantTarget) (m : MediaPatch) (db : Db) (e : GoError)
    → mute_checks s db w c u target m ≡ err e
    → mute_participant s w c u target m db ≡ (db, err e)
unfolding mute_participant reading
mute_refused s w c u target m db e bad = rw bad refl

muting_of :
    (s : Service) (w c u : ℕ) (target : ParticipantTarget) (m : MediaPatch) (db : Db) (call : Call)
    (p : CallParticipant)
    → mute_checks s db w c u target m ≡ ok (call, p)
    → (((mute_participant s w c u target m db).1 ≡ ok tt)
        × Muted s w c u target m db (mute_participant s w c u target m db).0)
      ⊎ ((e : GoError) × (mute_participant s w c u target m db ≡ (db, err e)))
unfolding mute_participant reading bind with_error update_participant_media do_publish
muting_of s w c u target m db call p checked =
    let (actor, read, moderates) = mute_checks_actor s db w c u target m call p checked in
    let seen = mute_checks_sound s db w c u target m call p checked in
    elim (Result-cases (writes_media (overlaid m p) db).1) [
      | inr (e, bad) ↦
          inr (new_internal "failed to update participant media" e, rw checked (ground arith))
      | inl (_, fine) ↦ inl (
        rw checked (ground arith),
        (
          call,
          actor,
          p,
          read,
          moderates,
          seen,
          rw checked (ground arith),
          rw checked (ground arith),
        ),
      )
    ]

-- `MuteParticipant` either succeeds: the caller is a host or co-host of the call, which they have access to and which
-- has not ended, and the only change to the calls and participants is that the target's controls are set; none of its
-- microphone, camera and screen is turned on by it. Or it returns an error, and has changed nothing.
pub mute_participant_sound :
    (s : Service) (w c u : ℕ) (target : ParticipantTarget) (m : MediaPatch) (db : Db)
    → (((mute_participant s w c u target m db).1 ≡ ok tt)
        × Muted s w c u target m db (mute_participant s w c u target m db).0)
      ⊎ ((e : GoError) × (mute_participant s w c u target m db ≡ (db, err e)))
mute_participant_sound s w c u target m db = elim (Result-cases (mute_checks s db w c u target m)) [
  | inr (e, bad) ↦ inr (e, mute_refused s w c u target m db e bad)
  | inl ((call, p), checked) ↦ muting_of s w c u target m db call p checked
]
