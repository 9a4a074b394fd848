-- ===== src/Calls/Moderation.antt =====
-- `RejectParticipant`, `UpdateParticipantRole` and `RemoveParticipant` of internal/service/call/service.go never
-- take the role or the row of a host who is in the call.
use aloqa_codex.Common.{
  ℕ, true, false, not, ◌&&◌, some, ◌≡◌, inl, inr, arith, Bool-cases, nat_eqb, subst, sym, ◌∙◌,
}
use aloqa_codex.Cerrors.{ok}
use aloqa_codex.Calls.Types.{Call, CallParticipant, CallRole, is_host, is_co_host, is_moderator}
use aloqa_codex.Calls.Store.{Db, Event, find_where}
use aloqa_codex.Calls.Participants.{get_participant, is_participant}
use aloqa_codex.Calls.Actions.{do_publish, with_error}
use aloqa_codex.Calls.Service.{Service}
use aloqa_codex.Calls.Targets.{ParticipantTarget, get_participant_by_target}
use aloqa_codex.Calls.Hosting.{reject_participant}
use aloqa_codex.Calls.Controls.{
  role_checks, after_role, change_role, validate_assignable_role, remove_checks, remove_participant,
}
use aloqa_codex.Calls.Rows.{Keyed, find-own}
use aloqa_codex.Calls.Found.{IsRow, get_participant-IsRow, target-IsRow, seats-IsRow}
use aloqa_codex.Calls.Kept.{Cause, Kept, Kept-refl, row_key, seats_host}
use aloqa_codex.Calls.Keeping.{Keeps, bind_at, reading_at}
use aloqa_codex.Calls.RowWrites.{update_participant_role-Kept, remove_participant_by_id-Kept}
use aloqa_codex.Calls.Keepers.{keepers}
use aloqa_codex.Calls.Guarded.{waiting_checks_sound}

-- What the checks of `UpdateParticipantRole` have seen.
pub role_checks_sound :
    (s : Service) (db : Db) (w c u : ℕ) (target : ParticipantTarget) (role : CallRole) (call : Call)
    (actor p : CallParticipant)
    → role_checks s db w c u target role ≡ ok (call, actor, p)
    → (get_participant db c u ≡ ok actor)
      × (get_participant_by_target db c target ≡ ok p)
      × (validate_assignable_role call.kind role ≡ ok tt)
      × (is_moderator actor.role ≡ true)
      × ((is_host p.role && not (nat_eqb p.id actor.id)) ≡ false)
      × ((is_co_host actor.role && is_moderator role) ≡ false)
      × ((nat_eqb actor.id p.id && is_host actor.role && not (is_host role)) ≡ false)
unfolding role_checks
role_checks_sound s db w c u target role call actor p h = (
  ground arith,
  ground arith,
  ground arith,
  ground arith,
  ground arith,
  ground arith,
  ground arith,
)

-- Rows of one id are one row.
same_row_of :
    (db : Db) (p q : CallParticipant)
    → IsRow db p
    → IsRow db q
    → Keyed row_key db.participants
    → p.id ≡ q.id
    → p ≡ q
same_row_of db p q (f, e) (g, d) k same =
    let own : find_where (is_participant p.id) db.participants ≡ some p =
      find-own row_key f p db.participants k e in
    let other : find_where (is_participant p.id) db.participants ≡ some q =
      subst (λ i. find_where (is_participant i) db.participants ≡ some q) (sym same)
        (find-own row_key g q db.participants k d) in
    cc

-- The target's row seats no host where the role that it gets is another.
role_target_free :
    (s : Service) (db : Db) (w c u : ℕ) (target : ParticipantTarget) (role : CallRole) (call : Call)
    (actor p : CallParticipant)
    → role_checks s db w c u target role ≡ ok (call, actor, p)
    → Keyed row_key db.participants
    → is_host role ≡ false
    → seats_host p.id db.participants ≡ false
role_target_free s db w c u target role call actor p h k other =
    let (acts, aims, _, _, foreign, _, own) =
      role_checks_sound s db w c u target role call actor p h in
    let row = target-IsRow db c target p aims in
    let actor_row = get_participant-IsRow db c u actor acts in
    elim (Bool-cases (is_host p.role)) [
      | inr guest ↦ seats-IsRow db p row k ∙ ground arith
      | inl chief ↦
          let same : p.id ≡ actor.id = ground arith in
          let one : p ≡ actor = same_row_of db p actor row actor_row k same in
          let reign : is_host actor.role ≡ true = subst (λ r. is_host r.role ≡ true) one chief in
          absurd (ground arith)
    ]

after_role-Keeps :
    {k : Cause} (start : Db) (call : Call) (p : CallParticipant)
    → Keeps (Kept k start) (after_role call p)
after_role-Keeps start call p = search keepers depth 24

pub change_role-Kept :
    {k : Cause} (s : Service) (w c u : ℕ) (target : ParticipantTarget) (role : CallRole) (db : Db)
    → Kept k db (change_role s w c u target role db).0
unfolding change_role with_error
change_role-Kept s w c u target role db =
    reading_at (Kept _ db) _ _ db
      (λ (call, actor, p) h.
        bind_at (Kept _ db) _ _ db
          (update_participant_role-Kept p.id role db
            (role_target_free s db w c u target role call actor p h))
          (λ _. after_role-Keeps db call _))
      (Kept-refl db)

publish-Keeps : {k : Cause} (start : Db) (e : Event) → Keeps (Kept k start) (do_publish e)
publish-Keeps start e = search keepers

pub reject_participant-Kept :
    {k : Cause} (s : Service) (w c u : ℕ) (target : ParticipantTarget) (db : Db)
    → Kept k db (reject_participant s w c u target db).0
unfolding reject_participant with_error
reject_participant-Kept s w c u target db =
    reading_at (Kept _ db) _ _ db
      (λ (call, p) h.
        let (_, _, aims, waits) = waiting_checks_sound s db w c u target call p h in
        bind_at (Kept _ db) _ _ db
          (remove_participant_by_id-Kept p.id db
            (λ k. seats-IsRow db p (target-IsRow db c target p aims) k ∙ ground arith))
          (λ _. publish-Keeps db _))
      (Kept-refl db)

-- What the checks of `RemoveParticipant` have seen.
pub remove_checks_sound :
    (s : Service) (db : Db) (w c u : ℕ) (target : ParticipantTarget) (call : Call)
    (p : CallParticipant)
    → remove_checks s db w c u target ≡ ok (call, p)
    → (get_participant_by_target db c target ≡ ok p) × (is_host p.role ≡ false)
unfolding remove_checks
remove_checks_sound s db w c u target call p h = (ground arith, ground arith)

pub remove_participant-Kept :
    {k : Cause} (s : Service) (w c u : ℕ) (target : ParticipantTarget) (db : Db)
    → Kept k db (remove_participant s w c u target db).0
unfolding remove_participant with_error
remove_participant-Kept s w c u target db =
    reading_at (Kept _ db) _ _ db
      (λ (call, p) h.
        let (aims, plain) = remove_checks_sound s db w c u target call p h in
        bind_at (Kept _ db) _ _ db
          (remove_participant_by_id-Kept p.id db
            (λ k. seats-IsRow db p (target-IsRow db c target p aims) k ∙ ground arith))
          (λ _. publish-Keeps db _))
      (Kept-refl db)
