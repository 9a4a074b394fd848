-- ===== src/Calls/Found.antt =====
-- The rows that the checks of internal/service/call have read.
use aloqa_codex.Common.{
  ℕ, String, Bool, not, ◌&&◌, Option, none, some, ◌≡◌, inl, inr, arith, ap, Option-cases,
}
use aloqa_codex.Cerrors.{GoError, Result, ok, Result-cases}
use aloqa_codex.Calls.Types.{
  Call, CallParticipant, PrincipalType, unset, user_principal, guest_principal, other_principal,
  is_host, is_waiting,
}
use aloqa_codex.Calls.Store.{Db, get_call, is_call, find_where, query, found, Statement}
use aloqa_codex.Calls.Participants.{
  get_participant, get_guest_participant, no_participant, is_user_in, is_guest_in,
}
use aloqa_codex.Calls.Service.{Service, require_call_access, get_call_for_workspace}
use aloqa_codex.Calls.Targets.{
  ParticipantTarget, normalize_target, target_row, get_participant_by_target,
}
use aloqa_codex.Calls.Rows.{Keyed, find-own}
use aloqa_codex.Calls.Kept.{row_key, seats_host, sits}

-- ---- the call that the checks have read

get_call-found :
    (db : Db) (id : ℕ) (call : Call)
    → get_call db id ≡ ok call
    → find_where (is_call id) db.calls ≡ some call
unfolding get_call
get_call-found db id call h = elim (Option-cases (find_where (is_call id) db.calls)) [
  | inl gone ↦ absurd (ground arith)
  | inr (c, e) ↦ ground arith
]

pub require_call_access-found :
    (s : Service) (db : Db) (w c u : ℕ) (call : Call)
    → require_call_access s db w c u ≡ ok call
    → find_where (is_call c) db.calls ≡ some call
unfolding require_call_access get_call_for_workspace
require_call_access-found s db w c u call h = ground (arith, get_call-found db c call)

-- ---- rows of participants

query_ok {ℓ} :
    {A : Type ℓ} (db : Db) (st : Statement) (id : ℕ) (message : String) (r : Result A) (a : A)
    → query db st id message r ≡ ok a
    → r ≡ ok a
query_ok db st id message r a h = ground arith

found_ok {ℓ} :
    {A : Type ℓ} (missing : GoError) (o : Option A) (a : A) → found missing o ≡ ok a → o ≡ some a
found_ok missing none a h = absurd (cc)
found_ok missing (some b) a h = cc

abbrev pub IsRow : Db → CallParticipant → Type 0
IsRow db p = (q : CallParticipant → Bool) × (find_where q db.participants ≡ some p)

pub get_participant-IsRow :
    (db : Db) (c u : ℕ) (p : CallParticipant) → get_participant db c u ≡ ok p → IsRow db p
unfolding get_participant
get_participant-IsRow db c u p h = (
  is_user_in c u,
  found_ok no_participant (find_where (is_user_in c u) db.participants) p (query_ok db _ _ _ _ p h),
)

target_row-IsRow :
    (db : Db) (c : ℕ) (t : ParticipantTarget) (kind : PrincipalType) (p : CallParticipant)
    → target_row db c t kind ≡ ok p
    → IsRow db p
unfolding get_participant get_guest_participant
target_row-IsRow db c t user_principal p h = get_participant-IsRow db c t.user_id p h
target_row-IsRow db c t guest_principal p h =
    let q : CallParticipant → Bool = is_guest_in c (some t.guest_session_id) in
    (q, found_ok no_participant (find_where q db.participants) p (query_ok db _ _ _ _ p h))
target_row-IsRow db c t unset p h = absurd (cc)
target_row-IsRow db c t (other_principal _) p h = absurd (cc)

pub target-IsRow :
    (db : Db) (c : ℕ) (target : ParticipantTarget) (p : CallParticipant)
    → get_participant_by_target db c target ≡ ok p
    → IsRow db p
unfolding get_participant_by_target
target-IsRow db c target p h = elim (Result-cases (normalize_target target)) [
  | inr (e, bad) ↦ absurd (ground arith)
  | inl (t, fine) ↦ target_row-IsRow db c t t.principal_type p (rw fine at h)
]

-- Where ids are keys, the row of the id is the row that was read.
pub seats-IsRow :
    (db : Db) (p : CallParticipant)
    → IsRow db p
    → Keyed row_key db.participants
    → seats_host p.id db.participants ≡ (is_host p.role && not (is_waiting p.status))
unfolding seats_host
seats-IsRow db p (q, e) k = ap sits (find-own row_key q p db.participants k e)
