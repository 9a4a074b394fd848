-- ===== src/Calls/Targets.antt =====
-- Whom an operation of internal/service/call/service.go is about: a user or a guest's session.
use aloqa_codex.Common.{ℕ, Bool, not, ◌&&◌, if◌then◌else◌, nat_eqb}
use aloqa_codex.Cerrors.{GoError, Result, ok, err, ◌>>=◌, new_invalid_input}
use aloqa_codex.Calls.Types.{CallParticipant, PrincipalType, unset, user_principal, guest_principal}
use aloqa_codex.Calls.Store.{Db}
use aloqa_codex.Calls.Participants.{get_participant, get_guest_participant}

-- ---- targets

pub record ParticipantTarget : Type 0 where
  pub principal_type : PrincipalType
  pub user_id : ℕ
  pub guest_session_id : ℕ

abbrev user_only : ParticipantTarget → Bool
user_only t = not (nat_eqb t.user_id 0) && nat_eqb t.guest_session_id 0

abbrev guest_only : ParticipantTarget → Bool
guest_only t = not (nat_eqb t.guest_session_id 0) && nat_eqb t.user_id 0

-- The second `switch` of `normalize`.
abbrev checked_target : ParticipantTarget → PrincipalType → Result ParticipantTarget
checked_target t user_principal =
    if user_only t
    then ok (record t { principal_type = user_principal })
    else err (new_invalid_input "user participant target requires only user_id")
checked_target t guest_principal =
    if guest_only t
    then ok (record t { principal_type = guest_principal })
    else err (new_invalid_input "guest participant target requires only guest_session_id")
checked_target t _ = err (new_invalid_input "invalid participant target type")

abbrev one_principal : GoError
one_principal =
    new_invalid_input "participant target must include exactly one user_id or guest_session_id"

abbrev normal_by_kind : ParticipantTarget → PrincipalType → Result ParticipantTarget
normal_by_kind t unset =
    if user_only t
    then checked_target t user_principal
    else if guest_only t
    then checked_target t guest_principal
    else err one_principal
normal_by_kind t kind = checked_target t kind

unfoldable pub normalize_target : ParticipantTarget → Result ParticipantTarget
normalize_target t = normal_by_kind t t.principal_type

abbrev pub target_row : Db → ℕ → ParticipantTarget → PrincipalType → Result CallParticipant
target_row db call_id t user_principal = get_participant db call_id t.user_id
target_row db call_id t guest_principal = get_guest_participant db call_id t.guest_session_id
target_row db call_id t _ = err (new_invalid_input "invalid participant target type")

unfoldable pub get_participant_by_target : Db → ℕ → ParticipantTarget → Result CallParticipant
unfolding normalize_target
get_participant_by_target db call_id target =
    normalize_target target >>= λ t. target_row db call_id t t.principal_type
