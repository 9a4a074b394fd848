-- ===== src/Calls/RowWrites.antt =====
-- What the statements on participants, rooms and channels keep, in internal/repository/postgres.
use aloqa_codex.Common.{
  ℕ, String, Bool, true, false, not, ◌||◌, List, [], ◌∷◌, any, ◌≡◌, refl, inl, inr, arith,
  Bool-cases, ltb, subst, sym, ap,
}
use aloqa_codex.Domain.{Channel, ChannelMember}
use aloqa_codex.Calls.Types.{
  CallParticipant, ParticipantStatus, CallRole, BreakoutRoom, is_host, is_waiting,
}
use aloqa_codex.Calls.Store.{Db, Statement, Event, SfuCall, is_call, update_where}
use aloqa_codex.Calls.Participants.{
  is_participant, add_participant, add_participant_if_capacity, update_participant_status,
  update_participant_role, clashes, insert_participant, participant_row, has_principal,
  update_participant, count_where, is_present_in, update_participant_media,
  remove_participant_by_id, normalize_participant_principal,
}
use aloqa_codex.Calls.Rows.{Keyed, update-Keyed, delete-Keyed}
use aloqa_codex.Calls.Rooms.{
  create_breakout_room, close_breakout_room, close_all_by_call, assign_participant,
  unassign_participant, unassign_all_by_room, is_present_row, is_member_row,
}
use aloqa_codex.Calls.Starting.{create_channel, add_member}
use aloqa_codex.Calls.Actions.{do_publish, calls_sfu, enqueue_realtime_tx}
use aloqa_codex.Calls.Kept.{
  Cause, Kept, Kept-refl, status_of, row_key, seats_host, KeepsHosts-update, KeepsHosts-insert,
  KeepsHosts-delete,
}
use aloqa_codex.Calls.Writes.{
  exec_at, if_at, with_rows, rows-Kept, role_clash, update_settings-Kept, end-Kept,
  create_call-Kept,
}

-- ---- participants

any-clashes :
    (p : CallParticipant) (ps : List CallParticipant)
    → any (clashes p) ps ≡ false
    → any (is_participant p.id) ps ≡ false
any-clashes p [] h = refl
any-clashes p (q ∷ qs) h = ground (arith, any-clashes p qs)

insert_participant-Kept :
    {k : Cause} (message : String) (p : CallParticipant) (db : Db)
    → Kept k db (insert_participant message p db).0
insert_participant-Kept message p db =
    if_at (Kept _ db) (not (any (is_call p.call_id) db.calls) || not (has_principal p)) _ _
      (λ _. Kept-refl db)
      (λ _.
        if_at (Kept _ db) (any (clashes p) db.participants) _ _ (λ _. Kept-refl db)
          (λ fresh. record {
            calls = λ j. inl refl;
            keyed = λ k. (any-clashes p db.participants fresh, k);
            hosts = λ k. KeepsHosts-insert p db.participants (any-clashes p db.participants fresh);
          }))

pub add_participant-Kept :
    {k : Cause} (p : CallParticipant) (db : Db) → Kept k db (add_participant p db).0
unfolding add_participant
add_participant-Kept p db =
    exec_at (Kept _ db) db _ _ "postgres: add call participant" _ (Kept-refl db) (
      insert_participant-Kept "postgres: add call participant"
        (participant_row (normalize_participant_principal p)) db)

pub add_participant_if_capacity-Kept :
    {k : Cause} (p : CallParticipant) (capacity : ℕ) (db : Db)
    → Kept k db (add_participant_if_capacity p capacity db).0
unfolding add_participant_if_capacity
add_participant_if_capacity-Kept p capacity db = exec_at (Kept _ db) db _ _ _ _ (Kept-refl db) (
    if_at (Kept _ db) (ltb (count_where (is_present_in p.call_id) db.participants) capacity) _ _
      (λ _.
        insert_participant-Kept "postgres: add participant with capacity check"
          (participant_row (normalize_participant_principal p)) db)
      (λ _. Kept-refl db))

update_participant-Kept :
    {k : Cause} (st : Statement) (message : String) (id : ℕ) (f : CallParticipant → CallParticipant)
    (db : Db)
    → Kept k db (with_rows db (update_where (is_participant id) f db.participants))
    → Kept k db (update_participant st message id f db).0
update_participant-Kept st message id f db written = exec_at (Kept _ db) db _ _ _ _ (Kept-refl db) (
    if_at (Kept _ db) (any (is_participant id) db.participants) _ _ (λ _. written)
      (λ _. Kept-refl db))

pub update_participant_status-Kept :
    {k : Cause} (id : ℕ) (status : ParticipantStatus) (db : Db)
    → is_waiting status ≡ false
    → Kept k db (update_participant_status id status db).0
unfolding update_participant_status
update_participant_status-Kept id status db stays =
    update_participant-Kept _ _ id _ db (rows-Kept _ _ db (λ p. refl) (λ p h. ground arith))

pub update_participant_media-Kept :
    {k : Cause} (id : ℕ) (a v s : Bool) (db : Db)
    → Kept k db (update_participant_media id a v s db).0
unfolding update_participant_media
update_participant_media-Kept id a v s db =
    update_participant-Kept _ _ id _ db (rows-Kept _ _ db (λ p. refl) (λ p h. h))

-- A row's role is changed, or the row removed, only where it does not seat a host, or makes one.
pub update_participant_role-Kept :
    {k : Cause} (id : ℕ) (role : CallRole) (db : Db)
    → (Keyed row_key db.participants → is_host role ≡ false → seats_host id db.participants ≡ false)
    → Kept k db (update_participant_role id role db).0
unfolding update_participant_role seats_host
update_participant_role-Kept id role db free = update_participant-Kept _ _ id _ db record {
  calls = λ j. inl refl;
  keyed = λ k. update-Keyed row_key _ _ db.participants (λ p. refl) k;
  hosts = λ k.
      KeepsHosts-update _ _ db.participants (λ p. refl)
        λ j p e hit h. elim (Bool-cases (is_host role)) [
          | inl host_role ↦ ground arith
          | inr other ↦ absurd (role_clash id j p db.participants e hit h (free k other))
        ];
}

pub remove_participant_by_id-Kept :
    {k : Cause} (id : ℕ) (db : Db)
    → (Keyed row_key db.participants → seats_host id db.participants ≡ false)
    → Kept k db (remove_participant_by_id id db).0
unfolding remove_participant_by_id
remove_participant_by_id-Kept id db free = exec_at (Kept _ db) db _ _ _ _ (Kept-refl db) (
    if_at (Kept _ db) (any (is_participant id) db.participants) _ _
      (λ _. record {
        calls = λ j. inl refl;
        keyed = λ k. delete-Keyed row_key _ db.participants k;
        hosts = λ k. KeepsHosts-delete id db.participants (free k);
      })
      (λ _. Kept-refl db))

-- ---- what leaves calls and participants alone, or touches only the room of a row

abbrev SameTables : Db → Db → Type 0
SameTables a b = (b.calls ≡ a.calls) × (b.participants ≡ a.participants)

same-Kept : {k : Cause} (a b : Db) → SameTables a b → Kept k a b
same-Kept a b (cs, ps) = record {
  calls = λ j. inl (ap (status_of j) (sym cs));
  keyed = λ k. subst (Keyed row_key) (sym ps) k;
  hosts = λ k j h. subst (λ t. seats_host j t ≡ true) (sym ps) h;
}

pub do_publish-Kept : {k : Cause} (e : Event) (db : Db) → Kept k db (do_publish e db).0
unfolding do_publish
do_publish-Kept e db = same-Kept db _ (refl, refl)

pub calls_sfu-Kept : {k : Cause} (c : SfuCall) (db : Db) → Kept k db (calls_sfu c db).0
unfolding calls_sfu
calls_sfu-Kept c db = same-Kept db _ (refl, refl)

pub enqueue_realtime_tx-Kept :
    {k : Cause} (has_realtime : Bool) (e : Event) (db : Db)
    → Kept k db (enqueue_realtime_tx has_realtime e db).0
unfolding enqueue_realtime_tx
enqueue_realtime_tx-Kept has_realtime e db = same-Kept db _ (ground arith, ground arith)

pub create_channel-Kept : {k : Cause} (ch : Channel) (db : Db) → Kept k db (create_channel ch db).0
unfolding create_channel
create_channel-Kept ch db =
    exec_at (Kept _ db) db _ _ _ _ (Kept-refl db) (same-Kept db _ (refl, refl))

pub add_member-Kept : {k : Cause} (m : ChannelMember) (db : Db) → Kept k db (add_member m db).0
unfolding add_member
add_member-Kept m db = exec_at (Kept _ db) db _ _ _ _ (Kept-refl db) (same-Kept db _ (refl, refl))

pub create_breakout_room-Kept :
    {k : Cause} (r : BreakoutRoom) (db : Db) → Kept k db (create_breakout_room r db).0
unfolding create_breakout_room
create_breakout_room-Kept r db = same-Kept db _ (ground arith, ground arith)

pub close_breakout_room-Kept :
    {k : Cause} (id now : ℕ) (db : Db) → Kept k db (close_breakout_room id now db).0
unfolding close_breakout_room
close_breakout_room-Kept id now db = same-Kept db _ (ground arith, ground arith)

pub close_all_by_call-Kept :
    {k : Cause} (id now : ℕ) (db : Db) → Kept k db (close_all_by_call id now db).0
unfolding close_all_by_call
close_all_by_call-Kept id now db = same-Kept db _ (ground arith, ground arith)

pub assign_participant-Kept :
    {k : Cause} (call_id user_id room_id : ℕ) (db : Db)
    → Kept k db (assign_participant call_id user_id room_id db).0
unfolding assign_participant
assign_participant-Kept call_id user_id room_id db = exec_at (Kept _ db) db _ _ _ _ (Kept-refl db) (
    if_at (Kept _ db) (any (is_present_row call_id user_id) db.participants) _ _
      (λ _. rows-Kept _ _ db (λ p. refl) (λ p h. h)) (λ _. Kept-refl db))

pub unassign_participant-Kept :
    {k : Cause} (call_id user_id : ℕ) (db : Db)
    → Kept k db (unassign_participant call_id user_id db).0
unfolding unassign_participant
unassign_participant-Kept call_id user_id db = exec_at (Kept _ db) db _ _ _ _ (Kept-refl db) (
    if_at (Kept _ db) (any (is_member_row call_id user_id) db.participants) _ _
      (λ _. rows-Kept _ _ db (λ p. refl) (λ p h. h)) (λ _. Kept-refl db))

pub unassign_all_by_room-Kept :
    {k : Cause} (room_id : ℕ) (db : Db) → Kept k db (unassign_all_by_room room_id db).0
unfolding unassign_all_by_room
unassign_all_by_room-Kept room_id db =
    exec_at (Kept _ db) db _ _ _ _ (Kept-refl db) (rows-Kept _ _ db (λ p. refl) (λ p h. h))

pub ruleset kept_writes = (
  update_settings-Kept, end-Kept, create_call-Kept, add_participant-Kept,
  add_participant_if_capacity-Kept, update_participant_status-Kept, update_participant_media-Kept,
  do_publish-Kept, calls_sfu-Kept, enqueue_realtime_tx-Kept, create_channel-Kept, add_member-Kept,
  create_breakout_room-Kept, close_breakout_room-Kept, close_all_by_call-Kept,
  assign_participant-Kept, unassign_participant-Kept, unassign_all_by_room-Kept,
)
