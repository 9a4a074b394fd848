-- ===== src/Calls/Runs.antt =====
-- Runs of internal/service/call: its operations in any order, each with its own answers of the collaborators, with
-- participants that the other services add, and a database that may refuse statements and take them again.
use aloqa_codex.Common.{ℕ, String, List, [], ◌∷◌, Option, true, ◌≡◌, inl, refl}
use aloqa_codex.Common.Int.{ℤ}
use aloqa_codex.Cerrors.{GoError}
use aloqa_codex.Calls.Types.{CallType, CallSettings, CallStatus, CallParticipant, CallRole}
use aloqa_codex.Calls.Store.{Db, Statement}
use aloqa_codex.Calls.Service.{Service}
use aloqa_codex.Calls.Targets.{ParticipantTarget}
use aloqa_codex.Calls.Starting.{NewIds, start_call, add_participant_with_optional_capacity}
use aloqa_codex.Calls.Joining.{join_call}
use aloqa_codex.Calls.Hosting.{
  admit_participant, admit_all, reject_participant, MediaPatch, update_media,
}
use aloqa_codex.Calls.Controls.{
  change_role, mute_participant, remove_participant, SettingsPatch, change_settings,
}
use aloqa_codex.Calls.Leaving.{leave_call, end_call}
use aloqa_codex.Calls.Breakout.{
  CreateBreakoutRoomInput, create_breakout_rooms, join_breakout_room, return_to_main_room,
  close_room_of_call, close_all_breakout_rooms, broadcast_to_breakout_rooms,
}
use aloqa_codex.Calls.Kept.{
  Cause, opening, answering, closing, idling, may_change, Kept, Kept-refl, row_key, KeepsHosts,
}
use aloqa_codex.Calls.Rows.{Keyed}
use aloqa_codex.Calls.Keepers
use aloqa_codex.Calls.Guarded.{join_call-Kept, admit_participant-Kept, admit_all-Kept}
use aloqa_codex.Calls.Moderation.{
  reject_participant-Kept, change_role-Kept, remove_participant-Kept,
}

pub data Step : Db → Db → Type 0 where
  starts :
      (db : Db) (uuid_text : ℕ → String) (s : Service) (ids : NewIds) (now w u : ℕ)
      (kind : CallType) (title : String) (channel_id : Option ℕ) (settings : CallSettings)
      → Step db (start_call uuid_text s ids now w u kind title channel_id settings db).0
  joins : (db : Db) (s : Service) (id now w c u : ℕ) → Step db (join_call s id now w c u db).0
  admits :
      (db : Db) (s : Service) (w c u : ℕ) (target : ParticipantTarget)
      → Step db (admit_participant s w c u target db).0
  admits_all : (db : Db) (s : Service) (w c u : ℕ) → Step db (admit_all s w c u db).0
  rejects :
      (db : Db) (s : Service) (w c u : ℕ) (target : ParticipantTarget)
      → Step db (reject_participant s w c u target db).0
  leaves : (db : Db) (s : Service) (now w c u : ℕ) → Step db (leave_call s now w c u db).0
  ends : (db : Db) (s : Service) (now w c u : ℕ) → Step db (end_call s now w c u db).0
  updates_media :
      (db : Db) (s : Service) (w c u : ℕ) (m : MediaPatch) → Step db (update_media s w c u m db).0
  changes_role :
      (db : Db) (s : Service) (w c u : ℕ) (target : ParticipantTarget) (role : CallRole)
      → Step db (change_role s w c u target role db).0
  mutes :
      (db : Db) (s : Service) (w c u : ℕ) (target : ParticipantTarget) (m : MediaPatch)
      → Step db (mute_participant s w c u target m db).0
  removes :
      (db : Db) (s : Service) (w c u : ℕ) (target : ParticipantTarget)
      → Step db (remove_participant s w c u target db).0
  changes_settings :
      (db : Db) (s : Service) (w c u : ℕ) (patch : SettingsPatch)
      → Step db (change_settings s w c u patch db).0
  creates_rooms :
      (db : Db) (s : Service) (new_id : ℕ → ℕ) (now c u : ℕ) (inputs : List CreateBreakoutRoomInput)
      → Step db (create_breakout_rooms s new_id now c u inputs db).0
  enters_room :
      (db : Db) (s : Service) (c u room : ℕ) → Step db (join_breakout_room s c u room db).0
  returns : (db : Db) (s : Service) (c u : ℕ) → Step db (return_to_main_room s c u db).0
  closes_room :
      (db : Db) (s : Service) (now c u room : ℕ) → Step db (close_room_of_call s now c u room db).0
  closes_rooms :
      (db : Db) (s : Service) (now c u : ℕ) → Step db (close_all_breakout_rooms s now c u db).0
  announces :
      (db : Db) (c u : ℕ) (message : String)
      → Step db (broadcast_to_breakout_rooms c u message db).0
  is_joined :
      (db : Db) (p : CallParticipant) (capacity : ℤ)
      → Step db (add_participant_with_optional_capacity p capacity db).0
  refuses :
      (db : Db) (fault : Statement → ℕ → Option GoError) → Step db (record db { fault = fault })

pub data Run (start : Db) : Db → Type 0 where
  here : Run start start
  next : {db db' : Db} → Run start db → Step db db' → Run start db'

-- What each operation is there for.
abbrev pub cause : {db db' : Db} → Step db db' → Cause
cause (starts _ _ _ _ _ _ _ _ _ _ _) = opening
cause (joins _ _ _ _ _ _ _) = answering
cause (admits _ _ _ _ _ _) = answering
cause (admits_all _ _ _ _ _) = answering
cause (leaves _ _ _ _ _ _) = closing
cause (ends _ _ _ _ _ _) = closing
cause (rejects _ _ _ _ _ _) = idling
cause (updates_media _ _ _ _ _ _) = idling
cause (changes_role _ _ _ _ _ _ _) = idling
cause (mutes _ _ _ _ _ _ _) = idling
cause (removes _ _ _ _ _ _) = idling
cause (changes_settings _ _ _ _ _ _) = idling
cause (creates_rooms _ _ _ _ _ _ _) = idling
cause (enters_room _ _ _ _ _) = idling
cause (returns _ _ _ _) = idling
cause (closes_room _ _ _ _ _ _) = idling
cause (closes_rooms _ _ _ _ _) = idling
cause (announces _ _ _ _) = idling
cause (is_joined _ _ _) = idling
cause (refuses _ _) = idling

-- The operations of a run, the last one first.
abbrev pub causes : {start db : Db} → Run start db → List Cause
causes here = []
causes (next run step) = cause step ∷ causes run

Step-Kept : {db db' : Db} (step : Step db db') → Kept (cause step) db db'
Step-Kept (starts db t s ids now w u kind title channel settings) =
    (Keepers.start_call-Keeps db t s ids now w u kind title channel settings).at db (Kept-refl db)
Step-Kept (joins db s id now w c u) = join_call-Kept s id now w c u db
Step-Kept (admits db s w c u t) = admit_participant-Kept s w c u t db
Step-Kept (admits_all db s w c u) = admit_all-Kept s w c u db
Step-Kept (rejects db s w c u t) = reject_participant-Kept s w c u t db
Step-Kept (leaves db s now w c u) = (Keepers.leave_call-Keeps db s now w c u).at db (Kept-refl db)
Step-Kept (ends db s now w c u) = (Keepers.end_call-Keeps db s now w c u).at db (Kept-refl db)
Step-Kept (updates_media db s w c u m) =
    (Keepers.update_media-Keeps db s w c u m).at db (Kept-refl db)
Step-Kept (changes_role db s w c u t role) = change_role-Kept s w c u t role db
Step-Kept (mutes db s w c u t m) =
    (Keepers.mute_participant-Keeps db s w c u t m).at db (Kept-refl db)
Step-Kept (removes db s w c u t) = remove_participant-Kept s w c u t db
Step-Kept (changes_settings db s w c u patch) =
    (Keepers.change_settings-Keeps db s w c u patch).at db (Kept-refl db)
Step-Kept (creates_rooms db s new_id now c u inputs) =
    (Keepers.create_breakout_rooms-Keeps db s new_id now c u inputs).at db (Kept-refl db)
Step-Kept (enters_room db s c u room) =
    (Keepers.join_breakout_room-Keeps db s c u room).at db (Kept-refl db)
Step-Kept (returns db s c u) = (Keepers.return_to_main_room-Keeps db s c u).at db (Kept-refl db)
Step-Kept (closes_room db s now c u room) =
    (Keepers.close_room_of_call-Keeps db s now c u room).at db (Kept-refl db)
Step-Kept (closes_rooms db s now c u) =
    (Keepers.close_all_breakout_rooms-Keeps db s now c u).at db (Kept-refl db)
Step-Kept (announces db c u message) =
    (Keepers.broadcast_to_breakout_rooms-Keeps db c u message).at db (Kept-refl db)
Step-Kept (is_joined db p capacity) =
    (Keepers.add_participant_with_optional_capacity-Keeps db p capacity).at db (Kept-refl db)
Step-Kept (refuses db fault) = record {
  calls = λ id. inl refl;
  keyed = λ k. k;
  hosts = λ k id h. h;
}

-- ---- the life of a call

-- What may become of a call under operations of these kinds, the last one first: each leaves its status alone,
-- or makes the one change that it is there for.
pub data Life (from : Option CallStatus) : List Cause → Option CallStatus → Type 0 where
  begins : Life from [] from
  stays :
      {k : Cause} {ks : List Cause} {a : Option CallStatus} → Life from ks a → Life from (k ∷ ks) a
  changes :
      {k : Cause} {ks : List Cause} {a b : Option CallStatus}
      → Life from ks a
      → may_change k a b ≡ true
      → Life from (k ∷ ks) b

-- However the operations follow one another, each whole, and whatever statements the database refuses in between:
-- ids stay keys of the table of participants, and a row with the role of host whose status is not waiting stays
-- such a row, so that no one removes a host from a call or takes the role away.
pub Run-KeepsHosts :
    {start db : Db}
    → Run start db
    → Keyed row_key start.participants
    → Keyed row_key db.participants × KeepsHosts start.participants db.participants
Run-KeepsHosts here k = (k, λ id h. h)
Run-KeepsHosts (next run step) k =
    let (keyed, hosts) = Run-KeepsHosts run k in
    let kept = Step-Kept step in (kept.keyed keyed, λ id h. kept.hosts keyed id (hosts id h))
