-- ===== src/Calls/Closing.antt =====
-- What the end of a call writes, and what closing its media leaves alone, in internal/service/call/service.go.
use aloqa_codex.Common.{
  ℕ, true, false, List, [], ◌∷◌, some, ◌≡◌, ◌≢◌, refl, inl, inr, arith, nat_eqb, Option-cases,
}
use aloqa_codex.Cerrors.{ok, Result-cases}
use aloqa_codex.Calls.Types.{Call, CallStatus, ended, BreakoutRoom}
use aloqa_codex.Calls.Store.{
  Db, SfuCall, close_room, main_room, breakout_room, is_call, end, find_where, update_where,
}
use aloqa_codex.Calls.Rooms.{list_by_call, close_all_by_call}
use aloqa_codex.Calls.Actions.{done, either, logged, bind, reading, calls_sfu}
use aloqa_codex.Calls.Leaving.{close_sfu_rooms, close_all_breakout_sfu_rooms, closes_media}
use aloqa_codex.Calls.Rows.{find-update, find-has}
use aloqa_codex.Calls.Kept.{call_key, status_of}

-- ---- closing the media touches neither calls nor participants

abbrev pub SameRows : Db → Db → Type 0
SameRows a b =
    (b.calls ≡ a.calls)
    × (b.participants ≡ a.participants)
    × (b.events ≡ a.events)
    × (b.outbox ≡ a.outbox)

close_sfu_rooms_lem :
    (call_id : ℕ) (rooms : List BreakoutRoom) (db : Db)
    → SameRows db (close_sfu_rooms call_id rooms db).0
      × ((close_sfu_rooms call_id rooms db).1 ≡ ok tt)
unfolding close_sfu_rooms bind either calls_sfu done
close_sfu_rooms_lem call_id [] db = ((refl, refl, refl, refl), refl)
close_sfu_rooms_lem call_id (r ∷ rs) db = ground (
  arith,
  close_sfu_rooms_lem call_id rs db,
  close_sfu_rooms_lem call_id rs (calls_sfu (close_room (breakout_room call_id r.id)) db).0,
)

close_all_breakout_sfu_rooms_lem :
    (call_id now : ℕ) (db : Db) → SameRows db (close_all_breakout_sfu_rooms call_id now db).0
unfolding close_all_breakout_sfu_rooms bind reading logged close_all_by_call
close_all_breakout_sfu_rooms_lem call_id now db = elim (Result-cases (list_by_call db call_id)) [
  | inr (e, bad) ↦ rw bad (refl, refl, refl, refl)
  | inl (rooms, read) ↦ rw read (ground (arith, close_sfu_rooms_lem call_id rooms db))
]

pub closes_media_lem :
    (call_id now : ℕ) (db : Db)
    → SameRows db (closes_media call_id now db).0
      × ((closes_media call_id now db).1 ≡ ok tt)
      × ((before : List SfuCall) × ((closes_media call_id now db).0.sfu_calls
            ≡ close_room (main_room call_id) ∷ before))
unfolding bind logged close_all_breakout_sfu_rooms calls_sfu
closes_media_lem call_id now db = (close_all_breakout_sfu_rooms_lem call_id now db, refl, (_, refl))

-- ---- the status of a call, and that of every other

abbrev pub StatusOnly : ℕ → CallStatus → Db → Db → Type 0
StatusOnly id status a b =
    (status_of id b.calls ≡ some status)
    × ((other : ℕ) → other ≢ id → status_of other b.calls ≡ status_of other a.calls)

abbrev ending : ℕ → Call → Call
ending now c = record c { status = ended; ended_at = some now }

ending_lem :
    (id now : ℕ) (call : Call) (cs : List Call)
    → find_where (is_call id) cs ≡ some call
    → (status_of id (update_where (is_call id) (ending now) cs) ≡ some ended)
      × ((other : ℕ)
          → other ≢ id
          → status_of other (update_where (is_call id) (ending now) cs) ≡ status_of other cs)
unfolding status_of
ending_lem id now call cs e =
    let own : nat_eqb call.id id ≡ true = find-has call_key (is_call id) call cs e in
    (
      rw (find-update call_key (is_call id) (ending now) id cs (λ c. refl), e, own) refl,
      λ other apart. elim (Option-cases (find_where (is_call other) cs)) [
        | inl gone ↦
            rw (find-update call_key (is_call id) (ending now) other cs (λ c. refl), gone) refl
        | inr (c, f) ↦
            let its : nat_eqb c.id other ≡ true = find-has call_key (is_call other) c cs f in
            let not_it : nat_eqb c.id id ≡ false = ground (arith, apart) in
            rw (find-update call_key (is_call id) (ending now) other cs (λ c. refl), f, not_it) refl
      ],
    )

pub end_lem :
    (id now : ℕ) (call : Call) (db : Db)
    → find_where (is_call id) db.calls ≡ some call
    → (end id now db).1 ≡ ok tt
    → StatusOnly id ended db (end id now db).0 × ((end id now db).0.participants ≡ db.participants)
unfolding end
end_lem id now call db e h =
    let (its, others) = ending_lem id now call db.calls e in (ground arith, ground arith)
