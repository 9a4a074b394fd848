-- ===== src/Calls/Blind.antt =====
-- Steps of internal/service/call that neither read nor write the published events and the outbox.
use aloqa_codex.Common.{ℕ, Bool, true, false, List, [], ◌∷◌, ◌≡◌, refl, arith, ap, ◌∙◌}
use aloqa_codex.Cerrors.{Result, ok, err}
use aloqa_codex.Calls.Types.{BreakoutRoom}
use aloqa_codex.Calls.Store.{Db, Action, Event, SfuCall, close_room, main_room}
use aloqa_codex.Calls.Rooms.{list_by_call, close_all_by_call}
use aloqa_codex.Calls.Actions.{done, either, logged, bind, continue, reading, calls_sfu}
use aloqa_codex.Calls.Leaving.{
  close_sfu_room, close_sfu_rooms, close_all_breakout_sfu_rooms, closes_media,
}

abbrev pub moved : List Event → List Event → Db → Db
moved es os db = record db { events = es; outbox = os }

pub record Blind {A : Type 0} (m : Action A) : Type 0 where
  pub at : (es os : List Event) (db : Db) → m (moved es os db) ≡ (moved es os (m db).0, (m db).1)
  pub still : (db : Db) → ((m db).0.events ≡ db.events) × ((m db).0.outbox ≡ db.outbox)

module _ {A B : Type 0} (f : A → Action B) (kf : (a : A) → Blind (f a)) where
  pub continue-moved :
      (es os : List Event) (db : Db) (r : Result A)
      → continue f (moved es os db, r)
        ≡ (moved es os (continue f (db, r)).0, (continue f (db, r)).1)
  continue-moved es os db (ok a) = (kf a).at es os db
  continue-moved es os db (err e) = refl

  pub continue_still :
      (db : Db) (r : Result A)
      → ((continue f (db, r)).0.events ≡ db.events) × ((continue f (db, r)).0.outbox ≡ db.outbox)
  continue_still db (ok a) = (kf a).still db
  continue_still db (err e) = (refl, refl)

  pub Blind-bind : (m : Action A) → Blind m → Blind (bind m f)
  unfolding bind
  Blind-bind m km = record {
    at = λ es os db. ap (continue f) (km.at es os db) ∙ continue-moved es os (m db).0 (m db).1;
    still = λ db.
        let (events, outbox) = continue_still (m db).0 (m db).1 in
        let (events', outbox') = km.still db in (events ∙ events', outbox ∙ outbox');
  }

  pub Blind-reading :
      (read : Db → Result A)
      → ((es os : List Event) (db : Db) → read (moved es os db) ≡ read db)
      → Blind (reading read f)
  unfolding reading
  Blind-reading read same = record {
    at = λ es os db.
        ap (λ r. continue f (moved es os db, r)) (same es os db)
        ∙ continue-moved es os db (read db);
    still = λ db. continue_still db (read db);
  }

module _ {A : Type 0} where
  pub Blind-done : (a : A) → Blind (done a)
  unfolding done
  Blind-done a = record { at = λ es os db. refl; still = λ db. (refl, refl) }

  pub Blind-either : (b : Bool) (m n : Action A) → Blind m → Blind n → Blind (either b m n)
  unfolding either
  Blind-either true m n km kn = km
  Blind-either false m n km kn = kn

  pub Blind-logged : (m : Action A) → Blind m → Blind (logged m)
  unfolding logged
  Blind-logged m km = record {
    at = λ es os db. ap (λ o. (o.0, ok tt)) (km.at es os db);
    still = km.still;
  }

Blind-calls_sfu : (c : SfuCall) → Blind (calls_sfu c)
unfolding calls_sfu
Blind-calls_sfu c = record { at = λ es os db. refl; still = λ db. (refl, refl) }

Blind-close_all_by_call : (id now : ℕ) → Blind (close_all_by_call id now)
unfolding close_all_by_call
Blind-close_all_by_call id now = record {
  at = λ es os db. ground arith;
  still = λ db. (ground arith, ground arith);
}

Blind-close_sfu_rooms :
    (call_id : ℕ) (rooms : List BreakoutRoom) → Blind (close_sfu_rooms call_id rooms)
unfolding close_sfu_rooms
Blind-close_sfu_rooms call_id [] = Blind-done tt
Blind-close_sfu_rooms call_id (r ∷ rs) =
    Blind-bind _ (λ _. Blind-close_sfu_rooms call_id rs) (close_sfu_room call_id r)
      (Blind-either _ _ _ (Blind-calls_sfu _) (Blind-done tt))

-- Closing the media of a call.
pub Blind-closes_media : (call_id now : ℕ) → Blind (closes_media call_id now)
unfolding close_all_breakout_sfu_rooms list_by_call
Blind-closes_media call_id now =
    Blind-bind _ (λ _. Blind-calls_sfu (close_room (main_room call_id)))
      (close_all_breakout_sfu_rooms call_id now)
      (Blind-logged _ (
        Blind-reading _
          (λ rooms.
            Blind-bind _ (λ _. Blind-close_all_by_call call_id now) (close_sfu_rooms call_id rooms)
              (Blind-close_sfu_rooms call_id rooms))
          (λ db. list_by_call db call_id) (λ es os db. refl)))
