-- ===== src/Calls/Actions.antt =====
-- How the operations of internal/service/call are put together: an action changes the state and returns a value
-- or an error, and what was written before an error stays written, unless a transaction rolls it back.
use aloqa_codex.Common.{Bool, true, false, ◌∷◌, Option, none, some}
use aloqa_codex.Cerrors.{GoError, Result, ok, err, map_err, wrap}
use aloqa_codex.Calls.Store.{Db, Action, Event, SfuCall, exec, enqueue_st, begin_st, commit_st}

module _ {A : Type 0} where
  unfoldable pub done : A → Action A
  done a db = (db, ok a)

  unfoldable pub lift : Result A → Action A
  lift r db = (db, r)

  abbrev on_error : (GoError → GoError) → Db × Result A → Db × Result A
  on_error f (db, r) = (db, map_err f r)

  -- `if err != nil { return f(err) }`
  unfoldable pub with_error : (GoError → GoError) → Action A → Action A
  with_error f step db = on_error f (step db)

  -- By whether the database refuses to commit.
  abbrev pub commit : Db → Db → A → Option GoError → Db × Result A
  commit db db' a none = (db', ok a)
  commit db db' a (some e) = (db, err (wrap "postgres: commit transaction" e))

  abbrev pub committed : Db → Db × Result A → Db × Result A
  committed db (db', ok a) = commit db db' a (db'.fault commit_st 0)
  committed db (db', err e) = (db, err e)

  abbrev pub begun : Db → Action A → Option GoError → Db × Result A
  begun db step none = committed db (step db)
  begun db step (some e) = (db, err (wrap "postgres: begin transaction" e))

  -- `WithinTx`: an error rolls back what the function wrote.
  unfoldable pub within_tx : Action A → Action A
  within_tx step db = begun db step (db.fault begin_st 0)

  unfoldable pub either : Bool → Action A → Action A → Action A
  either true m n = m
  either false m n = n

  abbrev pub recovered : Action A → Action A → Db × Result (Unit {0}) → Db × Result A
  recovered yes_ no_ (db, ok _) = yes_ db
  recovered yes_ no_ (db, err _) = no_ db

  -- `if err := step; err != nil { … } else { … }`, where the error is only logged.
  unfoldable pub recovering : Action (Unit {0}) → Action A → Action A → Action A
  recovering step succeeded failed db = recovered succeeded failed (step db)

-- An error is only logged.
unfoldable pub logged : {A : Type 0} → Action A → Action (Unit {0})
logged step db = ((step db).0, ok tt)

module _ {A B : Type 0} where
  abbrev pub continue : (A → Action B) → Db × Result A → Db × Result B
  continue rest (db, ok a) = rest a db
  continue rest (db, err e) = (db, err e)

  unfoldable pub bind : Action A → (A → Action B) → Action B
  bind first rest db = continue rest (first db)

  -- Goes on with a value that is read, or returns the error.
  unfoldable pub reading : (Db → Result A) → (A → Action B) → Action B
  reading read next db = continue next (db, read db)

  abbrev pub inspected : Action B → (A → Action B) → Db → Result A → Db × Result B
  inspected failed next db (ok a) = next a db
  inspected failed next db (err e) = failed db

  -- The same, where an error of the read is only logged.
  unfoldable pub inspecting : (Db → Result A) → Action B → (A → Action B) → Action B
  inspecting read failed next db = inspected failed next db (read db)

infixr 6 ◌⨾◌
abbrev pub ◌⨾◌ : {A : Type 0} → Action (Unit {0}) → Action A → Action A
first ⨾ rest = bind first (λ _. rest)

-- ---- effects

unfoldable pub calls_sfu : SfuCall → Action (Unit {0})
calls_sfu call db = (record db { sfu_calls = call ∷ db.sfu_calls }, ok tt)

-- `doPublish`: a failure to publish is only logged.
unfoldable pub do_publish : Event → Action (Unit {0})
do_publish event db = (record db { events = event ∷ db.events }, ok tt)

-- `EnqueueRealtime` of a transaction's scope: it inserts a row of `realtime_events`, which is published later, or
-- does nothing where the scope has no such repository.
unfoldable pub enqueue_realtime_tx : Bool → Event → Action (Unit {0})
enqueue_realtime_tx false event db = (db, ok tt)
enqueue_realtime_tx true event db =
    exec db enqueue_st event.workspace_id "postgres: enqueue realtime event"
      (record db { outbox = event ∷ db.outbox }, ok tt)
