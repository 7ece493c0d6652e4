-- ===== src/Dashboard/Restore.antt =====
-- packages/dashboard/src/run-manager.ts: restore, which reads the files of an earlier manager, and
-- state, which shows the runs.
use Prim.Native.String.{◌++◌ as str_append}
use repayd.Common.{
  is_some, ℕ, String, Bool, false, not, Option, none, some, List, [], ◌∷◌, ◌++◌, ◌==◌,
  if◌then◌else◌, str_eq, codes, Chars,
}
use repayd.Coverage.Assoc.{get, set}
use repayd.Coverage.Schema.{Parse, fail, ok, ◌>>=◌, ◌>>◌, require}
use repayd.Demo.Bus.{RunPhase}
use repayd.Dashboard.Run.{Run, RunStatus, interrupted, is_running, present, is_run_id}
use repayd.Dashboard.Manager.{RunManager, Manifest, save_manifest}
use repayd.Dashboard.Steps.{empty_manager}

abbrev pub restart_message : Chars
restart_message =
    codes
      "The dashboard restarted before this run was verified. Confirmed transactions remain in Flow; start a fresh run to retry."

unfoldable pub interrupted_run : ℕ → Run → Run
interrupted_run now run = record run {
  status = interrupted;
  error = some restart_message;
  ended_at = some now;
  updated_at = now;
}

abbrev pub settled_run : ℕ → Run → Run
settled_run now run = if is_running run.status then interrupted_run now run else run

-- the run that is read joins the others; one that was running is written back
abbrev pub join_run : ℕ → String → Run → RunManager → RunManager
join_run now id run m =
    let next = settled_run now run in
    let stored = if is_running run.status then set str_eq m.saved id next else m.saved in
    record m { ids = m.ids ++ (id ∷ []); runs = set str_eq m.runs id next; saved = stored }

abbrev pub restore_found : ℕ → String → Option Run → RunManager → Parse RunManager
restore_found now id none m = fail "ENOENT"
restore_found now id (some run) m =
    if not (str_eq run.id id)
    then fail (str_append "Corrupt history for run " (str_append id "."))
    else ok (join_run now id run m)

-- the loop over the ids
unfoldable pub restore_ids : ℕ → List String → RunManager → Parse RunManager
unfolding get is_run_id interrupted_run
restore_ids now [] m = ok m
restore_ids now (id ∷ ids) m = do
  require (is_run_id id) "Invalid run ID in stored demo history."
  next ← restore_found now id (get str_eq m.saved id) m
  restore_ids now ids next

abbrev pub selection : Option String → RunManager → Option String
selection none m = none
selection (some id) m = if is_some (get str_eq m.runs id) then some id else none

abbrev pub restore_manifest : ℕ → Option Manifest → RunManager → Parse RunManager
restore_manifest now none m = ok m
restore_manifest now (some state) m = do
  require (state.version == 1)
      "Unsupported demo history format; existing history was not overwritten."
  next ← restore_ids now state.ids m
  ok (
      save_manifest
        (record next { selected_run_id = selection (present state.selected_run_id) next }))

-- the manager that a new process makes of the files
unfoldable pub restore : ℕ → List Chars → List (String × Run) → Option Manifest → Parse RunManager
unfolding restore_ids get
restore now secrets saved manifest =
    restore_manifest now manifest
      (record (empty_manager secrets) { saved = saved; manifest = manifest })

pub record RunSummary : Type 0 where
  pub id : String
  pub label : Chars
  pub chain_id : ℕ
  pub status : RunStatus
  pub phase : RunPhase
  pub started_at : ℕ
  pub ended_at : Option ℕ
  pub error : Option Chars
  pub guard : Option String

abbrev pub summary : Run → RunSummary
summary run = record {
  id = run.id;
  label = run.label;
  chain_id = run.chain_id;
  status = run.status;
  phase = run.phase;
  started_at = run.started_at;
  ended_at = run.ended_at;
  error = run.error;
  guard = run.guard;
}

-- the part of DemoState that is not constant
pub record DemoState : Type 0 where
  pub active_run_id : Option String
  pub selected_run_id : Option String
  pub run : Option Run
  pub runs : List RunSummary

-- the RunError by its status, the TypeError of a missing run, or the state
pub data Shown : Type 0 where
  not_found : ℕ → Shown
  type_error : Shown
  shown : DemoState → Shown

abbrev pub cons_summary : Option Run → Option (List RunSummary) → Option (List RunSummary)
cons_summary (some run) (some rest) = some (summary run ∷ rest)
cons_summary _ _ = none

unfoldable pub summaries : List (String × Run) → List String → Option (List RunSummary)
unfolding get
summaries runs [] = some []
summaries runs (id ∷ ids) = cons_summary (get str_eq runs id) (summaries runs ids)

-- a ?? b
abbrev pub or_else : Option String → Option String → Option String
or_else none b = b
or_else (some a) b = some a

abbrev pub found_run : Option String → List (String × Run) → Option Run
found_run none runs = none
found_run (some id) runs = get str_eq runs id

abbrev pub show_with : Option String → RunManager → Option (List RunSummary) → Shown
show_with selected m none = type_error
show_with selected m (some runs) = shown (record {
  active_run_id = m.active_run_id;
  selected_run_id = selected;
  run = found_run (present selected) m.runs;
  runs = runs;
})

abbrev pub is_unknown : Option String → List (String × Run) → Bool
is_unknown none runs = false
is_unknown (some id) runs = not (is_some (get str_eq runs id))

unfoldable pub state : Option String → RunManager → Shown
unfolding summaries get
state id m =
    if is_unknown (present id) m.runs
    then not_found 404
    else show_with (or_else id (or_else m.active_run_id m.selected_run_id)) m
        (summaries m.runs m.ids)
