-- ===== src/Dashboard/Manager.antt =====
-- packages/dashboard/src/run-manager.ts: the manager, its operations and what it does with its
-- process.
use repayd.Common.{
  is_some, ℕ, ◌+◌, String, Bool, true, false, ◌&&◌, ◌||◌, not, Option, none, some, List, [], ◌∷◌,
  ◌++◌, if◌then◌else◌, str_eq, codes, length, digits, pad_start, Chars,
}
use repayd.Coverage.Assoc.{get, set}
use repayd.Demo.Bus.{preflight}
use repayd.Dashboard.Run.{
  Run, RunStatus, running, interrupted, is_running, arc_chain_id, progress_of,
}
use repayd.Dashboard.Logs.{redact}

pub record Manifest : Type 0 where
  pub version : ℕ
  pub selected_run_id : Option String
  pub ids : List String

-- the process of a run, the streams that are still read, and the first failure of one
pub record Child : Type 0 where
  pub run_id : String
  pub stdout_open : Bool
  pub stderr_open : Bool
  pub stream_failure : Option Chars

-- the state of the manager, and its files: one for each run, and the manifest
pub record RunManager : Type 0 where
  pub runs : List (String × Run)
  pub ids : List String
  pub selected_run_id : Option String
  pub active_run_id : Option String
  pub child : Option Child
  pub closed : Bool
  pub secrets : List Chars
  pub saved : List (String × Run)
  pub manifest : Option Manifest

abbrev pub persist : Run → RunManager → RunManager
persist run m = record m { saved = set str_eq m.saved run.id run }

-- the run object is shared: what changes it changes the map
abbrev pub put : Run → RunManager → RunManager
put run m = record m { runs = set str_eq m.runs run.id run }

abbrev pub save_manifest : RunManager → RunManager
save_manifest m = record m {
  manifest = some (record { version = 1; selected_run_id = m.selected_run_id; ids = m.ids });
}

abbrev pub is_id : String → Option String → Bool
is_id id none = false
is_id id (some other) = str_eq other id

abbrev pub run_label : ℕ → Chars
run_label n = codes "Run " ++ pad_start 2 (digits 10 n n)

unfoldable pub new_run : ℕ → String → ℕ → Run
new_run now id count = record {
  id = id;
  label = run_label (count + 1);
  chain_id = arc_chain_id;
  status = running;
  phase = preflight;
  started_at = now;
  updated_at = now;
  heartbeat_at = now;
  ended_at = none;
  progress = progress_of preflight;
  events = [];
  transactions = [];
  log_tail = [];
  deployment = none;
  guard = none;
  start_block = none;
  end_block = none;
  result = none;
  error = none;
}

abbrev pub new_child : String → Child
new_child id = record { run_id = id; stdout_open = true; stderr_open = true; stream_failure = none }

-- what a caller of start or reset gets: a RunError by its status, or the next state
pub data Answer : Type 0 where
  refused : ℕ → Answer
  accepted : RunManager → Answer

abbrev pub opened_manager : ℕ → String → Bool → RunManager → RunManager
opened_manager now id spawned m =
    let run = new_run now id (length m.ids) in
    let opened = save_manifest (
      persist run (
        put run
          (record m { ids = id ∷ m.ids; active_run_id = some id; selected_run_id = some id }))) in
    record opened { child = if spawned then some (new_child id) else none }

-- start, with the time, the id that is drawn, and whether the process could be spawned
unfoldable pub start : ℕ → String → Bool → RunManager → Answer
start now id spawned m =
    if m.closed
    then refused 503
    else if is_some m.active_run_id || is_some m.child
    then refused 409
    else accepted (opened_manager now id spawned m)

unfoldable pub reset : RunManager → Answer
reset m =
    if is_some m.active_run_id || is_some m.child
    then refused 409
    else accepted (save_manifest (record m { selected_run_id = none }))

unfoldable pub failed_run : ℕ → Chars → RunStatus → Run → Run
failed_run now error status run = record run {
  status = status;
  error = some error;
  ended_at = some now;
  updated_at = now;
}

abbrev pub fail_found : ℕ → Chars → RunStatus → RunManager → Option Run → RunManager
fail_found now error status m none = m
fail_found now error status m (some run) =
    if not (is_running run.status)
    then m
    else let ended = failed_run now (redact m.secrets error) status run in
      save_manifest (
        persist ended (
          put ended (record m {
            active_run_id =
                if is_id run.id m.active_run_id && not (is_some m.child)
                then none
                else m.active_run_id;
          })))

-- fail, on the run of an id
unfoldable pub fail_run : ℕ → Chars → RunStatus → String → RunManager → RunManager
unfolding get
fail_run now error status id m = fail_found now error status m (get str_eq m.runs id)

abbrev pub shutdown_message : Chars
shutdown_message =
    codes "Dashboard server stopped before verification finished. Start a fresh run to retry."

abbrev pub fail_active : ℕ → Chars → RunStatus → Option String → RunManager → RunManager
fail_active now error status none m = m
fail_active now error status (some id) m = fail_run now error status id m

-- close, up to the wait for the process
unfoldable pub close : ℕ → RunManager → RunManager
close now m =
    if m.closed
    then m
    else fail_active now shutdown_message interrupted m.active_run_id (record m { closed = true })
