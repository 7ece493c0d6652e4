-- ===== src/Dashboard/Steps.antt =====
-- packages/dashboard/src/run-manager.ts: the manager as a machine, whose steps are the calls of the
-- server and what its process and timers do, in any order.
use repayd.Common.{ℕ, ◌≡◌, String, Bool, true, false, none, List, [], ◌∷◌, str_eq, Chars}
use repayd.Coverage.Assoc.{get}
use repayd.Dashboard.Run.{is_run_id}
use repayd.Dashboard.Markers.{Line}
use repayd.Dashboard.Manager.{RunManager, Answer, refused, accepted, start, reset, close}
use repayd.Dashboard.Streams.{
  read_stdout, read_stderr, break_stream, heartbeat, time_out, spawn_failed,
}
use repayd.Dashboard.Finish.{exited}

pub data Step : Type 0 where
  starts : ℕ → String → Bool → Step
  resets : Step
  closes : ℕ → Step
  stdout : ℕ → Line → Step
  stderr : Chars → Step
  breaks : Bool → Chars → Step
  beats : ℕ → Step
  expires : ℕ → Step
  unspawned : ℕ → Chars → Step
  exits : ℕ → ℕ → Step

-- a call that is refused changes nothing
abbrev pub after : RunManager → Answer → RunManager
after m (refused status) = m
after m (accepted next) = next

unfoldable pub step : Step → RunManager → RunManager
unfolding start reset close read_stdout read_stderr break_stream heartbeat time_out spawn_failed
    exited
step (starts now id spawned) m = after m (start now id spawned m)
step resets m = after m (reset m)
step (closes now) m = close now m
step (stdout now line) m = read_stdout now line m
step (stderr line) m = read_stderr line m
step (breaks out e) m = break_stream out e m
step (beats now) m = heartbeat now m
step (expires now) m = time_out now m
step (unspawned now e) m = spawn_failed now e m
step (exits now code) m = exited now code m

unfoldable pub run_steps : List Step → RunManager → RunManager
unfolding step
run_steps [] m = m
run_steps (s ∷ ss) m = run_steps ss (step s m)

-- a manager without history or files
abbrev pub empty_manager : List Chars → RunManager
empty_manager secrets = record {
  runs = [];
  ids = [];
  selected_run_id = none;
  active_run_id = none;
  child = none;
  closed = false;
  secrets = secrets;
  saved = [];
  manifest = none;
}

-- what start draws is a UUID that no run of the manager has
abbrev pub IsNew : Step → RunManager → Type 0
IsNew (starts now id spawned) m = (get str_eq m.runs id ≡ none) × (is_run_id id ≡ true)
IsNew _ m = Unit

abbrev pub DrawsNew : List Step → RunManager → Type 0
DrawsNew [] m = Unit
DrawsNew (s ∷ ss) m = IsNew s m × DrawsNew ss (step s m)
