-- ===== src/Dashboard/Streams.antt =====
-- packages/dashboard/src/run-manager.ts: what the manager does with the process of a run: its lines,
-- the failure of a stream, the heartbeat, the deadline and a spawn that throws.
use repayd.Common.{
  is_some, ℕ, Bool, false, not, Option, none, some, [], if◌then◌else◌, str_eq, codes, Chars,
}
use repayd.Coverage.Assoc.{get}
use repayd.Dashboard.Run.{Run, failed, is_running}
use repayd.Dashboard.Logs.{append_log}
use repayd.Dashboard.Markers.{Line, plain_line, Consumed, ignored, taken, threw, consume_marker}
use repayd.Dashboard.Manager.{Child, RunManager, fail_active, fail_run, persist, put}

-- streamFailure ??= error
abbrev pub or_first : Option Chars → Chars → Option Chars
or_first none e = some e
or_first (some first) e = some first

abbrev pub break_stdout : Chars → Child → Child
break_stdout e c = record c { stdout_open = false; stream_failure = or_first c.stream_failure e }

abbrev pub text_of : Line → Chars
text_of (plain_line line) = line
text_of _ = []

abbrev pub after_line : Line → Run → Child → RunManager → Consumed → RunManager
after_line line run c m ignored = put (append_log m.secrets (text_of line) run) m
after_line line run c m (taken next) = persist next (put next m)
after_line line run c m (threw next e) =
    put next (record m { child = some (break_stdout (codes e) c) })

abbrev pub stdout_found : ℕ → Line → Child → RunManager → Option Run → RunManager
stdout_found now line c m none = m
stdout_found now line c m (some run) =
    if not (is_running run.status) then m else after_line line run c m (consume_marker now line run)

abbrev pub stdout_child : ℕ → Line → Option Child → RunManager → RunManager
stdout_child now line none m = m
stdout_child now line (some c) m =
    if not c.stdout_open then m else stdout_found now line c m (get str_eq m.runs c.run_id)

-- a line on the standard output of the process
unfoldable pub read_stdout : ℕ → Line → RunManager → RunManager
unfolding get
read_stdout now line m = stdout_child now line m.child m

abbrev pub stderr_found : Chars → RunManager → Option Run → RunManager
stderr_found line m none = m
stderr_found line m (some run) =
    if not (is_running run.status) then m else put (append_log m.secrets line run) m

abbrev pub stderr_child : Chars → Option Child → RunManager → RunManager
stderr_child line none m = m
stderr_child line (some c) m =
    if not c.stderr_open then m else stderr_found line m (get str_eq m.runs c.run_id)

-- a line on its error output
unfoldable pub read_stderr : Chars → RunManager → RunManager
unfolding get
read_stderr line m = stderr_child line m.child m

abbrev pub break_stderr : Chars → Child → Child
break_stderr e c = record c { stderr_open = false; stream_failure = or_first c.stream_failure e }

abbrev pub broken_stream : Bool → Chars → RunManager → Option Child → RunManager
broken_stream out e m none = m
broken_stream out e m (some c) = record m {
  child = some (if out then break_stdout e c else break_stderr e c);
}

-- reading a stream fails: the output, or else the error output
unfoldable pub break_stream : Bool → Chars → RunManager → RunManager
break_stream out e m = broken_stream out e m m.child

unfoldable pub beaten : ℕ → Run → Run
beaten now run = record run { heartbeat_at = now }

abbrev pub beat_found : ℕ → RunManager → Option Run → RunManager
beat_found now m none = m
beat_found now m (some run) =
    if not (is_running run.status) then m else persist (beaten now run) (put (beaten now run) m)

abbrev pub beat_child : ℕ → Option Child → RunManager → RunManager
beat_child now none m = m
beat_child now (some c) m = beat_found now m (get str_eq m.runs c.run_id)

-- the interval, and the worker's message that it is ready
unfoldable pub heartbeat : ℕ → RunManager → RunManager
unfolding get
heartbeat now m = beat_child now m.child m

abbrev pub deadline_message : Chars
deadline_message =
    codes
      "The Arc run exceeded its execution deadline. Confirmed transactions are preserved; inspect Flow before starting a fresh run."

abbrev pub fail_child : ℕ → Chars → Option Child → RunManager → RunManager
fail_child now error none m = m
fail_child now error (some c) m = fail_run now error failed c.run_id m

unfoldable pub time_out : ℕ → RunManager → RunManager
time_out now m = fail_child now deadline_message m.child m

-- the throw of Bun.spawn, which reaches the run that start has opened
unfoldable pub spawn_failed : ℕ → Chars → RunManager → RunManager
spawn_failed now error m =
    if is_some m.child then m else fail_active now error failed m.active_run_id m
