-- ===== src/Dashboard/Finish.antt =====
-- packages/dashboard/src/run-manager.ts: what the end of the process makes of its run.
use repayd.Common.{
  ℕ, ◌++◌, ◌==◌, not, String, Option, none, some, if◌then◌else◌, str_eq, codes, digits, Chars,
}
use repayd.Coverage.Assoc.{get}
use repayd.Coverage.Schema.{Parse, fail, ok}
use repayd.Demo.Bus.{complete}
use repayd.Dashboard.Run.{Run, completed, failed, is_running, RunResult, safe_integer}
use repayd.Dashboard.Logs.{last_error}
use repayd.Dashboard.Verified.{assert_result}
use repayd.Dashboard.Manager.{RunManager, Child, persist, put, save_manifest, is_id, fail_run}

-- the result that ends a run, or the message that the end throws
pub data Ending : Type 0 where
  thrown : Chars → Ending
  verified : RunResult → Ending

abbrev pub asserted : RunResult → Parse Unit → Ending
asserted r (fail e) = thrown (codes e)
asserted r (ok _) = verified r

abbrev pub ending_of : Run → Option RunResult → Ending
ending_of run none =
    thrown (codes "Demo exited without a verified result. Exit code 0 alone is not completion.")
ending_of run (some r) = asserted r (assert_result run r)

abbrev pub exit_message : ℕ → Run → Chars
exit_message code run =
    codes "Demo process exited with code " ++ digits 10 code code ++ codes ". " ++ last_error run

abbrev pub ending_after : Option Chars → ℕ → Run → Ending
ending_after (some e) code run = thrown e
ending_after none code run =
    if not (code == 0) then thrown (exit_message code run) else ending_of run run.result

unfoldable pub completed_run : ℕ → RunResult → Run → Run
completed_run now r run = record run {
  status = completed;
  phase = complete;
  progress = 100;
  ended_at = some now;
  updated_at = now;
  end_block = safe_integer r.end_block;
}

-- the finally block, for a run that is over
abbrev pub release : String → RunManager → RunManager
release id m = record m {
  child = none;
  active_run_id = if is_id id m.active_run_id then none else m.active_run_id;
}

abbrev pub finish : ℕ → Run → RunManager → Ending → RunManager
finish now run m (thrown e) = fail_run now e failed run.id (record m { child = none })
finish now run m (verified r) =
    let done = completed_run now r run in
    let saved = save_manifest (persist done (put done (record m { active_run_id = none }))) in
    record saved { child = none }

abbrev pub exited_found : ℕ → ℕ → Child → RunManager → Option Run → RunManager
exited_found now code c m none = m
exited_found now code c m (some run) =
    if not (is_running run.status)
    then release run.id m
    else finish now run m (ending_after c.stream_failure code run)

abbrev pub exited_child : ℕ → ℕ → Option Child → RunManager → RunManager
exited_child now code none m = m
exited_child now code (some c) m = exited_found now code c m (get str_eq m.runs c.run_id)

-- both streams are read and the process has exited: the rest of execute
unfoldable pub exited : ℕ → ℕ → RunManager → RunManager
unfolding get
exited now code m = exited_child now code m.child m
