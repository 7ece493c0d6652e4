-- ===== src/Dashboard/Terminal.antt =====
-- packages/dashboard/src/run-manager.ts: the phase of a run only advances, and a run that is over
-- stays as it is.
use repayd.Common.{◌≡◌, ◌≤◌, String, false, some, List, Chars, str_eq}
use repayd.Coverage.Assoc.{get}
use repayd.Dashboard.Run.{Run, is_running, index_of}
use repayd.Dashboard.Steps.{Step, run_steps, empty_manager, DrawsNew}
use repayd.Dashboard.History.{run_steps-history}
use repayd.Dashboard.Active.{run_steps-OwnedBy, empty_manager-OwnedBy}

-- Whatever steps come later, a run that the manager has is still there afterwards; its phase has not
-- gone back, and if it was over it is unchanged.
pub run_steps-run_steps :
    (steps later : List Step) (secrets : List Chars) (id : String) (r : Run)
    → DrawsNew steps (empty_manager secrets)
    → DrawsNew later (run_steps steps (empty_manager secrets))
    → get str_eq (run_steps steps (empty_manager secrets)).runs id ≡ some r
    → (s : Run) × (get str_eq (run_steps later (run_steps steps (empty_manager secrets))).runs id
        ≡ some s)
      × (index_of r.phase ≤ index_of s.phase)
      × (is_running r.status ≡ false → s ≡ r)
run_steps-run_steps steps later secrets id r fresh new h =
    let (keyed, o) = empty_manager-OwnedBy secrets in
    run_steps-history later (run_steps steps (empty_manager secrets)) id r
      (run_steps-OwnedBy steps (empty_manager secrets) keyed fresh o).0 new h
