-- ===== src/Dashboard/Restart.antt =====
-- packages/dashboard/src/run-manager.ts: once its process has exited, the manager takes the next
-- start.
use mathlib.Core.Path.{subst}
use repayd.Common.{
  ℕ, ◌≡◌, refl, sym, ◌∙◌, String, Bool, true, false, not, Option, none, some, List, str_eq,
  str_eq_self, Chars, if◌then◌else◌, arith,
}
use repayd.Coverage.Assoc.{get}
use repayd.Dashboard.Run.{Run, RunStatus, failed, is_running}
use repayd.Dashboard.Manager.{
  RunManager, Child, accepted, opened_manager, start, failed_run, fail_found, fail_run,
}
use repayd.Dashboard.Finish.{
  Ending, thrown, verified, ending_after, release, finish, exited_found, exited_child, exited,
}
use repayd.Dashboard.Steps.{Step, run_steps, empty_manager, DrawsNew}
use repayd.Dashboard.Changes.{Keyed}
use repayd.Dashboard.Single.{OwnedBy}
use repayd.Dashboard.Active.{run_steps-OwnedBy, empty_manager-OwnedBy}

-- a manager without an active run or a process, and as open as another
abbrev IsIdle : RunManager → RunManager → Type 0
IsIdle m n = (n.active_run_id ≡ none) × (n.child ≡ none) × (n.closed ≡ m.closed)

start-IsIdle :
    (now : ℕ) (id : String) (spawned : Bool) (m n : RunManager)
    → IsIdle m n
    → m.closed ≡ false
    → start now id spawned n ≡ accepted (opened_manager now id spawned n)
unfolding start
start-IsIdle now id spawned m n (a, c, e) open_now = rw (e ∙ open_now, a, c) refl

module _ (now : ℕ) (m : RunManager) (keyed : Keyed m.runs) (c : Child) (r : Run) where
  thrown-IsIdle :
      (error : Chars)
      → get str_eq m.runs r.id ≡ some r
      → is_running r.status ≡ true
      → m.active_run_id ≡ some r.id
      → IsIdle m (fail_run now error failed r.id (record m { child = none }))
  unfolding fail_run failed_run
  thrown-IsIdle error h on active =
      subst
        (λ (o : Option Run). IsIdle m (fail_found now error failed (record m { child = none }) o))
        (sym h) at_run
    where
      at_run : IsIdle m (fail_found now error failed (record m { child = none }) (some r))
      at_run = rw (on, active, str_eq_self r.id) (refl, refl, refl)

  finish-IsIdle :
      (e : Ending)
      → get str_eq m.runs r.id ≡ some r
      → is_running r.status ≡ true
      → m.active_run_id ≡ some r.id
      → IsIdle m (finish now r m e)
  finish-IsIdle (thrown x) h on active = thrown-IsIdle x h on active
  finish-IsIdle (verified result) h on active = (refl, refl, refl)

  release-IsIdle : m.active_run_id ≡ some r.id → IsIdle m (release r.id m)
  release-IsIdle active = rw (active, str_eq_self r.id) (refl, refl, refl)

exited-IsIdle :
    (now code : ℕ) (m : RunManager) (c : Child)
    → Keyed m.runs
    → OwnedBy m
    → m.child ≡ some c
    → IsIdle m (exited now code m)
unfolding exited
exited-IsIdle now code m c keyed o is_child =
    subst (λ (x : Option Child). IsIdle m (exited_child now code x m)) (sym is_child)
      (go (o.active_known c.run_id (o.child_active c is_child)))
  where
    go :
        ((r : Run) × (get str_eq m.runs c.run_id ≡ some r)
          × (m.child ≡ none → is_running r.status ≡ true))
        → IsIdle m (exited_child now code (some c) m)
    go (r, h, _) =
        subst (λ (x : Option Run). IsIdle m (exited_found now code c m x)) (sym h)
          (branch (not (is_running r.status)) refl)
      where
        at_id : get str_eq m.runs r.id ≡ some r
        at_id = subst (λ (x : String). get str_eq m.runs x ≡ some r) (sym (keyed c.run_id r h)) h

        active : m.active_run_id ≡ some r.id
        active =
            subst (λ (x : String). m.active_run_id ≡ some x) (sym (keyed c.run_id r h))
              (o.child_active c is_child)

        on_of : (s : RunStatus) → not (is_running s) ≡ false → is_running s ≡ true
        on_of s e = ground arith

        branch :
            (b : Bool)
            → not (is_running r.status) ≡ b
            → IsIdle m (
                if b then release r.id m else finish now r m (ending_after c.stream_failure code r))
        branch true e = release-IsIdle now m keyed c r active
        branch false e =
            finish-IsIdle now m keyed c r (ending_after c.stream_failure code r) at_id
              (on_of r.status e) active

-- Whatever has happened since the manager had no history, once its process has exited, with whatever
-- code, start is accepted again, unless the manager has been closed.
pub start-exited :
    (steps : List Step) (secrets : List Chars) (now code later : ℕ) (id : String) (spawned : Bool)
    (c : Child)
    → DrawsNew steps (empty_manager secrets)
    → (run_steps steps (empty_manager secrets)).child ≡ some c
    → (run_steps steps (empty_manager secrets)).closed ≡ false
    → start later id spawned (exited now code (run_steps steps (empty_manager secrets)))
      ≡ accepted (
          opened_manager later id spawned
            (exited now code (run_steps steps (empty_manager secrets))))
start-exited steps secrets now code later id spawned c fresh has_child open_now =
    let (keyed0, o0) = empty_manager-OwnedBy secrets in
    let (keyed, o) = run_steps-OwnedBy steps (empty_manager secrets) keyed0 fresh o0 in
    start-IsIdle later id spawned (run_steps steps (empty_manager secrets)) _
      (exited-IsIdle now code (run_steps steps (empty_manager secrets)) c keyed o has_child)
      open_now
