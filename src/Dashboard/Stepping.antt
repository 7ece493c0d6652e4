-- ===== src/Dashboard/Stepping.antt =====
-- packages/dashboard/src/run-manager.ts: the change that each step of the manager makes.
use mathlib.Core.Path.{subst}
use repayd.Common.{
  is_some, ℕ, ◌≡◌, refl, ap, String, Bool, true, false, not, ◌||◌, Option, none, some, str_eq,
  Chars, if◌then◌else◌, ◌==◌, inl, inr, arith, length,
}
use repayd.Coverage.Assoc.{get}
use repayd.Coverage.Schema.{Parse, fail, ok}
use repayd.Dashboard.Run.{Run, failed, interrupted, is_running, RunResult, is_run_id}
use repayd.Dashboard.Verified.{assert_result}
use repayd.Dashboard.Manager.{
  RunManager, Child, refused, accepted, new_run, start, reset, shutdown_message, close,
  opened_manager, save_manifest,
}
use repayd.Dashboard.Streams.{
  read_stdout, read_stderr, break_stream, heartbeat, deadline_message, fail_child, time_out,
  spawn_failed, broken_stream,
}
use repayd.Dashboard.Finish.{
  Ending, thrown, verified, asserted, ending_of, ending_after, exit_message, completed_run, finish,
  exited_found, exited_child, exited,
}
use repayd.Dashboard.Steps.{
  Step, starts, resets, closes, stdout, stderr, breaks, beats, expires, unspawned, exits, after,
  step, IsNew,
}
use repayd.Dashboard.Moves.{Move}
use repayd.Dashboard.Changes.{
  Changes, Keyed, at_own_id, beat-Changes, fail_active-Changes, fail_run-Changes, if-Changes,
  is_running_of, moved, opened, stderr-Changes, stdout-Changes, unchanged,
}

asserted-verified :
    (x result : RunResult) (p : Parse Unit)
    → asserted x p ≡ verified result
    → (x ≡ result) × (p ≡ ok tt)
asserted-verified x result (fail e) h = absurd (ground arith)
asserted-verified x result (ok u) h = (ground arith, refl)

ending_of-verified :
    (r : Run) (o : Option RunResult) (result : RunResult)
    → ending_of r o ≡ verified result
    → (o ≡ some result) × (assert_result r result ≡ ok tt)
ending_of-verified r none result h = absurd (ground arith)
ending_of-verified r (some x) result h =
    let (e, passed) = asserted-verified x result (assert_result r x) h in
    (ap (λ (y : RunResult). some y) e, subst (λ y. assert_result r y ≡ ok tt) e passed)

-- A run ends verified only when no stream failed, the process exited with 0, and its result passes.
pub ending_after-verified :
    (failure : Option Chars) (code : ℕ) (r : Run) (result : RunResult)
    → ending_after failure code r ≡ verified result
    → (failure ≡ none) × (code ≡ 0) × (r.result ≡ some result) × (assert_result r result ≡ ok tt)
ending_after-verified (some e) code r result h = absurd (ground arith)
ending_after-verified none code r result h = go (code == 0) refl h
  where
    go :
        (b : Bool)
        → (code == 0) ≡ b
        → (if not b then thrown (exit_message code r) else ending_of r r.result) ≡ verified result
        → ◌≡◌ {A = Option Chars} none none
          × (code ≡ 0)
          × (r.result ≡ some result)
          × (assert_result r result ≡ ok tt)
    go true e h =
        let (stored, passed) = ending_of-verified r r.result result h in
        (refl, ground arith, stored, passed)
    go false e h = absurd (ground arith)

module _ (now : ℕ) (m : RunManager) (keyed : Keyed m.runs) where
  finish-Changes :
      (r : Run) (e : Ending)
      → get str_eq m.runs r.id ≡ some r
      → is_running r.status ≡ true
      → ((result : RunResult)
          → e ≡ verified result
          → (r.result ≡ some result) × (assert_result r result ≡ ok tt))
      → Changes m (finish now r m e)
  unfolding completed_run
  finish-Changes r (thrown e) h on supported =
      fail_run-Changes now (record m { child = none }) keyed e failed r.id (inl refl)
  finish-Changes r (verified result) h on supported =
      let (stored, passed) = supported result refl in
      moved r (completed_run now result r) h (Move.completes now result on stored passed) refl
        (inl refl) refl (inr (_, refl, refl, refl))

  exited-Changes : (code : ℕ) (o : Option Child) → Changes m (exited_child now code o m)
  exited-Changes code none = unchanged refl refl refl (inl refl)
  exited-Changes code (some c) = go (get str_eq m.runs c.run_id) refl
    where
      go :
          (o : Option Run)
          → get str_eq m.runs c.run_id ≡ o
          → Changes m (exited_found now code c m o)
      go none h = unchanged refl refl refl (inl refl)
      go (some r) h =
          if-Changes m (not (is_running r.status)) _ _ (unchanged refl refl refl (inl refl))
            (λ open_now.
              finish-Changes r (ending_after c.stream_failure code r)
                (at_own_id m c.run_id r keyed h) (is_running_of r.status open_now)
                (λ result e.
                  let (_, _, stored, passed) =
                    ending_after-verified c.stream_failure code r result e in
                  (stored, passed)))

  start-Changes :
      (id : String) (spawned : Bool)
      → get str_eq m.runs id ≡ none
      → is_run_id id ≡ true
      → Changes m (after m (start now id spawned m))
  unfolding start new_run
  start-Changes id spawned fresh shaped = go m.closed (is_some m.active_run_id || is_some m.child)
    where
      go :
          (a b : Bool)
          → Changes m (
              after m (
                if a
                then refused 503
                else if b
                then refused 409
                else accepted (opened_manager now id spawned m)))
      go true b = unchanged refl refl refl (inl refl)
      go false true = unchanged refl refl refl (inl refl)
      go false false =
          opened now id (length m.ids) fresh shaped refl refl refl (_, refl, refl, refl)

reset-Changes : (m : RunManager) → Changes m (after m (reset m))
unfolding reset
reset-Changes m = go (is_some m.active_run_id || is_some m.child)
  where
    go :
        (b : Bool)
        → Changes m (
            after m (
              if b
              then refused 409
              else accepted (save_manifest (record m { selected_run_id = none }))))
    go true = unchanged refl refl refl (inl refl)
    go false = unchanged refl refl refl (inr (_, refl, refl, refl))

breaks-Changes : (out : Bool) (e : Chars) (m : RunManager) → Changes m (break_stream out e m)
unfolding break_stream
breaks-Changes out e m = go m.child
  where
    go : (o : Option Child) → Changes m (broken_stream out e m o)
    go none = unchanged refl refl refl (inl refl)
    go (some c) = unchanged refl refl refl (inl refl)

-- Any step changes the runs and the files in one of these ways.
pub step-Changes : (s : Step) (m : RunManager) → Keyed m.runs → IsNew s m → Changes m (step s m)
unfolding step close read_stdout read_stderr heartbeat time_out spawn_failed exited
step-Changes (starts now id spawned) m keyed (fresh, shaped) =
    start-Changes now m keyed id spawned fresh shaped
step-Changes resets m keyed fresh = reset-Changes m
step-Changes (closes now) m keyed fresh =
    if-Changes m m.closed m _ (unchanged refl refl refl (inl refl)) (λ _.
      fail_active-Changes now (record m { closed = true }) keyed shutdown_message interrupted
        m.active_run_id (inr refl))
step-Changes (stdout now line) m keyed fresh = stdout-Changes now m keyed line m.child
step-Changes (stderr line) m keyed fresh = stderr-Changes 0 m keyed line m.child
step-Changes (breaks out e) m keyed fresh = breaks-Changes out e m
step-Changes (beats now) m keyed fresh = beat-Changes now m keyed m.child
step-Changes (expires now) m keyed fresh = go m.child
  where
    go : (o : Option Child) → Changes m (fail_child now deadline_message o m)
    go none = unchanged refl refl refl (inl refl)
    go (some c) = fail_run-Changes now m keyed deadline_message failed c.run_id (inl refl)
step-Changes (unspawned now e) m keyed fresh =
    if-Changes m (is_some m.child) m _ (unchanged refl refl refl (inl refl))
      (λ _. fail_active-Changes now m keyed e failed m.active_run_id (inl refl))
step-Changes (exits now code) m keyed fresh = exited-Changes now m keyed code m.child
