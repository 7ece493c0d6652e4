-- ===== src/Dashboard/Active.antt =====
-- packages/dashboard/src/run-manager.ts: at any time one run at most is running, and it is the active
-- one.
use mathlib.Core.Path.{subst}
use mathlib.Core.Option.{some-injective}
use repayd.Common.{
  is_some, ℕ, ◌≡◌, refl, sym, ap, String, Bool, true, false, not, ◌||◌, Option, none, some, List,
  [], ◌∷◌, str_eq, Chars, if◌then◌else◌, inl, inr, arith, length,
}
use repayd.Coverage.Assoc.{get, set}
use repayd.Dashboard.Run.{Run, failed, interrupted, is_running}
use repayd.Dashboard.Manager.{
  RunManager, Child, refused, accepted, new_run, new_child, opened_manager, start, save_manifest,
  reset, shutdown_message, close,
}
use repayd.Dashboard.Streams.{
  read_stdout, read_stderr, broken_stream, break_stream, break_stdout, break_stderr, heartbeat,
  deadline_message, fail_child, time_out, spawn_failed,
}
use repayd.Dashboard.Finish.{
  Ending, thrown, verified, ending_after, completed_run, release, finish, exited_found,
  exited_child, exited,
}
use repayd.Dashboard.Steps.{
  Step, starts, resets, closes, stdout, stderr, breaks, beats, expires, unspawned, exits, after,
  step, run_steps, empty_manager, DrawsNew,
}
use repayd.Dashboard.Changes.{Keyed}
use repayd.Dashboard.History.{step-Keyed}
use repayd.Dashboard.Ownership.{
  Owned, idle-Owned, open-Owned, orphan-Owned, release-Owned, none_running, child-Owned,
}
use repayd.Dashboard.Single.{
  OwnedBy, beat-OwnedBy, fail_active-OwnedBy, fail_run-OwnedBy, if-OwnedBy, off_of, on_of,
  stderr-OwnedBy, stdout-OwnedBy,
}

module _ (now : ℕ) (m : RunManager) (keyed : Keyed m.runs) where
  finish-OwnedBy :
      (c : Child) (r : Run) (e : Ending)
      → get str_eq m.runs c.run_id ≡ some r
      → is_running r.status ≡ true
      → m.child ≡ some c
      → OwnedBy m
      → OwnedBy (finish now r m e)
  unfolding completed_run
  finish-OwnedBy c r (thrown x) h on is_child o =
      fail_run-OwnedBy now (record m { child = none }) keyed x failed r.id (inl refl)
        (orphan-Owned m.runs m.active_run_id c r h on
          (subst (λ (y : Option Child). Owned m.runs m.active_run_id y) is_child o))
  finish-OwnedBy c r (verified result) h on is_child o =
      idle-Owned (set str_eq m.runs r.id (completed_run now result r)) (
        none_running m.runs m.active_run_id m.child r (completed_run now result r)
          (subst (λ (x : String). get str_eq m.runs x ≡ some r) (sym (keyed c.run_id r h)) h) on
          refl o)

  -- what the end of the process makes of its run, which the map has
  exited-OwnedBy :
      (code : ℕ) (o : Option Child) → m.child ≡ o → OwnedBy m → OwnedBy (exited_child now code o m)
  exited-OwnedBy code none h o = o
  exited-OwnedBy code (some c) e o = go (get str_eq m.runs c.run_id) refl
    where
      go : (r : Option Run) → get str_eq m.runs c.run_id ≡ r → OwnedBy (exited_found now code c m r)
      go none h = o
      go (some r) h = branch (not (is_running r.status)) refl
        where
          branch :
              (b : Bool)
              → not (is_running r.status) ≡ b
              → OwnedBy (
                  if b
                  then release r.id m
                  else finish now r m (ending_after c.stream_failure code r))
          branch false on =
              finish-OwnedBy c r (ending_after c.stream_failure code r) h (on_of r.status on) e o
          branch true off = rw (keyed c.run_id r h) (
              release-Owned m.runs m.active_run_id c r h (off_of r.status off)
                (subst (λ (y : Option Child). Owned m.runs m.active_run_id y) e o))

  start-OwnedBy :
      (id : String) (spawned : Bool) → OwnedBy m → OwnedBy (after m (start now id spawned m))
  unfolding start new_run
  start-OwnedBy id spawned o = go m.closed m.active_run_id m.child refl refl
    where
      named :
          (b : Bool) (c : Child)
          → (if b then some (new_child id) else none) ≡ some c
          → c.run_id ≡ id
      named true c e = sym (ap (λ (x : Child). x.run_id) (some-injective (new_child id) c e))
      named false c e = absurd (ground arith)

      go :
          (a : Bool) (active : Option String) (child : Option Child)
          → m.active_run_id ≡ active
          → m.child ≡ child
          → OwnedBy (
              after m (
                if a
                then refused 503
                else if is_some active || is_some child
                then refused 409
                else accepted (opened_manager now id spawned m)))
      go true active child e f = o
      go false (some x) child e f = o
      go false none (some c) e f = o
      go false none none e f =
          open-Owned m.runs (new_run now id (length m.ids))
            (if spawned then some (new_child id) else none) refl (named spawned)
            (subst (λ (y : Option Child). Owned m.runs none y) f
              (subst (λ (y : Option String). Owned m.runs y m.child) e o))

reset-OwnedBy : (m : RunManager) → OwnedBy m → OwnedBy (after m (reset m))
unfolding reset
reset-OwnedBy m o = go (is_some m.active_run_id || is_some m.child)
  where
    go :
        (b : Bool)
        → OwnedBy (
            after m (
              if b
              then refused 409
              else accepted (save_manifest (record m { selected_run_id = none }))))
    go true = o
    go false = o

breaks-OwnedBy :
    (out : Bool) (x : Chars) (m : RunManager) → OwnedBy m → OwnedBy (break_stream out x m)
unfolding break_stream
breaks-OwnedBy out x m o = go m.child refl
  where
    go : (c : Option Child) → m.child ≡ c → OwnedBy (broken_stream out x m c)
    go none e = o
    go (some c) e =
        child-Owned m.runs m.active_run_id m.child c
          (if out then break_stdout x c else break_stderr x c) e (named out) o
      where
        named : (b : Bool) → (if b then break_stdout x c else break_stderr x c).run_id ≡ c.run_id
        named true = refl
        named false = refl

step-OwnedBy : (s : Step) (m : RunManager) → Keyed m.runs → OwnedBy m → OwnedBy (step s m)
unfolding step close read_stdout read_stderr heartbeat time_out spawn_failed exited
step-OwnedBy (starts now id spawned) m keyed o = start-OwnedBy now m keyed id spawned o
step-OwnedBy resets m keyed o = reset-OwnedBy m o
step-OwnedBy (closes now) m keyed o = if-OwnedBy m.closed m _ o (λ _.
    fail_active-OwnedBy now (record m { closed = true }) keyed shutdown_message interrupted
      m.active_run_id (inr refl) o)
step-OwnedBy (stdout now line) m keyed o = stdout-OwnedBy now m keyed line m.child refl o
step-OwnedBy (stderr line) m keyed o = stderr-OwnedBy 0 m keyed line m.child o
step-OwnedBy (breaks out x) m keyed o = breaks-OwnedBy out x m o
step-OwnedBy (beats now) m keyed o = beat-OwnedBy now m keyed m.child o
step-OwnedBy (expires now) m keyed o = go m.child
  where
    go : (c : Option Child) → OwnedBy (fail_child now deadline_message c m)
    go none = o
    go (some c) = fail_run-OwnedBy now m keyed deadline_message failed c.run_id (inl refl) o
step-OwnedBy (unspawned now x) m keyed o =
    if-OwnedBy (is_some m.child) m _ o
      (λ _. fail_active-OwnedBy now m keyed x failed m.active_run_id (inl refl) o)
step-OwnedBy (exits now code) m keyed o = exited-OwnedBy now m keyed code m.child refl o

pub run_steps-OwnedBy :
    (steps : List Step) (m : RunManager)
    → Keyed m.runs
    → DrawsNew steps m
    → OwnedBy m
    → Keyed (run_steps steps m).runs × OwnedBy (run_steps steps m)
unfolding run_steps
run_steps-OwnedBy [] m keyed fresh o = (keyed, o)
run_steps-OwnedBy (s ∷ ss) m keyed (fresh, rest) o =
    run_steps-OwnedBy ss (step s m) (step-Keyed s m fresh keyed) rest (step-OwnedBy s m keyed o)

pub empty_manager-OwnedBy :
    (secrets : List Chars) → Keyed (empty_manager secrets).runs × OwnedBy (empty_manager secrets)
unfolding get
empty_manager-OwnedBy secrets =
    (λ id r h. absurd (ground arith), idle-Owned [] (λ id r h. absurd (ground arith)))

-- Whatever steps follow each other from a manager without history, as long as each id that start draws
-- is new, a run that is running is the active run: there is never a second one.
pub run_steps-active :
    (steps : List Step) (secrets : List Chars) (id : String) (r : Run)
    → DrawsNew steps (empty_manager secrets)
    → get str_eq (run_steps steps (empty_manager secrets)).runs id ≡ some r
    → is_running r.status ≡ true
    → (run_steps steps (empty_manager secrets)).active_run_id ≡ some id
run_steps-active steps secrets id r fresh h on =
    let (keyed, o) = empty_manager-OwnedBy secrets in
    (run_steps-OwnedBy steps (empty_manager secrets) keyed fresh o).1.alone id r h on
