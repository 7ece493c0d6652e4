-- ===== src/Dashboard/Single.antt =====
-- packages/dashboard/src/run-manager.ts: what each event of the process means for who is active.
use mathlib.Core.Path.{subst}
use repayd.Common.{
  ℕ, ◌≡◌, refl, sym, ◌∙◌, String, Bool, true, false, not, Option, none, some, str_eq, Chars, codes,
  if◌then◌else◌, inl, inr, ◌⊎◌, arith,
}
use repayd.Coverage.Assoc.{get, set}
use repayd.Dashboard.Run.{Run, RunStatus, failed, interrupted, is_running}
use repayd.Dashboard.Logs.{append_log, redact}
use repayd.Dashboard.Markers.{Line, Consumed, ignored, taken, threw, consume_marker}
use repayd.Dashboard.Manager.{RunManager, Child, failed_run, fail_found, fail_run, fail_active}
use repayd.Dashboard.Streams.{
  text_of, after_line, stdout_found, stdout_child, stderr_found, stderr_child, break_stdout, beaten,
  beat_found, beat_child,
}
use repayd.Dashboard.Moves.{append_log-status, append_log-id, consumed-Keeps}
use repayd.Dashboard.Changes.{Keyed}
use repayd.Dashboard.Ownership.{Owned, put-Owned, fail-Owned, child-Owned}

abbrev pub OwnedBy : RunManager → Type 0
OwnedBy m = Owned m.runs m.active_run_id m.child

pub if-OwnedBy :
    (c : Bool) (x y : RunManager)
    → OwnedBy x
    → (c ≡ false → OwnedBy y)
    → OwnedBy (if c then x else y)
if-OwnedBy true x y hx hy = hx
if-OwnedBy false x y hx hy = hy refl

pub on_of : (s : RunStatus) → not (is_running s) ≡ false → is_running s ≡ true
on_of s h = ground arith

pub off_of : (s : RunStatus) → not (is_running s) ≡ true → is_running s ≡ false
off_of s h = ground arith

over_of : (s : RunStatus) → (s ≡ failed) ⊎ (s ≡ interrupted) → is_running s ≡ false
over_of s (inl e) = rw e refl
over_of s (inr e) = rw e refl

module _ (now : ℕ) (m : RunManager) (keyed : Keyed m.runs) where
  -- a run of the map that becomes another of the same id and status
  put-OwnedBy :
      (k : String) (r s : Run)
      → get str_eq m.runs k ≡ some r
      → s.id ≡ r.id
      → s.status ≡ r.status
      → OwnedBy m
      → Owned (set str_eq m.runs s.id s) m.active_run_id m.child
  put-OwnedBy k r s h same st o =
      put-Owned m.runs m.active_run_id m.child r s
        (subst (λ (x : String). get str_eq m.runs x ≡ some r) (sym (same ∙ keyed k r h)) h) st o

  pub fail_run-OwnedBy :
      (error : Chars) (status : RunStatus) (id : String)
      → (status ≡ failed) ⊎ (status ≡ interrupted)
      → OwnedBy m
      → OwnedBy (fail_run now error status id m)
  unfolding fail_run failed_run
  fail_run-OwnedBy error status id over o = go (get str_eq m.runs id) refl
    where
      go : (r : Option Run) → get str_eq m.runs id ≡ r → OwnedBy (fail_found now error status m r)
      go none h = o
      go (some r) h = if-OwnedBy (not (is_running r.status)) m _ o (λ open_now.
          fail-Owned m.runs m.active_run_id m.child r
            (failed_run now (redact m.secrets error) status r)
            (subst (λ (x : String). get str_eq m.runs x ≡ some r) (sym (keyed id r h)) h)
            (on_of r.status open_now) (over_of status over) o)

  pub fail_active-OwnedBy :
      (error : Chars) (status : RunStatus) (id : Option String)
      → (status ≡ failed) ⊎ (status ≡ interrupted)
      → OwnedBy m
      → OwnedBy (fail_active now error status id m)
  fail_active-OwnedBy error status none over o = o
  fail_active-OwnedBy error status (some id) over o = fail_run-OwnedBy error status id over o

  after_line-OwnedBy :
      (line : Line) (r : Run) (c : Child) (consumed : Consumed)
      → consume_marker now line r ≡ consumed
      → get str_eq m.runs c.run_id ≡ some r
      → m.child ≡ some c
      → OwnedBy m
      → OwnedBy (after_line line r c m consumed)
  after_line-OwnedBy line r c ignored e h is_child o =
      put-OwnedBy c.run_id r (append_log m.secrets (text_of line) r) h
        (append_log-id m.secrets (text_of line) r) (append_log-status m.secrets (text_of line) r) o
  after_line-OwnedBy line r c (taken s) e h is_child o =
      let k = consumed-Keeps now line r (taken s) e in put-OwnedBy c.run_id r s h k.id k.status o
  after_line-OwnedBy line r c (threw s x) e h is_child o =
      let k = consumed-Keeps now line r (threw s x) e in
      child-Owned (set str_eq m.runs s.id s) m.active_run_id m.child c (break_stdout (codes x) c)
        is_child refl (put-OwnedBy c.run_id r s h k.id k.status o)

  -- what a line or a heartbeat does to the run of the process
  pub stdout-OwnedBy :
      (line : Line) (o : Option Child)
      → m.child ≡ o
      → OwnedBy m
      → OwnedBy (stdout_child now line o m)
  stdout-OwnedBy line none e o = o
  stdout-OwnedBy line (some c) e o =
      if-OwnedBy (not c.stdout_open) m _ o (λ _. go (get str_eq m.runs c.run_id) refl)
    where
      go : (r : Option Run) → get str_eq m.runs c.run_id ≡ r → OwnedBy (stdout_found now line c m r)
      go none h = o
      go (some r) h =
          if-OwnedBy (not (is_running r.status)) m _ o
            (λ _. after_line-OwnedBy line r c (consume_marker now line r) refl h e o)

  pub stderr-OwnedBy :
      (line : Chars) (o : Option Child) → OwnedBy m → OwnedBy (stderr_child line o m)
  stderr-OwnedBy line none o = o
  stderr-OwnedBy line (some c) o =
      if-OwnedBy (not c.stderr_open) m _ o (λ _. go (get str_eq m.runs c.run_id) refl)
    where
      go : (r : Option Run) → get str_eq m.runs c.run_id ≡ r → OwnedBy (stderr_found line m r)
      go none h = o
      go (some r) h = if-OwnedBy (not (is_running r.status)) m _ o (λ _.
          put-OwnedBy c.run_id r (append_log m.secrets line r) h (append_log-id m.secrets line r)
            (append_log-status m.secrets line r) o)

  pub beat-OwnedBy : (o : Option Child) → OwnedBy m → OwnedBy (beat_child now o m)
  unfolding beaten
  beat-OwnedBy none o = o
  beat-OwnedBy (some c) o = go (get str_eq m.runs c.run_id) refl
    where
      go : (r : Option Run) → get str_eq m.runs c.run_id ≡ r → OwnedBy (beat_found now m r)
      go none h = o
      go (some r) h =
          if-OwnedBy (not (is_running r.status)) m _ o
            (λ _. put-OwnedBy c.run_id r (beaten now r) h refl refl o)
