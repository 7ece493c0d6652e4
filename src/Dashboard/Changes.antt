-- ===== src/Dashboard/Changes.antt =====
-- packages/dashboard/src/run-manager.ts: a step of the manager opens a run or moves one, in memory and
-- on disk.
use mathlib.Core.Path.{subst}
use repayd.Common.{
  ℕ, ◌≡◌, refl, sym, String, Bool, true, false, not, Option, none, some, List, ◌∷◌, str_eq, Chars,
  if◌then◌else◌, inl, inr, ◌⊎◌, arith,
}
use repayd.Coverage.Assoc.{get, set}
use repayd.Dashboard.Run.{Run, RunStatus, failed, interrupted, is_running, is_run_id}
use repayd.Dashboard.Logs.{append_log, redact}
use repayd.Dashboard.Markers.{Line, Consumed, ignored, taken, threw, consume_marker}
use repayd.Dashboard.Manager.{
  RunManager, Child, Manifest, new_run, failed_run, fail_found, fail_run, fail_active,
}
use repayd.Dashboard.Streams.{
  text_of, after_line, stdout_found, stdout_child, stderr_found, stderr_child, beaten, beat_found,
  beat_child,
}
use repayd.Dashboard.Moves.{Move, append_log-status, consumed-Keeps}

abbrev pub Runs : Type 0
Runs = List (String × Run)

-- each run stands under its id
abbrev pub Keyed : Runs → Type 0
Keyed runs = (id : String) (run : Run) → get str_eq runs id ≡ some run → run.id ≡ id

-- the runs in memory, and the files
pub record Books : Type 0 where
  pub runs : Runs
  pub saved : Runs
  pub ids : List String
  pub manifest : Option Manifest

abbrev pub books_of : RunManager → Books
books_of m = record { runs = m.runs; saved = m.saved; ids = m.ids; manifest = m.manifest }

-- the manifest lists the ids
abbrev pub Lists : Option Manifest → List String → Type 0
Lists manifest ids =
    (state : Manifest) × (manifest ≡ some state) × (state.version ≡ 1) × (state.ids ≡ ids)

-- the books after a step, from those before it
pub data Change (b c : Books) : Type 0 where
  unchanged :
      c.runs ≡ b.runs
      → c.saved ≡ b.saved
      → c.ids ≡ b.ids
      → (c.manifest ≡ b.manifest) ⊎ Lists c.manifest c.ids
      → Change b c
  opened :
      (now : ℕ) (id : String) (count : ℕ)
      → get str_eq b.runs id ≡ none
      → is_run_id id ≡ true
      → c.runs ≡ set str_eq b.runs id (new_run now id count)
      → c.saved ≡ set str_eq b.saved id (new_run now id count)
      → c.ids ≡ id ∷ b.ids
      → Lists c.manifest c.ids
      → Change b c
  moved :
      (r s : Run)
      → get str_eq b.runs r.id ≡ some r
      → Move r s
      → c.runs ≡ set str_eq b.runs s.id s
      → (c.saved ≡ set str_eq b.saved s.id s) ⊎ ((c.saved ≡ b.saved) × (is_running s.status ≡ true))
      → c.ids ≡ b.ids
      → (c.manifest ≡ b.manifest) ⊎ Lists c.manifest c.ids
      → Change b c

-- the change of a manager that becomes another
abbrev pub Changes : RunManager → RunManager → Type 0
Changes m n = Change (books_of m) (books_of n)

pub if-Changes :
    (m : RunManager) (c : Bool) (x y : RunManager)
    → Changes m x
    → (c ≡ false → Changes m y)
    → Changes m (if c then x else y)
if-Changes m true x y hx hy = hx
if-Changes m false x y hx hy = hy refl

pub is_running_of : (s : RunStatus) → not (is_running s) ≡ false → is_running s ≡ true
is_running_of s h = ground arith

pub at_own_id :
    (m : RunManager) (id : String) (r : Run)
    → Keyed m.runs
    → get str_eq m.runs id ≡ some r
    → get str_eq m.runs r.id ≡ some r
at_own_id m id r keyed h = subst (λ i. get str_eq m.runs i ≡ some r) (sym (keyed id r h)) h

module _ (now : ℕ) (m : RunManager) (keyed : Keyed m.runs) where
  pub fail_run-Changes :
      (error : Chars) (status : RunStatus) (id : String)
      → (status ≡ failed) ⊎ (status ≡ interrupted)
      → Changes m (fail_run now error status id m)
  unfolding fail_run failed_run
  fail_run-Changes error status id over = go (get str_eq m.runs id) refl
    where
      go : (o : Option Run) → get str_eq m.runs id ≡ o → Changes m (fail_found now error status m o)
      go none h = unchanged refl refl refl (inl refl)
      go (some r) h =
          if-Changes m (not (is_running r.status)) m _ (unchanged refl refl refl (inl refl))
            (λ open_now.
              moved r (failed_run now (redact m.secrets error) status r) (at_own_id m id r keyed h)
                (Move.fails now (redact m.secrets error) status (is_running_of r.status open_now)
                  over)
                refl (inl refl) refl (inr (_, refl, refl, refl)))

  pub fail_active-Changes :
      (error : Chars) (status : RunStatus) (id : Option String)
      → (status ≡ failed) ⊎ (status ≡ interrupted)
      → Changes m (fail_active now error status id m)
  fail_active-Changes error status none over = unchanged refl refl refl (inl refl)
  fail_active-Changes error status (some id) over = fail_run-Changes error status id over

  after_line-Changes :
      (line : Line) (r : Run) (c : Child) (consumed : Consumed)
      → consume_marker now line r ≡ consumed
      → get str_eq m.runs r.id ≡ some r
      → is_running r.status ≡ true
      → Changes m (after_line line r c m consumed)
  after_line-Changes line r c ignored e h on =
      moved r (append_log m.secrets (text_of line) r) h (Move.logs m.secrets (text_of line) on) refl
        (inr (refl, rw (append_log-status m.secrets (text_of line) r) on)) refl (inl refl)
  after_line-Changes line r c (taken s) e h on =
      moved r s h (Move.takes now line on e) refl (inl refl) refl (inl refl)
  after_line-Changes line r c (threw s x) e h on =
      moved r s h (Move.stops now line x on e) refl
        (inr (refl, rw ((consumed-Keeps now line r (threw s x) e).status) on)) refl (inl refl)

  pub stdout-Changes : (line : Line) (o : Option Child) → Changes m (stdout_child now line o m)
  stdout-Changes line none = unchanged refl refl refl (inl refl)
  stdout-Changes line (some c) =
      if-Changes m (not c.stdout_open) m _ (unchanged refl refl refl (inl refl))
        (λ _. go (get str_eq m.runs c.run_id) refl)
    where
      go :
          (o : Option Run)
          → get str_eq m.runs c.run_id ≡ o
          → Changes m (stdout_found now line c m o)
      go none h = unchanged refl refl refl (inl refl)
      go (some r) h =
          if-Changes m (not (is_running r.status)) m _ (unchanged refl refl refl (inl refl))
            (λ open_now.
              after_line-Changes line r c (consume_marker now line r) refl
                (at_own_id m c.run_id r keyed h) (is_running_of r.status open_now))

  pub stderr-Changes : (line : Chars) (o : Option Child) → Changes m (stderr_child line o m)
  stderr-Changes line none = unchanged refl refl refl (inl refl)
  stderr-Changes line (some c) =
      if-Changes m (not c.stderr_open) m _ (unchanged refl refl refl (inl refl))
        (λ _. go (get str_eq m.runs c.run_id) refl)
    where
      go : (o : Option Run) → get str_eq m.runs c.run_id ≡ o → Changes m (stderr_found line m o)
      go none h = unchanged refl refl refl (inl refl)
      go (some r) h =
          if-Changes m (not (is_running r.status)) m _ (unchanged refl refl refl (inl refl))
            (λ open_now.
              let on = is_running_of r.status open_now in
              moved r (append_log m.secrets line r) (at_own_id m c.run_id r keyed h)
                (Move.logs m.secrets line on) refl
                (inr (refl, rw (append_log-status m.secrets line r) on)) refl (inl refl))

  pub beat-Changes : (o : Option Child) → Changes m (beat_child now o m)
  beat-Changes none = unchanged refl refl refl (inl refl)
  beat-Changes (some c) = go (get str_eq m.runs c.run_id) refl
    where
      go : (o : Option Run) → get str_eq m.runs c.run_id ≡ o → Changes m (beat_found now m o)
      go none h = unchanged refl refl refl (inl refl)
      go (some r) h =
          if-Changes m (not (is_running r.status)) m _ (unchanged refl refl refl (inl refl))
            (λ open_now.
              moved r (beaten now r) (at_own_id m c.run_id r keyed h)
                (Move.beats now (is_running_of r.status open_now)) refl (inl refl) refl (inl refl))
