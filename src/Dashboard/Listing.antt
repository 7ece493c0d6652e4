-- ===== src/Dashboard/Listing.antt =====
-- packages/dashboard/src/run-manager.ts: what state shows of the active run and of each run.
use mathlib.Core.Path.{subst}
use repayd.Common.{
  ◌≡◌, refl, ap, String, true, Option, none, some, List, [], ◌∷◌, str_eq, str_eq_sound, any, All,
  Chars, Bool-cases, inl, inr, arith,
}
use repayd.Coverage.Assoc.{get}
use repayd.Dashboard.Run.{Run, is_run_id, present}
use repayd.Dashboard.Restore.{
  RunSummary, summary, DemoState, shown, summaries, or_else, found_run, show_with, state,
}
use repayd.Dashboard.Manager.{RunManager}
use repayd.Dashboard.Steps.{Step, run_steps, empty_manager, DrawsNew}
use repayd.Dashboard.Changes.{Runs, Keyed}
use repayd.Dashboard.Filed.{run_steps-Filed, empty_manager-Filed}
use repayd.Dashboard.Active.{run_steps-OwnedBy, empty_manager-OwnedBy}

-- a summary says of a run what the list of runs needs
abbrev pub Says : Run → RunSummary → Type 0
Says r s =
    (s.id ≡ r.id)
    × (s.label ≡ r.label)
    × (s.chain_id ≡ r.chain_id)
    × (s.status ≡ r.status)
    × (s.phase ≡ r.phase)
    × (s.started_at ≡ r.started_at)
    × (s.ended_at ≡ r.ended_at)
    × (s.error ≡ r.error)
    × (s.guard ≡ r.guard)

-- the summaries are those of the runs of a list of ids, in its order
abbrev pub SaysAll : Runs → List String → List RunSummary → Type 0
SaysAll runs [] [] = Unit
SaysAll runs (id ∷ ids) (s ∷ ss) =
    ((r : Run) × (get str_eq runs id ≡ some r) × (r.id ≡ id) × Says r s) × SaysAll runs ids ss
SaysAll _ _ _ = ⊥

-- the active run is selected and shown; without one the manager's selection is selected
abbrev pub ShowsActive : Runs → Option String → Option String → DemoState → Type 0
ShowsActive runs none chosen s = s.selected_run_id ≡ chosen
ShowsActive runs (some id) chosen s =
    (s.selected_run_id ≡ some id) × ((r : Run) × (get str_eq runs id ≡ some r) × (s.run ≡ some r))

summaries-SaysAll :
    (runs : Runs) (ids : List String)
    → Keyed runs
    → All (λ id. (r : Run) × (get str_eq runs id ≡ some r)) ids
    → (out : List RunSummary) × (summaries runs ids ≡ some out) × SaysAll runs ids out
unfolding summaries
summaries-SaysAll runs [] keyed h = ([], refl, tt)
summaries-SaysAll runs (id ∷ ids) keyed ((r, g), h) =
    let (out, e, all) = summaries-SaysAll runs ids keyed h in
    (
      summary r ∷ out,
      rw (g, e) refl,
      ((r, g, keyed id r g, (refl, refl, refl, refl, refl, refl, refl, refl, refl)), all),
    )

-- a UUID counts as true
present-is_run_id : (id : String) → is_run_id id ≡ true → present (some id) ≡ some id
unfolding is_run_id
present-is_run_id id h = elim (Bool-cases (str_eq id "")) [
  | inl e ↦ absurd (empty_refused (subst (λ x. is_run_id x ≡ true) (str_eq_sound id "" e) h))
  | inr e ↦ rw e refl
]
  where
    empty_refused : is_run_id "" ≡ true → ⊥
    empty_refused h = ground arith

shaped_member :
    (ids : List String) (id : String)
    → All (λ x. is_run_id x ≡ true) ids
    → any (λ x. str_eq x id) ids ≡ true
    → is_run_id id ≡ true
unfolding any
shaped_member [] id h found = absurd (ground arith)
shaped_member (x ∷ xs) id (h, hs) found = elim (Bool-cases (str_eq x id)) [
  | inl e ↦ subst (λ y. is_run_id y ≡ true) (str_eq_sound x id e) h
  | inr e ↦ shaped_member xs id hs (rw e at found)
]

shown-ShowsActive :
    (m : RunManager) (active : Option String) (out : List RunSummary)
    → ((id : String)
        → active ≡ some id
        → (is_run_id id ≡ true) × ((r : Run) × (get str_eq m.runs id ≡ some r)))
    → ShowsActive m.runs active m.selected_run_id (record {
      active_run_id = m.active_run_id;
      selected_run_id = or_else active m.selected_run_id;
      run = found_run (present (or_else active m.selected_run_id)) m.runs;
      runs = out;
    })
shown-ShowsActive m none out known = refl
shown-ShowsActive m (some id) out known =
    let (shaped, (r, there)) = known id refl in
    (refl, (r, there, rw (present-is_run_id id shaped) there))

-- Whatever steps follow each other, state without an id shows the manager's active run: it is the
-- selected one, and the run that the manager has of that id is given in full. The runs it lists are all
-- those of the manager, in the order of their ids, each with the label, the chain, the status, the
-- phase, the times, the error and the guard that the run has.
pub state-run_steps :
    (steps : List Step) (secrets : List Chars)
    → DrawsNew steps (empty_manager secrets)
    → let m = run_steps steps (empty_manager secrets) in
      (s : DemoState) × (state none m ≡ shown s)
      × (s.active_run_id ≡ m.active_run_id)
      × ShowsActive m.runs m.active_run_id m.selected_run_id s
      × SaysAll m.runs m.ids s.runs
unfolding state
state-run_steps steps secrets fresh =
    let m = run_steps steps (empty_manager secrets) in
    let (keyed0, o0) = empty_manager-OwnedBy secrets in
    let (keyed, o) = run_steps-OwnedBy steps (empty_manager secrets) keyed0 fresh o0 in
    let f =
      run_steps-Filed steps (empty_manager secrets) keyed0 fresh (empty_manager-Filed secrets) in
    let (out, e, all) = summaries-SaysAll m.runs m.ids keyed f.stored in
    (
      _,
      ap (show_with (or_else m.active_run_id m.selected_run_id) m) e,
      refl,
      shown-ShowsActive m m.active_run_id out (λ id active.
          let (r, there, on) = o.active_known id active in
          (shaped_member m.ids id f.shaped (f.named id r there), (r, there))),
      all,
    )
