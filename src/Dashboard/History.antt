-- ===== src/Dashboard/History.antt =====
-- packages/dashboard/src/run-manager.ts: the history of one run over the steps of the manager.
use mathlib.Core.Path.{subst}
use mathlib.Core.Option.{some-injective}
use repayd.Common.{
  ℕ, ◌≡◌, ◌≤◌, refl, sym, ap, ◌∙◌, String, Bool, true, false, none, some, List, [], ◌∷◌, str_eq,
  str_eq_sound, str_eq_self, Chars, if◌then◌else◌, inl, inr, ◌⊎◌, Bool-cases, arith,
}
use repayd.Coverage.Assoc.{get, set, get-set}
use repayd.Dashboard.Run.{Run, is_running, index_of}
use repayd.Dashboard.Manager.{RunManager, new_run}
use repayd.Dashboard.Steps.{Step, step, run_steps, empty_manager, IsNew, DrawsNew}
use repayd.Dashboard.Moves.{Move, Move-id, Move-over, Move-phase}
use repayd.Dashboard.Changes.{Runs, Books, Keyed, Change, unchanged, opened, moved}
use repayd.Dashboard.Stepping.{step-Changes}

module _ (runs : Runs) (k : String) (v : Run) (i : String) where
  -- what is found after a write was written, or was there
  pub get-written :
      (r : Run)
      → get str_eq (set str_eq runs k v) i ≡ some r
      → ((k ≡ i) × (v ≡ r)) ⊎ (get str_eq runs i ≡ some r)
  get-written r h = go (str_eq k i) refl (sym (get-set str_eq str_eq_sound runs k i v) ∙ h)
    where
      go :
          (b : Bool)
          → str_eq k i ≡ b
          → (if b then some v else get str_eq runs i) ≡ some r
          → ((k ≡ i) × (v ≡ r)) ⊎ (get str_eq runs i ≡ some r)
      go true e h = inl (str_eq_sound k i e, some-injective v r h)
      go false e h = inr h

  -- what was there is found after a write, or was written over
  pub get-kept :
      (r : Run)
      → get str_eq runs i ≡ some r
      → ((k ≡ i) × (get str_eq (set str_eq runs k v) i ≡ some v))
        ⊎ (get str_eq (set str_eq runs k v) i ≡ some r)
  get-kept r h = elim (Bool-cases (str_eq k i)) [
    | inl e ↦ inl (str_eq_sound k i e, rw (get-set str_eq str_eq_sound runs k i v, e) refl)
    | inr e ↦ inr (rw (get-set str_eq str_eq_sound runs k i v, e) h)
  ]

pub get-written_same :
    (runs : Runs) (k : String) (v : Run) → get str_eq (set str_eq runs k v) k ≡ some v
get-written_same runs k v = rw (get-set str_eq str_eq_sound runs k k v, str_eq_self k) refl

module _ (b c : Books) where
  -- a run after the step was moved from one before it, or opened by it
  pub Change-before :
      (id : String) (s : Run)
      → Change b c
      → get str_eq c.runs id ≡ some s
      → ((r : Run) × (get str_eq b.runs id ≡ some r) × Move r s)
        ⊎ ((now : ℕ) × (count : ℕ) × (s ≡ new_run now id count))
  Change-before id s (unchanged e f j m) h =
      inl (s, subst (λ (x : Runs). get str_eq x id ≡ some s) e h, Move.stays)
  Change-before id s (opened now i count fresh shaped e f j m) h =
      elim (get-written b.runs i (new_run now i count) id s
        (subst (λ (x : Runs). get str_eq x id ≡ some s) e h)) [
          | inl (same, new) ↦
              inr (now, count, sym new ∙ ap (λ (x : String). new_run now x count) same)
          | inr old ↦ inl (s, old, Move.stays)
        ]
  Change-before id s (moved r t h mv e f j m) g =
      elim (get-written b.runs t.id t id s (subst (λ (x : Runs). get str_eq x id ≡ some s) e g)) [
        | inl (same, new) ↦ inl (
          r,
          subst (λ (x : String). get str_eq b.runs x ≡ some r) (sym (Move-id r t mv) ∙ same) h,
          subst (λ (x : Run). Move r x) new mv,
        )
        | inr old ↦ inl (s, old, Move.stays)
      ]

  -- a run before the step is still there, moved or not
  pub Change-after :
      (id : String) (r : Run)
      → Change b c
      → get str_eq b.runs id ≡ some r
      → (s : Run) × (get str_eq c.runs id ≡ some s) × Move r s
  Change-after id r (unchanged e f j m) h =
      (r, subst (λ (x : Runs). get str_eq x id ≡ some r) (sym e) h, Move.stays)
  Change-after id r (opened now i count fresh shaped e f j m) h =
      elim (get-kept b.runs i (new_run now i count) id r h) [
        | inl (same, new) ↦
            absurd
              (ground (arith, subst (λ (x : String). get str_eq b.runs x ≡ none) same fresh, h))
        | inr old ↦ (r, subst (λ (x : Runs). get str_eq x id ≡ some r) (sym e) old, Move.stays)
      ]
  Change-after id r (moved q t g mv e f j m) h = elim (get-kept b.runs t.id t id r h) [
    | inl (same, new) ↦ (
      t,
      subst (λ (x : Runs). get str_eq x id ≡ some t) (sym e) new,
      subst (λ (x : Run). Move x t) (is_same same) mv,
    )
    | inr old ↦ (r, subst (λ (x : Runs). get str_eq x id ≡ some r) (sym e) old, Move.stays)
  ]
    where
      is_same : t.id ≡ id → q ≡ r
      is_same same =
          some-injective q r
            (sym g ∙ ap (λ (x : String). get str_eq b.runs x) (sym (Move-id q t mv) ∙ same) ∙ h)

  Change-Keyed : Change b c → Keyed b.runs → Keyed c.runs
  unfolding new_run
  Change-Keyed change keyed id s h = elim (Change-before id s change h) [
    | inl (r, g, mv) ↦ Move-id r s mv ∙ keyed id r g
    | inr (now, count, new) ↦ ap (λ (x : Run). x.id) new
  ]

pub step-Keyed : (s : Step) (m : RunManager) → IsNew s m → Keyed m.runs → Keyed (step s m).runs
step-Keyed s m fresh keyed = Change-Keyed _ _ (step-Changes s m keyed fresh) keyed

-- the history of a run over steps
pub run_steps-history :
    (steps : List Step) (m : RunManager) (id : String) (r : Run)
    → Keyed m.runs
    → DrawsNew steps m
    → get str_eq m.runs id ≡ some r
    → (s : Run) × (get str_eq (run_steps steps m).runs id ≡ some s)
      × (index_of r.phase ≤ index_of s.phase)
      × (is_running r.status ≡ false → s ≡ r)
unfolding run_steps
run_steps-history [] m id r keyed fresh h = (r, h, omega arith, λ _. refl)
run_steps-history (a ∷ as_) m id r keyed (fresh, rest) h =
    let (q, g, mv) = Change-after _ _ id r (step-Changes a m keyed fresh) h in
    let (s, k, later, over) =
      run_steps-history as_ (step a m) id q (step-Keyed a m fresh keyed) rest g in
    (
      s,
      k,
      omega (arith, Move-phase r q mv, later),
      λ ended.
          let same = Move-over r q mv ended in
          over (subst (λ (x : Run). is_running x.status ≡ false) (sym same) ended) ∙ same,
    )

-- what a new run has and each move keeps, every run has
module _ (P : Run → Type 0) (new : (now : ℕ) (id : String) (count : ℕ) → P (new_run now id count))
    (kept : (r s : Run) → Move r s → P r → P s) where
  run_steps-Every :
      (steps : List Step) (m : RunManager)
      → Keyed m.runs
      → DrawsNew steps m
      → ((id : String) (r : Run) → get str_eq m.runs id ≡ some r → P r)
      → (id : String) (r : Run) → get str_eq (run_steps steps m).runs id ≡ some r
      → P r
  unfolding run_steps
  run_steps-Every [] m keyed fresh all id r h = all id r h
  run_steps-Every (a ∷ rest) m keyed (first, later) all id r h =
      run_steps-Every rest (step a m) (step-Keyed a m first keyed) later one id r h
    where
      one : (i : String) (s : Run) → get str_eq (step a m).runs i ≡ some s → P s
      one i s g = elim (Change-before _ _ i s (step-Changes a m keyed first) g) [
        | inl (q, old, mv) ↦ kept q s mv (all i q old)
        | inr (now, count, e) ↦ subst P (sym e) (new now i count)
      ]

  pub run_steps-All :
      (steps : List Step) (secrets : List Chars) (id : String) (r : Run)
      → DrawsNew steps (empty_manager secrets)
      → get str_eq (run_steps steps (empty_manager secrets)).runs id ≡ some r
      → P r
  unfolding get
  run_steps-All steps secrets id r fresh h =
      run_steps-Every steps (empty_manager secrets) (λ i s g. absurd (ground arith)) fresh
        (λ i s g. absurd (ground arith)) id r h
