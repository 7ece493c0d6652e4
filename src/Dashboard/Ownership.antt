-- ===== src/Dashboard/Ownership.antt =====
-- packages/dashboard/src/run-manager.ts: one run at a time. The active run, its process, and the runs
-- that are running.
use mathlib.Core.Path.{subst}
use mathlib.Core.Option.{some-injective}
use repayd.Common.{
  is_some, ◌≡◌, refl, sym, ap, ◌∙◌, String, Bool, true, false, not, ◌&&◌, Option, none, some,
  str_eq, str_eq_self, if◌then◌else◌, inl, inr, Bool-cases, arith,
}
use repayd.Coverage.Assoc.{get, set}
use repayd.Dashboard.Run.{Run, RunStatus, is_running}
use repayd.Dashboard.Manager.{Child, is_id}
use repayd.Dashboard.Changes.{Runs}
use repayd.Dashboard.History.{get-written, get-kept, get-written_same}

-- only the active run is running; a process is that of the active run; and the active run is known,
-- and running when it has no process
pub record Owned (runs : Runs) (active : Option String) (child : Option Child) : Type 0 where
  pub alone :
      (id : String) (r : Run)
      → get str_eq runs id ≡ some r
      → is_running r.status ≡ true
      → active ≡ some id
  pub child_active : (c : Child) → child ≡ some c → active ≡ some c.run_id
  pub active_known :
      (id : String)
      → active ≡ some id
      → (r : Run) × (get str_eq runs id ≡ some r) × (child ≡ none → is_running r.status ≡ true)

module _ (runs : Runs) (active : Option String) (child : Option Child) where
  -- a run that stays in its status
  pub put-Owned :
      (r s : Run)
      → get str_eq runs s.id ≡ some r
      → s.status ≡ r.status
      → Owned runs active child
      → Owned (set str_eq runs s.id s) active child
  put-Owned r s h same o = record {
    alone = λ id t g on. elim (get-written runs s.id s id t g) [
      | inl (e, f) ↦ o.alone id r (subst (λ (x : String). get str_eq runs x ≡ some r) e h) (
          subst (λ (x : RunStatus). is_running x ≡ true) (sym (ap (λ (x : Run). x.status) f) ∙ same)
            on)
      | inr old ↦ o.alone id t old on
    ];
    child_active = o.child_active;
    active_known = λ id a. known id (o.active_known id a);
  }
    where
      known :
          (id : String)
          → ((q : Run) × (get str_eq runs id ≡ some q)
              × (child ≡ none → is_running q.status ≡ true))
          → (q : Run) × (get str_eq (set str_eq runs s.id s) id ≡ some q)
            × (child ≡ none → is_running q.status ≡ true)
      known id (q, g, on) = elim (get-kept runs s.id s id q g) [
        | inl (e, f) ↦ (s, f, λ no_child. rw same (is_on (on no_child) e))
        | inr old ↦ (q, old, on)
      ]
        where
          is_on : is_running q.status ≡ true → s.id ≡ id → is_running r.status ≡ true
          is_on on e =
              subst (λ (x : Run). is_running x.status ≡ true)
                (some-injective q r (sym g ∙ ap (λ (x : String). get str_eq runs x) (sym e) ∙ h)) on

  -- a run that was running is the only one
  only :
      (r : Run) (k id : String) (t : Run)
      → get str_eq runs k ≡ some r
      → is_running r.status ≡ true
      → get str_eq runs id ≡ some t
      → is_running t.status ≡ true
      → Owned runs active child
      → k ≡ id
  only r k id t h on g running_now o =
      some-injective k id (sym (o.alone k r h on) ∙ o.alone id t g running_now)

  -- after its end none is running
  pub none_running :
      (r s : Run)
      → get str_eq runs s.id ≡ some r
      → is_running r.status ≡ true
      → is_running s.status ≡ false
      → Owned runs active child
      → (id : String) (t : Run) → get str_eq (set str_eq runs s.id s) id ≡ some t
      → is_running t.status ≡ false
  none_running r s h on over o id t g = elim (Bool-cases (is_running t.status)) [
    | inr ended ↦ ended
    | inl running_now ↦ subst (λ (x : Run). is_running x.status ≡ false) (is_same running_now) over
  ]
    where
      is_same : is_running t.status ≡ true → s ≡ t
      is_same running_now = elim (get-written runs s.id s id t g) [
        | inl (e, f) ↦ f
        | inr old ↦ some-injective s t (
            sym (get-written_same runs s.id s)
            ∙ ap (λ (x : String). get str_eq (set str_eq runs s.id s) x)
                (only r s.id id t h on old running_now o)
            ∙ g)
      ]

-- no run is running, and nothing is active
pub idle-Owned :
    (runs : Runs)
    → ((id : String) (t : Run) → get str_eq runs id ≡ some t → is_running t.status ≡ false)
    → Owned runs none none
idle-Owned runs over = record {
  alone = λ id t g on. absurd (ground (arith, over id t g, on));
  child_active = λ c e. absurd (ground arith);
  active_known = λ id e. absurd (ground arith);
}

-- fail, with a process or without one
pub fail-Owned :
    (runs : Runs) (active : Option String) (child : Option Child) (r s : Run)
    → get str_eq runs s.id ≡ some r
    → is_running r.status ≡ true
    → is_running s.status ≡ false
    → Owned runs active child
    → Owned
        (set str_eq runs s.id s)
        (if is_id s.id active && not (is_some child) then none else active)
        child
fail-Owned runs active none r s h on over o =
    rw (o.alone s.id r h on, str_eq_self s.id)
      (idle-Owned (set str_eq runs s.id s) (none_running runs active none r s h on over o))
fail-Owned runs active (some c) r s h on over o = rw (stays (is_id s.id active)) (record {
  alone = λ id t g running_now.
      absurd
        (ground (arith, none_running runs active (some c) r s h on over o id t g, running_now));
  child_active = o.child_active;
  active_known = λ id a. known id (o.active_known id a);
})
  where
    stays : (b : Bool) → (if b && false then none else active) ≡ active
    stays b = ground arith

    known :
        (id : String)
        → ((q : Run) × (get str_eq runs id ≡ some q)
            × (◌≡◌ {A = Option Child} (some c) none → is_running q.status ≡ true))
        → (q : Run) × (get str_eq (set str_eq runs s.id s) id ≡ some q)
          × (◌≡◌ {A = Option Child} (some c) none → is_running q.status ≡ true)
    known id (q, g, on) = elim (get-kept runs s.id s id q g) [
      | inl (e, f) ↦ (s, f, λ x. absurd (ground arith))
      | inr old ↦ (q, old, λ x. absurd (ground arith))
    ]

-- a run is opened while none is active
pub open-Owned :
    (runs : Runs) (s : Run) (child : Option Child)
    → is_running s.status ≡ true
    → ((c : Child) → child ≡ some c → c.run_id ≡ s.id)
    → Owned runs none none
    → Owned (set str_eq runs s.id s) (some s.id) child
open-Owned runs s child on named o = record {
  alone = λ id t g running_now. elim (get-written runs s.id s id t g) [
    | inl (e, f) ↦ ap (λ (x : String). some x) e
    | inr old ↦ absurd (ground (arith, o.alone id t old running_now))
  ];
  child_active = λ c e. ap (λ (x : String). some x) (sym (named c e));
  active_known = λ id e. (
    s,
    subst (λ (x : String). get str_eq (set str_eq runs s.id s) x ≡ some s)
        (some-injective s.id id e) (get-written_same runs s.id s),
    λ _. on,
  );
}

-- the process of a run that is still running is gone
pub orphan-Owned :
    (runs : Runs) (active : Option String) (c : Child) (r : Run)
    → get str_eq runs c.run_id ≡ some r
    → is_running r.status ≡ true
    → Owned runs active (some c)
    → Owned runs active none
orphan-Owned runs active c r h on o = record {
  alone = o.alone;
  child_active = λ d e. absurd (ground arith);
  active_known = λ id a.
      let same = some-injective c.run_id id (sym (o.child_active c refl) ∙ a) in
      (r, subst (λ (x : String). get str_eq runs x ≡ some r) same h, λ _. on);
}

-- the process of a run that is over is gone: nothing is active
pub release-Owned :
    (runs : Runs) (active : Option String) (c : Child) (r : Run)
    → get str_eq runs c.run_id ≡ some r
    → is_running r.status ≡ false
    → Owned runs active (some c)
    → Owned runs (if is_id c.run_id active then none else active) none
release-Owned runs active c r h over o =
    rw (o.child_active c refl, str_eq_self c.run_id)
      (idle-Owned runs (λ id t g. elim (Bool-cases (is_running t.status)) [
        | inr ended ↦ ended
        | inl on ↦
            let same =
              some-injective c.run_id id (sym (o.child_active c refl) ∙ o.alone id t g on) in
            let equal =
              some-injective r t (sym h ∙ ap (λ (x : String). get str_eq runs x) same ∙ g) in
            subst (λ (x : Run). is_running x.status ≡ false) equal over
      ]))

-- the child changes, but not the run that it is of
pub child-Owned :
    (runs : Runs) (active : Option String) (child : Option Child) (c d : Child)
    → child ≡ some c
    → d.run_id ≡ c.run_id
    → Owned runs active child
    → Owned runs active (some d)
child-Owned runs active child c d h same o = record {
  alone = o.alone;
  child_active = λ x e.
      subst (λ (y : Child). active ≡ some y.run_id) (some-injective d x e)
        (o.child_active c h ∙ ap (λ (y : String). some y) (sym same));
  active_known = λ id a. let (r, g, on) = o.active_known id a in (r, g, λ x. absurd (ground arith));
}
