-- ===== src/Dashboard/Restored.antt =====
-- packages/dashboard/src/run-manager.ts: a new manager on the files of one that has stopped.
use mathlib.Core.Path.{subst}
use mathlib.Core.Option.{some-injective}
use repayd.Common.{
  ℕ, ◌≡◌, refl, sym, ap, ◌∙◌, String, true, false, Option, none, some, List, [], ◌∷◌, str_eq, any,
  All, Chars, inl, inr, ◌⊎◌, arith,
}
use repayd.Coverage.Assoc.{get}
use repayd.Coverage.Schema.{ok}
use repayd.Dashboard.Run.{Run, is_running, is_run_id, present}
use repayd.Dashboard.Manager.{RunManager, Manifest, save_manifest}
use repayd.Dashboard.Restore.{settled_run, selection, restore_manifest, restore}
use repayd.Dashboard.Steps.{Step, run_steps, empty_manager, DrawsNew}
use repayd.Dashboard.Changes.{books_of, Lists}
use repayd.Dashboard.Filed.{Filed, run_steps-Filed, empty_manager-Filed}
use repayd.Dashboard.Recovery.{HasFiles, Reads, restore_ids-ok, settled_run-over, settled_run-same}
use repayd.Dashboard.Active.{empty_manager-OwnedBy}

-- what a new manager knows of the runs of one that has stopped
pub record Restores (m n : RunManager) : Type 0 where
  pub ids : n.ids ≡ m.ids
  pub idle : n.active_run_id ≡ none
  pub runs :
      (id : String) (r : Run)
      → get str_eq m.runs id ≡ some r
      → (s : Run) × (get str_eq n.runs id ≡ some s)
        × (is_running s.status ≡ false)
        × (is_running r.status ≡ false → s ≡ r)

module _ (now : ℕ) (secrets : List Chars) (m : RunManager) (f : Filed (books_of m)) where
  fresh_manager : RunManager
  fresh_manager = record (empty_manager secrets) { saved = m.saved; manifest = m.manifest }

  has_files :
      (ids : List String)
      → All (λ id. (r : Run) × (get str_eq m.runs id ≡ some r)) ids
      → All (λ id. is_run_id id ≡ true) ids
      → HasFiles now m.saved ids
  has_files [] h k = tt
  has_files (id ∷ ids) ((r, g), h) (k, ks) =
      let (s, there, kept) = f.kept id r g in ((k, (s, there, kept.own_id)), has_files ids h ks)

  fresh-Reads : Reads now m.saved fresh_manager
  unfolding fresh_manager get
  fresh-Reads = record {
    disk = λ id s h own. (s, h, own, refl);
    memory = λ id q h. absurd (ground arith);
  }

  -- the files of a manager are read without an error
  restore_manifest-Restores :
      (o : Option Manifest)
      → m.manifest ≡ o
      → ((o ≡ none) × (m.ids ≡ [])) ⊎ Lists o m.ids
      → (n : RunManager) × (restore_manifest now o fresh_manager ≡ ok n) × Restores m n
  unfolding fresh_manager any
  restore_manifest-Restores none e (inl (_, no_ids)) = (
    fresh_manager,
    refl,
    record {
      ids = sym no_ids;
      idle = refl;
      runs = λ id r h. absurd (ground (arith, nothing id r h));
    },
  )
    where
      nothing : (id : String) (r : Run) → get str_eq m.runs id ≡ some r → false ≡ true
      nothing id r h =
          subst (λ (x : List String). any (λ y. str_eq y id) x ≡ true) no_ids (f.named id r h)
  restore_manifest-Restores none e (inr (state, there, _, _)) = absurd (ground (arith, there))
  restore_manifest-Restores (some state) e (inl (there, _)) = absurd (ground (arith, there))
  restore_manifest-Restores (some state) e (inr (listed, there, version, ids)) =
      let same = some-injective state listed there in
      let state_ids : state.ids ≡ m.ids = ap (λ (x : Manifest). x.ids) same ∙ ids in
      let (n, found, x) =
        restore_ids-ok now m.saved state.ids fresh_manager
          (subst (HasFiles now m.saved) (sym state_ids) (has_files m.ids f.stored f.shaped))
          fresh-Reads in
      (
        save_manifest (record n { selected_run_id = selection (present state.selected_run_id) n }),
        rw (ap (λ (y : Manifest). y.version) same ∙ version, found) refl,
        record {
          ids = x.listed ∙ state_ids;
          idle = x.idle.0;
          runs = λ id r h.
              let (s, there_now, kept) = f.kept id r h in
              (
                settled_run now s,
                x.keeps id s there_now (
                    inl (
                      subst (λ (y : List String). any (λ z. str_eq z id) y ≡ true) (sym state_ids)
                        (f.named id r h))),
                settled_run-over now s,
                λ over.
                    settled_run-same now s
                      (subst (λ (y : Run). is_running y.status ≡ false) (sym (kept.over over)) over)
                    ∙ kept.over over,
              );
        },
      )

-- Whenever a manager stops, be it in the middle of a run, a new one restores its files without an
-- error, as long as each id that start drew was a new UUID. It has the same runs and none is active
-- or running; each run that was over is restored as it was.
pub restore-run_steps :
    (steps : List Step) (secrets again : List Chars) (now : ℕ)
    → DrawsNew steps (empty_manager secrets)
    → let m = run_steps steps (empty_manager secrets) in
      (n : RunManager) × (restore now again m.saved m.manifest ≡ ok n) × Restores m n
unfolding restore fresh_manager
restore-run_steps steps secrets again now fresh =
    let m = run_steps steps (empty_manager secrets) in
    let f =
      run_steps-Filed steps (empty_manager secrets) (empty_manager-OwnedBy secrets).0 fresh
        (empty_manager-Filed secrets) in
    restore_manifest-Restores now again m f m.manifest refl f.manifest
