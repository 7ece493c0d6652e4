-- ===== src/Dashboard/Filed.antt =====
-- packages/dashboard/src/run-manager.ts: the files say what the manager knows.
use mathlib.Core.Path.{subst}
use repayd.Common.{
  ◌≡◌, refl, sym, ◌∙◌, String, Bool, true, false, ◌||◌, Option, none, some, List, [], ◌∷◌, str_eq,
  str_eq_sound, str_eq_self, any, All, Chars, inl, inr, ◌⊎◌, Bool-cases, arith,
}
use repayd.Coverage.Assoc.{get, set, get-set}
use repayd.Dashboard.Run.{Run, is_running}
use repayd.Dashboard.Manager.{RunManager, new_run}
use repayd.Dashboard.Run.{is_run_id}
use repayd.Dashboard.Steps.{Step, step, run_steps, empty_manager, DrawsNew}
use repayd.Dashboard.Moves.{Move-id, Move-over}
use repayd.Dashboard.Changes.{Runs, Keyed, Books, books_of, Lists, Change, unchanged, opened, moved}
use repayd.Dashboard.Stepping.{step-Changes}
use repayd.Dashboard.History.{Change-after, get-written, get-written_same, step-Keyed}

-- the file of a run: that of a run that is over is the run itself
pub record Kept (id : String) (r s : Run) : Type 0 where
  pub own_id : s.id ≡ id
  pub over : is_running r.status ≡ false → s ≡ r
  pub on : is_running r.status ≡ true → is_running s.status ≡ true

abbrev pub AllKept : Runs → Runs → Type 0
AllKept runs saved =
    (id : String) (r : Run)
    → get str_eq runs id ≡ some r
    → (s : Run) × (get str_eq saved id ≡ some s) × Kept id r s

module _ (runs saved : Runs) (k : String) (v : Run) where
  -- written to both
  both-AllKept :
      v.id ≡ k → AllKept runs saved → AllKept (set str_eq runs k v) (set str_eq saved k v)
  both-AllKept named kept id r h = elim (Bool-cases (str_eq k id)) [
    | inl e ↦ (
      v,
      rw (get-set str_eq str_eq_sound saved k id v, e) refl,
      record {
        own_id = named ∙ str_eq_sound k id e;
        over = λ _. found e;
        on = λ on. subst (λ (x : Run). is_running x.status ≡ true) (sym (found e)) on;
      },
    )
    | inr e ↦
        let (s, g, old) =
          kept id r (sym (rw (get-set str_eq str_eq_sound runs k id v, e) refl) ∙ h) in
        (s, rw (get-set str_eq str_eq_sound saved k id v, e) g, old)
  ]
    where
      found : str_eq k id ≡ true → v ≡ r
      found e = some_of (sym (rw (get-set str_eq str_eq_sound runs k id v, e) refl) ∙ h)
        where
          some_of : ◌≡◌ {A = Option Run} (some v) (some r) → v ≡ r
          some_of g = ground arith

  -- written to memory only, for a run that was running and still is
  memory-AllKept :
      (q : Run)
      → get str_eq runs k ≡ some q
      → is_running q.status ≡ true
      → is_running v.status ≡ true
      → AllKept runs saved
      → AllKept (set str_eq runs k v) saved
  memory-AllKept q g was_on on kept id r h = elim (Bool-cases (str_eq k id)) [
    | inl e ↦
        let (s, f, old) =
          kept id q (subst (λ (x : String). get str_eq runs x ≡ some q) (str_eq_sound k id e) g) in
        (
          s,
          f,
          record {
            own_id = old.own_id;
            over = λ over. absurd (
                ground (
                  arith,
                  on,
                  subst (λ (x : Run). is_running x.status ≡ false) (sym (found e)) over,
                ));
            on = λ _. old.on was_on;
          },
        )
    | inr e ↦ kept id r (sym (rw (get-set str_eq str_eq_sound runs k id v, e) refl) ∙ h)
  ]
    where
      found : str_eq k id ≡ true → v ≡ r
      found e = some_of (sym (rw (get-set str_eq str_eq_sound runs k id v, e) refl) ∙ h)
        where
          some_of : ◌≡◌ {A = Option Run} (some v) (some r) → v ≡ r
          some_of g = ground arith

-- the files and the list of ids are complete
pub record Filed (b : Books) : Type 0 where
  pub named :
      (id : String) (r : Run) → get str_eq b.runs id ≡ some r → any (λ x. str_eq x id) b.ids ≡ true
  pub stored : All (λ id. (r : Run) × (get str_eq b.runs id ≡ some r)) b.ids
  pub shaped : All (λ id. is_run_id id ≡ true) b.ids
  pub kept : AllKept b.runs b.saved
  pub manifest : ((b.manifest ≡ none) × (b.ids ≡ [])) ⊎ Lists b.manifest b.ids

All-map :
    (P Q : String → Type 0) (xs : List String) → ((x : String) → P x → Q x) → All P xs → All Q xs
All-map P Q [] f h = tt
All-map P Q (x ∷ xs) f (h, hs) = (f x h, All-map P Q xs f hs)

manifest-after :
    (b c : Books)
    → c.ids ≡ b.ids
    → (c.manifest ≡ b.manifest) ⊎ Lists c.manifest c.ids
    → ((b.manifest ≡ none) × (b.ids ≡ [])) ⊎ Lists b.manifest b.ids
    → ((c.manifest ≡ none) × (c.ids ≡ [])) ⊎ Lists c.manifest c.ids
manifest-after b c same (inr new) old = inr new
manifest-after b c same (inl e) (inl (none_there, no_ids)) = inl (e ∙ none_there, same ∙ no_ids)
manifest-after b c same (inl e) (inr (state, there, version, ids)) =
    inr (state, e ∙ there, version, ids ∙ sym same)

module _ (b c : Books) (keyed : Keyed b.runs) where
  Change-AllKept : Change b c → AllKept b.runs b.saved → AllKept c.runs c.saved
  unfolding new_run
  Change-AllKept (unchanged e f i m) kept =
      subst (λ (x : Runs). AllKept x c.saved) (sym e)
        (subst (λ (x : Runs). AllKept b.runs x) (sym f) kept)
  Change-AllKept (opened now i count fresh shaped e f j m) kept =
      subst (λ (x : Runs). AllKept x c.saved) (sym e)
        (subst (λ (x : Runs). AllKept (set str_eq b.runs i (new_run now i count)) x) (sym f)
          (both-AllKept b.runs b.saved i (new_run now i count) refl kept))
  Change-AllKept (moved r s h mv e (inl f) j m) kept =
      subst (λ (x : Runs). AllKept x c.saved) (sym e)
        (subst (λ (x : Runs). AllKept (set str_eq b.runs s.id s) x) (sym f)
          (both-AllKept b.runs b.saved s.id s refl kept))
  Change-AllKept (moved r s h mv e (inr (f, on)) j m) kept =
      subst (λ (x : Runs). AllKept x c.saved) (sym e)
        (subst (λ (x : Runs). AllKept (set str_eq b.runs s.id s) x) (sym f)
          (memory-AllKept b.runs b.saved s.id s r
            (subst (λ (x : String). get str_eq b.runs x ≡ some r) (sym (Move-id r s mv)) h) was_on
            on kept))
    where
      was_on : is_running r.status ≡ true
      was_on = elim (Bool-cases (is_running r.status)) [
        | inl e ↦ e
        | inr e ↦ absurd (
            ground (
              arith,
              on,
              subst (λ (x : Run). is_running x.status ≡ false) (sym (Move-over r s mv e)) e,
            ))
      ]

  Change-named :
      Change b c
      → ((id : String) (r : Run)
          → get str_eq b.runs id ≡ some r
          → any (λ x. str_eq x id) b.ids ≡ true)
      → (id : String) (r : Run) → get str_eq c.runs id ≡ some r
      → any (λ x. str_eq x id) c.ids ≡ true
  unfolding any
  Change-named (unchanged e f j m) named id r h =
      subst (λ (x : List String). any (λ y. str_eq y id) x ≡ true) (sym j)
        (named id r (subst (λ (x : Runs). get str_eq x id ≡ some r) e h))
  Change-named (opened now i count fresh shaped e f j m) named id r h =
      subst (λ (x : List String). any (λ y. str_eq y id) x ≡ true) (sym j)
        (elim (get-written b.runs i (new_run now i count) id r
          (subst (λ (x : Runs). get str_eq x id ≡ some r) e h)) [
            | inl (same, new) ↦
                first (subst (λ (x : String). str_eq i x ≡ true) same (str_eq_self i))
            | inr old ↦ later (str_eq i id) (named id r old)
          ])
    where
      first : str_eq i id ≡ true → any (λ y. str_eq y id) (i ∷ b.ids) ≡ true
      first g = rw g refl

      later :
          (t : Bool)
          → any (λ y. str_eq y id) b.ids ≡ true
          → (str_eq i id || any (λ y. str_eq y id) b.ids) ≡ true
      later t g = ground (arith, g)
  Change-named (moved q s g mv e f j m) named id r h =
      subst (λ (x : List String). any (λ y. str_eq y id) x ≡ true) (sym j)
        (elim (get-written b.runs s.id s id r
          (subst (λ (x : Runs). get str_eq x id ≡ some r) e h)) [
            | inl (same, new) ↦ named id q (
                subst (λ (x : String). get str_eq b.runs x ≡ some q) (sym (Move-id q s mv) ∙ same)
                  g)
            | inr old ↦ named id r old
          ])

  after_all :
      Change b c
      → (x : String) → ((r : Run) × (get str_eq b.runs x ≡ some r))
      → (r : Run) × (get str_eq c.runs x ≡ some r)
  after_all change x (r, h) = let (s, g, mv) = Change-after b c x r change h in (s, g)

  same_ids :
      (ids : List String)
      → Change b c
      → c.ids ≡ ids
      → All (λ x. (r : Run) × (get str_eq b.runs x ≡ some r)) ids
      → All (λ x. (r : Run) × (get str_eq c.runs x ≡ some r)) c.ids
  same_ids ids change e old =
      subst (All (λ x. (r : Run) × (get str_eq c.runs x ≡ some r))) (sym e)
        (All-map _ _ ids (after_all change) old)

  Change-stored :
      Change b c
      → All (λ x. (r : Run) × (get str_eq b.runs x ≡ some r)) b.ids
      → All (λ x. (r : Run) × (get str_eq c.runs x ≡ some r)) c.ids
  Change-stored (unchanged e f j m) old = same_ids b.ids (unchanged e f j m) j old
  Change-stored (opened now i count fresh shaped e f j m) old =
      subst (All (λ x. (r : Run) × (get str_eq c.runs x ≡ some r))) (sym j) (
        (
          new_run now i count,
          subst (λ (x : Runs). get str_eq x i ≡ some (new_run now i count)) (sym e)
              (get-written_same b.runs i (new_run now i count)),
        ),
        All-map _ _ b.ids (after_all (opened now i count fresh shaped e f j m)) old,
      )
  Change-stored (moved q s g mv e f j m) old = same_ids b.ids (moved q s g mv e f j m) j old

  Change-shaped :
      Change b c → All (λ id. is_run_id id ≡ true) b.ids → All (λ id. is_run_id id ≡ true) c.ids
  Change-shaped (unchanged e f j m) old = subst (All (λ id. is_run_id id ≡ true)) (sym j) old
  Change-shaped (opened now i count fresh shaped e f j m) old =
      subst (All (λ id. is_run_id id ≡ true)) (sym j) (shaped, old)
  Change-shaped (moved q s g mv e f j m) old = subst (All (λ id. is_run_id id ≡ true)) (sym j) old

  Change-manifest :
      Change b c
      → ((b.manifest ≡ none) × (b.ids ≡ [])) ⊎ Lists b.manifest b.ids
      → ((c.manifest ≡ none) × (c.ids ≡ [])) ⊎ Lists c.manifest c.ids
  Change-manifest (unchanged e f j m) old = manifest-after b c j m old
  Change-manifest (opened now i count fresh shaped e f j m) old = inr m
  Change-manifest (moved q s g mv e f j m) old = manifest-after b c j m old

  Change-Filed : Change b c → Filed b → Filed c
  Change-Filed change f = record {
    named = Change-named change f.named;
    stored = Change-stored change f.stored;
    shaped = Change-shaped change f.shaped;
    kept = Change-AllKept change f.kept;
    manifest = Change-manifest change f.manifest;
  }

pub run_steps-Filed :
    (steps : List Step) (m : RunManager)
    → Keyed m.runs
    → DrawsNew steps m
    → Filed (books_of m)
    → Filed (books_of (run_steps steps m))
unfolding run_steps
run_steps-Filed [] m keyed fresh f = f
run_steps-Filed (s ∷ ss) m keyed (fresh, rest) f =
    run_steps-Filed ss (step s m) (step-Keyed s m fresh keyed) rest
      (Change-Filed (books_of m) (books_of (step s m)) keyed (step-Changes s m keyed fresh) f)

pub empty_manager-Filed : (secrets : List Chars) → Filed (books_of (empty_manager secrets))
unfolding get any
empty_manager-Filed secrets = record {
  named = λ id r h. absurd (ground arith);
  stored = tt;
  shaped = tt;
  kept = λ id r h. absurd (ground arith);
  manifest = inl (refl, refl);
}
