-- ===== src/Dashboard/Recovery.antt =====
-- packages/dashboard/src/run-manager.ts: what a manager restores after one that has stopped at any
-- point.
use mathlib.Core.Path.{subst}
use mathlib.Core.Option.{some-injective}
use repayd.Common.{
  ++-[], ++-assoc, ℕ, ◌≡◌, refl, sym, ap, ◌∙◌, String, Bool, true, false, some, List, [], ◌∷◌, ◌++◌,
  str_eq, str_eq_sound, str_eq_self, any, All, if◌then◌else◌, inl, inr, ◌⊎◌, Bool-cases, arith,
}
use repayd.Coverage.Assoc.{get, set}
use repayd.Coverage.Schema.{ok}
use repayd.Dashboard.Run.{Run, is_running, is_run_id}
use repayd.Dashboard.Manager.{RunManager}
use repayd.Dashboard.Restore.{interrupted_run, settled_run, join_run, restore_found, restore_ids}
use repayd.Dashboard.History.{get-written, get-kept, get-written_same}
use repayd.Dashboard.Changes.{Runs}

module _ (now : ℕ) where
  pub settled_run-over : (r : Run) → is_running (settled_run now r).status ≡ false
  unfolding interrupted_run
  settled_run-over r = elim (Bool-cases (is_running r.status)) [
    | inl e ↦ rw e refl
    | inr e ↦ rw e e
  ]

  pub settled_run-same : (r : Run) → is_running r.status ≡ false → settled_run now r ≡ r
  settled_run-same r e = rw e refl

  settled_run-twice : (r : Run) → settled_run now (settled_run now r) ≡ settled_run now r
  settled_run-twice r = settled_run-same (settled_run now r) (settled_run-over r)

  settled_run-id : (r : Run) → (settled_run now r).id ≡ r.id
  unfolding interrupted_run
  settled_run-id r = elim (Bool-cases (is_running r.status)) [
    | inl e ↦ rw e refl
    | inr e ↦ rw e refl
  ]

  -- part of the files have been read: a file is as before or settled, and a run in memory is the
  -- settled one of its file
  pub record Reads (files : Runs) (m : RunManager) : Type 0 where
    pub disk :
        (id : String) (s : Run)
        → get str_eq files id ≡ some s
        → s.id ≡ id
        → (q : Run) × (get str_eq m.saved id ≡ some q)
          × (q.id ≡ id)
          × (settled_run now q ≡ settled_run now s)
    pub memory :
        (id : String) (q : Run)
        → get str_eq m.runs id ≡ some q
        → (s : Run) × (get str_eq files id ≡ some s) × (q ≡ settled_run now s)

  module _ (files : Runs) (m : RunManager) (id : String) (s q : Run) where
    join_run-memory :
        get str_eq files id ≡ some s
        → settled_run now q ≡ settled_run now s
        → Reads files m
        → (i : String) (r : Run) → get str_eq (join_run now id q m).runs i ≡ some r
        → (t : Run) × (get str_eq files i ≡ some t) × (r ≡ settled_run now t)
    join_run-memory h settled reads i r g = elim (get-written m.runs id (settled_run now q) i r g) [
      | inl (same, new) ↦
          (s, subst (λ (x : String). get str_eq files x ≡ some s) same h, sym new ∙ settled)
      | inr old ↦ reads.memory i r old
    ]

    join_run-disk :
        get str_eq files id ≡ some s
        → get str_eq m.saved id ≡ some q
        → q.id ≡ id
        → settled_run now q ≡ settled_run now s
        → Reads files m
        → (i : String) (t : Run) → get str_eq files i ≡ some t
        → t.id ≡ i
        → (p : Run) × (get str_eq (join_run now id q m).saved i ≡ some p)
          × (p.id ≡ i)
          × (settled_run now p ≡ settled_run now t)
    join_run-disk h there own settled reads i t g named =
        either (is_running q.status) (reads.disk i t g named)
      where
        Entry : Runs → Type 0
        Entry saved =
            (p : Run) × (get str_eq saved i ≡ some p)
            × (p.id ≡ i)
            × (settled_run now p ≡ settled_run now t)

        written : Entry m.saved → Entry (set str_eq m.saved id (settled_run now q))
        written (p, f, own_id, same_end) = elim (get-kept m.saved id (settled_run now q) i p f) [
          | inr old ↦ (p, old, own_id, same_end)
          | inl (same, new) ↦
              let equal : s ≡ t =
                some-injective s t (sym h ∙ ap (λ (x : String). get str_eq files x) same ∙ g) in
              (
                settled_run now q,
                new,
                settled_run-id q ∙ own ∙ same,
                settled_run-twice q ∙ settled ∙ ap (λ (x : Run). settled_run now x) equal,
              )
        ]

        either :
            (b : Bool)
            → Entry m.saved
            → Entry (if b then set str_eq m.saved id (settled_run now q) else m.saved)
        either true old = written old
        either false old = old

    -- reading one more file
    join_run-Reads :
        get str_eq files id ≡ some s
        → get str_eq m.saved id ≡ some q
        → q.id ≡ id
        → settled_run now q ≡ settled_run now s
        → Reads files m
        → Reads files (join_run now id q m)
    join_run-Reads h there own settled reads = record {
      disk = join_run-disk h there own settled reads;
      memory = join_run-memory h settled reads;
    }

  -- each of the ids that are left to read has its file
  abbrev pub HasFiles : Runs → List String → Type 0
  HasFiles files ids =
      All (λ id. (is_run_id id ≡ true) × ((s : Run) × (get str_eq files id ≡ some s) × (s.id ≡ id)))
        ids

  pub record Reading (files : Runs) (m n : RunManager) (ids : List String) : Type 0 where
    pub reads : Reads files n
    pub listed : n.ids ≡ m.ids ++ ids
    pub idle : (n.active_run_id ≡ m.active_run_id) × (n.child ≡ m.child)
    pub keeps :
        (id : String) (s : Run)
        → get str_eq files id ≡ some s
        → (any (λ x. str_eq x id) ids ≡ true) ⊎ (get str_eq m.runs id ≡ some (settled_run now s))
        → get str_eq n.runs id ≡ some (settled_run now s)

  restore_found-ok :
      (m : RunManager) (id : String) (q : Run)
      → q.id ≡ id
      → restore_found now id (some q) m ≡ ok (join_run now id q m)
  restore_found-ok m id q own = rw (own, str_eq_self id) refl

  pub restore_ids-ok :
      (files : Runs) (ids : List String) (m : RunManager)
      → HasFiles files ids
      → Reads files m
      → (n : RunManager) × (restore_ids now ids m ≡ ok n) × Reading files m n ids
  unfolding restore_ids any
  restore_ids-ok files [] m h r = (
    m,
    refl,
    record {
      reads = r;
      listed = sym (++-[] m.ids);
      idle = (refl, refl);
      keeps = λ id s g x. elim x [ inl e ↦ absurd (ground arith) | inr e ↦ e ];
    },
  )
  restore_ids-ok files (id ∷ ids) m ((shaped, (s, h, named)), rest) r =
      let (q, there, own, settled) = r.disk id s h named in
      let joined = join_run now id q m in
      let (n, e, x) =
        restore_ids-ok files ids joined rest
          (join_run-Reads files m id s q h there own settled r) in
      (
        n,
        rw (shaped, there, restore_found-ok m id q own) e,
        record {
          reads = x.reads;
          listed = x.listed ∙ ++-assoc m.ids (id ∷ []) ids;
          idle = x.idle;
          keeps = λ i t g how. x.keeps i t g (carry q there settled i t g how);
        },
      )
    where
      carry :
          (q : Run)
          → get str_eq m.saved id ≡ some q
          → settled_run now q ≡ settled_run now s
          → (i : String) (t : Run) → get str_eq files i ≡ some t
          → (any (λ y. str_eq y i) (id ∷ ids) ≡ true)
            ⊎ (get str_eq m.runs i ≡ some (settled_run now t))
          → (any (λ y. str_eq y i) ids ≡ true)
            ⊎ (get str_eq (join_run now id q m).runs i ≡ some (settled_run now t))
      carry q there settled i t g (inr old) =
          elim (get-kept m.runs id (settled_run now q) i (settled_run now t) old) [
            | inl (same, new) ↦ inr (new ∙ ap (λ (x : Run). some x) (settled ∙ at_end same))
            | inr kept ↦ inr kept
          ]
        where
          at_end : id ≡ i → settled_run now s ≡ settled_run now t
          at_end same =
              ap (λ (x : Run). settled_run now x)
                (some-injective s t (sym h ∙ ap (λ (x : String). get str_eq files x) same ∙ g))
      carry q there settled i t g (inl listed) = elim (Bool-cases (str_eq id i)) [
        | inr e ↦ inl (ground (arith, listed, e))
        | inl e ↦
            let same = str_eq_sound id i e in
            inr (
              subst
                (λ (x : String).
                  get str_eq (set str_eq m.runs id (settled_run now q)) x
                  ≡ some (settled_run now t))
                same
                (get-written_same m.runs id (settled_run now q)
                  ∙ ap (λ (x : Run). some x)
                      (settled
                        ∙ ap (λ (x : Run). settled_run now x)
                            (some-injective s t
                              (sym h ∙ ap (λ (x : String). get str_eq files x) same ∙ g)))))
      ]
