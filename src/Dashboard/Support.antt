-- ===== src/Dashboard/Support.antt =====
-- packages/dashboard/src/run-manager.ts: the receipts behind a result that assertResult lets pass.
use mathlib.Core.Path.{subst}
use mathlib.Core.Option.{some-injective}
use repayd.Common.{
  ◌≡◌, refl, sym, ◌∙◌, String, Bool, true, false, not, ◌&&◌, ◌||◌, Option, none, some, List, [],
  ◌∷◌, str_eq, str_eq_sound, same_address, any, find, All, inl, inr, arith, Bool-cases,
}
use repayd.Coverage.Schema.{ok}
use repayd.Coverage.Bounds.{then-ok}
use repayd.Demo.Bus.{DemoCheck}
use repayd.Dashboard.Run.{Run, RunResult, Receipt, present}
use repayd.Dashboard.Verified.{
  outcomes_verified, is_success, receipt_of, confirms, supported_by, is_supported,
  require_supported, has_hash, check_of, require_evidence, evidence_names, assert_result,
}
use repayd.Dashboard.Completion.{Passes, assert_result-Passes}

module _ {A : Type 0} (p : A → Bool) where
  -- what Array.find finds passes its test, and every test that all elements pass
  find-passes : (xs : List A) (x : A) → find p xs ≡ some x → p x ≡ true
  unfolding find
  find-passes [] x h = absurd (ground arith)
  find-passes (y ∷ ys) x h = elim (Bool-cases (p y)) [
    | inl e ↦ subst (λ z. p z ≡ true) (some-injective y x (sym (rw e refl) ∙ h)) e
    | inr e ↦ find-passes ys x (sym (rw e refl) ∙ h)
  ]

  find-All : (P : A → Type 0) (xs : List A) (x : A) → All P xs → find p xs ≡ some x → P x
  unfolding find
  find-All P [] x all h = absurd (ground arith)
  find-All P (y ∷ ys) x (a, all) h = elim (Bool-cases (p y)) [
    | inl e ↦ subst P (some-injective y x (sym (rw e refl) ∙ h)) a
    | inr e ↦ find-All P ys x all (sym (rw e refl) ∙ h)
  ]

none_fails :
    (checks : List DemoCheck)
    → any (λ c. not c.passed) checks ≡ false
    → All (λ (c : DemoCheck). c.passed ≡ true) checks
unfolding any
none_fails [] h = tt
none_fails (c ∷ cs) h = (ground (arith, h), none_fails cs (ground (arith, h)))

all_supported :
    (txs : List Receipt) (checks : List DemoCheck)
    → require_supported txs checks ≡ ok tt
    → All (λ c. is_supported txs c ≡ true) checks
all_supported txs [] h = tt
all_supported txs (c ∷ cs) h =
    let (first, rest) = then-ok (is_supported txs c) _ (require_supported txs cs) tt h in
    (first, all_supported txs cs rest)

all_evident :
    (checks : List DemoCheck) (names : List String) (name : String)
    → require_evidence checks names ≡ ok tt
    → any (λ n. str_eq n name) names ≡ true
    → has_hash (check_of checks name) ≡ true
unfolding any
all_evident checks [] name h g = absurd (ground arith)
all_evident checks (n ∷ ns) name h g =
    let (first, rest) =
      then-ok (has_hash (check_of checks n)) _ (require_evidence checks ns) tt h in
    elim (Bool-cases (str_eq n name)) [
      | inl e ↦
          subst (λ (x : String). has_hash (check_of checks x) ≡ true) (str_eq_sound n name e) first
      | inr e ↦ all_evident checks ns name rest (ground (arith, g, e))
    ]

-- a receipt of the run that supports a check of a name
pub record Supports (run : Run) (name : String) (c : DemoCheck) (tx : Receipt) : Type 0 where
  pub check_name : c.name ≡ name
  pub passed : c.passed ≡ true
  pub hash : String
  pub check_hash : present c.tx_hash ≡ some hash
  pub found : receipt_of run.transactions hash ≡ some tx
  pub same_hash : same_address tx.hash hash ≡ true
  pub status : (str_eq name "policy-block" || is_success tx.status) ≡ true

supports :
    (run : Run) (name : String) (c : DemoCheck)
    → c.name ≡ name
    → c.passed ≡ true
    → has_hash (some c) ≡ true
    → is_supported run.transactions c ≡ true
    → (tx : Receipt) × Supports run name c tx
unfolding receipt_of
supports run name c named passed has supported = with_hash (present c.tx_hash) refl has supported
  where
    with_receipt :
        (hash : String)
        → present c.tx_hash ≡ some hash
        → (o : Option Receipt) → receipt_of run.transactions hash ≡ o
        → confirms c o ≡ true
        → (tx : Receipt) × Supports run name c tx
    with_receipt hash e none f h = absurd (ground arith)
    with_receipt hash e (some tx) f h = (
      tx,
      record {
        check_name = named;
        passed = passed;
        hash = hash;
        check_hash = e;
        found = f;
        same_hash =
            find-passes (λ (item : Receipt). same_address item.hash hash) run.transactions tx f;
        status =
            subst (λ (x : String). (str_eq x "policy-block" || is_success tx.status) ≡ true) named
              h;
      },
    )

    with_hash :
        (o : Option String)
        → present c.tx_hash ≡ o
        → elim o [ none ↦ false | some h ↦ true ] ≡ true
        → supported_by run.transactions c o ≡ true
        → (tx : Receipt) × Supports run name c tx
    with_hash none e h s = absurd (ground arith)
    with_hash (some hash) e h s = with_receipt hash e (receipt_of run.transactions hash) refl s

-- When a result passes assertResult, each of the five outcomes but provenance has a passed check with
-- a hash, and a receipt of the run has that hash, in any case of its letters. But for the blocked
-- policy, that receipt's transaction has succeeded.
pub assert_result-Supports :
    (run : Run) (r : RunResult) (name : String)
    → assert_result run r ≡ ok tt
    → any (λ n. str_eq n name) evidence_names ≡ true
    → (c : DemoCheck) × (tx : Receipt) × (check_of r.checks name ≡ some c) × Supports run name c tx
unfolding outcomes_verified check_of
assert_result-Supports run r name h g =
    go (check_of r.checks name) refl (all_evident r.checks evidence_names name p.named g)
  where
    p : Passes run r
    p = assert_result-Passes run r h

    all_passed : All (λ (c : DemoCheck). c.passed ≡ true) r.checks
    all_passed = none_fails r.checks (second _ _ p.outcomes)
      where
        second : (b c : Bool) → (b && not c) ≡ true → c ≡ false
        second b c e = ground arith

    go :
        (o : Option DemoCheck)
        → check_of r.checks name ≡ o
        → has_hash o ≡ true
        → (c : DemoCheck) × (tx : Receipt) × (check_of r.checks name ≡ some c)
          × Supports run name c tx
    go none e has = absurd (ground arith)
    go (some c) e has =
        let named =
          str_eq_sound c.name name
            (find-passes (λ (x : DemoCheck). str_eq x.name name) r.checks c e) in
        let passed =
          find-All (λ (x : DemoCheck). str_eq x.name name) (λ x. x.passed ≡ true) r.checks c
            all_passed e in
        let supported =
          find-All (λ (x : DemoCheck). str_eq x.name name)
            (λ x. is_supported run.transactions x ≡ true) r.checks c
            (all_supported run.transactions r.checks p.supported) e in
        let (tx, s) = supports run name c named passed has supported in (c, tx, e, s)
