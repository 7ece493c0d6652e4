-- ===== src/Demo/Once.antt =====
-- What packages/demo/src/bus.ts has written in one run: a result at most once, a transaction once.
use repayd.Common.{
  ++-[], ℕ, ◌+◌, ◌≡◌, refl, ap, ◌∙◌, String, Bool, true, false, ◌||◌, not, Option, none, some, List,
  [], ◌∷◌, ◌++◌, arith, if◌then◌else◌, any, length, str_eq,
}
use repayd.Demo.Bus.{
  RunTransaction, DemoResult, Line, event_line, tx_line, deployment_line, result_line, Bus, publish,
  publish_transaction, publish_deployment, has_checks, has_transactions, publish_result, end_demo,
}

abbrev pub has_hash : String → RunTransaction → Bool
has_hash hash item = str_eq item.hash hash

-- no transaction has the hash of a later one
abbrev pub Distinct : List RunTransaction → Type 0
Distinct [] = Unit
Distinct (t ∷ ts) = (any (λ u. str_eq t.hash u.hash) ts ≡ false) × Distinct ts

none_yet : (c : Bool) → c ≡ false → ◌≡◌ {A = ℕ} (if c then 1 else 0) 0
none_yet c h = ground arith

any-snoc :
    (p : RunTransaction → Bool) (ts : List RunTransaction) (t : RunTransaction)
    → any p ts ≡ false
    → p t ≡ false
    → any p (ts ++ (t ∷ [])) ≡ false
unfolding any
any-snoc p [] t h ht = ground arith
any-snoc p (x ∷ xs) t h ht = ground (arith, any-snoc p xs t)

Distinct-snoc :
    (ts : List RunTransaction) (t : RunTransaction)
    → Distinct ts
    → any (λ item. str_eq item.hash t.hash) ts ≡ false
    → Distinct (ts ++ (t ∷ []))
unfolding any
Distinct-snoc [] t d h = (refl, tt)
Distinct-snoc (x ∷ xs) t (dx, d) h = (
  any-snoc (λ u. str_eq x.hash u.hash) xs t dx (ground arith),
  Distinct-snoc xs t d (ground arith),
)

module _ (DemoEvent Deployment : Type 0) where
  -- a call during a run
  pub data BusCall : Type 0 where
    event : DemoEvent → BusCall
    transaction : RunTransaction → BusCall
    deployment : Deployment → ℕ → BusCall
    result : DemoResult → BusCall
    stop : BusCall

module _ {DemoEvent Deployment : Type 0} where
  abbrev pub results : List (Line DemoEvent Deployment) → List DemoResult
  results [] = []
  results (result_line r ∷ ls) = r ∷ results ls
  results (_ ∷ ls) = results ls

  abbrev pub transactions_of : List (Line DemoEvent Deployment) → List RunTransaction
  transactions_of [] = []
  transactions_of (tx_line t ∷ ls) = t ∷ transactions_of ls
  transactions_of (_ ∷ ls) = transactions_of ls

  -- a call that throws changes nothing
  abbrev or_same :
      Bus DemoEvent Deployment → Option (Bus DemoEvent Deployment) → Bus DemoEvent Deployment
  or_same b none = b
  or_same b (some next) = next

  unfoldable pub step :
      BusCall DemoEvent Deployment → Bus DemoEvent Deployment → Bus DemoEvent Deployment
  unfolding publish publish_transaction publish_deployment publish_result end_demo
  step (event e) b = publish e b
  step (transaction t) b = publish_transaction t b
  step (deployment d n) b = or_same b (publish_deployment d n b)
  step (result r) b = or_same b (publish_result r b)
  step stop b = end_demo b

  unfoldable pub run :
      List (BusCall DemoEvent Deployment) → Bus DemoEvent Deployment → Bus DemoEvent Deployment
  unfolding step
  run [] b = b
  run (c ∷ cs) b = run cs (step c b)

  -- a bus that startDemo has just prepared, with no output yet
  abbrev pub started : Bus DemoEvent Deployment
  started = record {
    output = [];
    history = [];
    transactions = [];
    demo_running = true;
    result_published = false;
  }

  record IsHonest (b : Bus DemoEvent Deployment) : Type 0 where
    once : length (results b.output) ≡ (if b.result_published then 1 else 0)
    shown : transactions_of b.output ≡ b.transactions
    distinct : Distinct b.transactions

  results-append :
      (ls : List (Line DemoEvent Deployment)) (l : Line DemoEvent Deployment)
      → length (results (ls ++ (l ∷ []))) ≡ length (results ls) + length (results (l ∷ []))
  results-append [] l = omega arith
  results-append (result_line r ∷ ls) l = omega (arith, results-append ls l)
  results-append (event_line e ∷ ls) l = results-append ls l
  results-append (tx_line t ∷ ls) l = results-append ls l
  results-append (deployment_line d n ∷ ls) l = results-append ls l

  transactions_of-append :
      (ls : List (Line DemoEvent Deployment)) (l : Line DemoEvent Deployment)
      → transactions_of (ls ++ (l ∷ [])) ≡ transactions_of ls ++ transactions_of (l ∷ [])
  transactions_of-append [] l = refl
  transactions_of-append (result_line r ∷ ls) l = transactions_of-append ls l
  transactions_of-append (event_line e ∷ ls) l = transactions_of-append ls l
  transactions_of-append (tx_line t ∷ ls) l = ap (λ x. t ∷ x) (transactions_of-append ls l)
  transactions_of-append (deployment_line d n ∷ ls) l = transactions_of-append ls l

  -- one more line that is neither a result nor a transaction
  plain_line-IsHonest :
      (b : Bus DemoEvent Deployment) (l : Line DemoEvent Deployment) (h : List DemoEvent)
      → results (l ∷ []) ≡ []
      → transactions_of (l ∷ []) ≡ []
      → IsHonest b
      → IsHonest (record b { output = b.output ++ (l ∷ []); history = h })
  plain_line-IsHonest b l h no_result no_tx honest = record {
    once =
        results-append b.output l
        ∙ omega (arith, ap (λ (rs : List DemoResult). length rs) no_result, honest.once);
    shown = transactions_of-append b.output l ∙ rw (no_tx, honest.shown) (++-[] b.transactions);
    distinct = honest.distinct;
  }

  if-IsHonest :
      (c : Bool) (x y : Bus DemoEvent Deployment)
      → IsHonest x
      → (c ≡ false → IsHonest y)
      → IsHonest (if c then x else y)
  if-IsHonest true x y hx hy = hx
  if-IsHonest false x y hx hy = hy refl

  or_same-IsHonest :
      (c : Bool) (b : Bus DemoEvent Deployment) (o : Option (Bus DemoEvent Deployment))
      → IsHonest b
      → (c ≡ false → IsHonest (or_same b o))
      → IsHonest (or_same b (if c then none else o))
  or_same-IsHonest true b o hb ho = hb
  or_same-IsHonest false b o hb ho = ho refl

  transaction-IsHonest :
      (t : RunTransaction) (b : Bus DemoEvent Deployment)
      → any (λ item. str_eq item.hash t.hash) b.transactions ≡ false
      → IsHonest b
      → IsHonest (record b {
        output = b.output ++ (tx_line t ∷ []);
        transactions = b.transactions ++ (t ∷ []);
      })
  transaction-IsHonest t b fresh honest = record {
    once = results-append b.output (tx_line t) ∙ omega (arith, honest.once);
    shown =
        transactions_of-append b.output (tx_line t)
        ∙ ap (λ (ts : List RunTransaction). ts ++ (t ∷ [])) honest.shown;
    distinct = Distinct-snoc b.transactions t honest.distinct fresh;
  }

  result-IsHonest :
      (r : DemoResult) (b : Bus DemoEvent Deployment)
      → b.result_published ≡ false
      → IsHonest b
      → IsHonest (record b { output = b.output ++ (result_line r ∷ []); result_published = true })
  result-IsHonest r b unpublished honest = record {
    once =
        results-append b.output (result_line r)
        ∙ omega (arith, honest.once, none_yet b.result_published unpublished);
    shown =
        transactions_of-append b.output (result_line r)
        ∙ ap (λ (ts : List RunTransaction). ts ++ []) honest.shown
        ∙ ++-[] b.transactions;
    distinct = honest.distinct;
  }

  step-IsHonest :
      (c : BusCall DemoEvent Deployment) (b : Bus DemoEvent Deployment)
      → IsHonest b
      → IsHonest (step c b)
  unfolding step publish publish_transaction publish_deployment publish_result end_demo
  step-IsHonest (event e) b honest =
      if-IsHonest (not b.demo_running) b _ honest
        (λ _. plain_line-IsHonest b (event_line e) (b.history ++ (e ∷ [])) refl refl honest)
  step-IsHonest (transaction t) b honest = if-IsHonest (not b.demo_running) b _ honest (λ _.
      if-IsHonest (any (λ item. str_eq item.hash t.hash) b.transactions) b _ honest
        (λ fresh. transaction-IsHonest t b fresh honest))
  step-IsHonest (deployment d n) b honest =
      or_same-IsHonest (not b.demo_running) b _ honest
        (λ _. plain_line-IsHonest b (deployment_line d n) b.history refl refl honest)
  step-IsHonest (result r) b honest =
      or_same-IsHonest (not b.demo_running || b.result_published) b _ honest (λ open_now.
        or_same-IsHonest (not (has_checks r)) b _ honest (λ _.
          or_same-IsHonest (not (has_transactions r b.transactions)) b _ honest (λ _.
            result-IsHonest r b (unpublished (not b.demo_running) b.result_published open_now)
              honest)))
    where
      unpublished : (c d : Bool) → (c || d) ≡ false → d ≡ false
      unpublished c d h = ground arith
  step-IsHonest stop b honest = record {
    once = honest.once;
    shown = honest.shown;
    distinct = honest.distinct;
  }

  run-IsHonest :
      (calls : List (BusCall DemoEvent Deployment)) (b : Bus DemoEvent Deployment)
      → IsHonest b
      → IsHonest (run calls b)
  unfolding run
  run-IsHonest [] b honest = honest
  run-IsHonest (c ∷ cs) b honest = run-IsHonest cs (step c b) (step-IsHonest c b honest)

  -- Whatever is called during a run, the output has one result line if a result was published and none
  -- otherwise, and its transaction lines are the transactions, of which no two have one hash.
  pub output-run :
      (calls : List (BusCall DemoEvent Deployment))
      → let b = run calls started in
        (length (results b.output) ≡ (if b.result_published then 1 else 0))
        × (transactions_of b.output ≡ b.transactions)
        × Distinct b.transactions
  output-run calls =
      let honest =
        run-IsHonest calls started (record { once = refl; shown = refl; distinct = tt }) in
      (honest.once, honest.shown, honest.distinct)
