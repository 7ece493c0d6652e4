-- ===== src/Dashboard/Receipts.antt =====
-- packages/dashboard/src/run-manager.ts: the receipts of a run are distinct and lie in its window.
use repayd.Common.{
  ℕ, ◌≡◌, refl, Bool, true, false, Option, none, some, List, [], ◌∷◌, ◌++◌, same_address, any, find,
  All, if◌then◌else◌, arith, ℤ, pos, ◌≤ℤ◌,
}
use repayd.Dashboard.Run.{Run, Receipt}
use repayd.Dashboard.Verified.{receipt_of}
use repayd.Dashboard.Markers.{min_block, max_block}

-- no receipt has the hash of a later one, in any case of its letters
abbrev pub DistinctHashes : List Receipt → Type 0
DistinctHashes [] = Unit
DistinctHashes (t ∷ ts) = (any (λ u. same_address t.hash u.hash) ts ≡ false) × DistinctHashes ts

abbrev pub AtLeast : Option ℤ → ℕ → Type 0
AtLeast none n = ⊥
AtLeast (some a) n = a ≤ℤ pos n

abbrev pub AtMost : Option ℤ → ℕ → Type 0
AtMost none n = ⊥
AtMost (some a) n = pos n ≤ℤ a

abbrev pub InWindow : Option ℤ → Option ℤ → Receipt → Type 0
InWindow start last t = AtLeast start t.block_number × AtMost last t.block_number

-- the receipts of a run, with the window of its blocks
abbrev pub IsTraced : List Receipt → Option ℤ → Option ℤ → Type 0
IsTraced txs start last = DistinctHashes txs × All (InWindow start last) txs

abbrev pub Traced : Run → Type 0
Traced run = IsTraced run.transactions run.start_block run.end_block

any-snoc :
    (p : Receipt → Bool) (ts : List Receipt) (t : Receipt)
    → any p ts ≡ false
    → p t ≡ false
    → any p (ts ++ (t ∷ [])) ≡ false
unfolding any
any-snoc p [] t h ht = ground arith
any-snoc p (x ∷ xs) t h ht = ground (arith, any-snoc p xs t)

pub DistinctHashes-snoc :
    (ts : List Receipt) (t : Receipt)
    → DistinctHashes ts
    → receipt_of ts t.hash ≡ none
    → DistinctHashes (ts ++ (t ∷ []))
unfolding receipt_of find any
DistinctHashes-snoc [] t d h = (refl, tt)
DistinctHashes-snoc (x ∷ xs) t (dx, d) h =
    let (other, rest) = skipped (same_address x.hash t.hash) x _ h in
    (any-snoc (λ u. same_address x.hash u.hash) xs t dx other, DistinctHashes-snoc xs t d rest)
  where
    skipped :
        (b : Bool) (y : Receipt) (o : Option Receipt)
        → (if b then some y else o) ≡ none
        → (b ≡ false) × (o ≡ none)
    skipped true y o e = absurd (ground arith)
    skipped false y o e = (refl, e)

pub All-snoc :
    (P : Receipt → Type 0) (ts : List Receipt) (t : Receipt)
    → All P ts
    → P t
    → All P (ts ++ (t ∷ []))
All-snoc P [] t h ht = (ht, tt)
All-snoc P (x ∷ xs) t (hx, h) ht = (hx, All-snoc P xs t h ht)

pub All-weaken :
    (P Q : Receipt → Type 0) (ts : List Receipt) → ((t : Receipt) → P t → Q t) → All P ts → All Q ts
All-weaken P Q [] f h = tt
All-weaken P Q (x ∷ xs) f (hx, h) = (f x hx, All-weaken P Q xs f h)

-- the window only grows, and it covers what it grows by
pub min_block-AtLeast :
    (start : Option ℤ) (b : ℤ) (n : ℕ) → AtLeast start n → AtLeast (min_block start b) n
min_block-AtLeast none b n h = absurd h
min_block-AtLeast (some a) b n h = ground arith

pub min_block-covers : (start : Option ℤ) (n : ℕ) → AtLeast (min_block start (pos n)) n
min_block-covers none n = omega arith
min_block-covers (some a) n = ground arith

pub max_block-AtMost :
    (last : Option ℤ) (b : ℤ) (n : ℕ) → AtMost last n → AtMost (max_block last b) n
max_block-AtMost none b n h = absurd h
max_block-AtMost (some a) b n h = ground arith

pub max_block-covers : (last : Option ℤ) (n : ℕ) → AtMost (max_block last (pos n)) n
max_block-covers none n = omega arith
max_block-covers (some a) n = ground arith
