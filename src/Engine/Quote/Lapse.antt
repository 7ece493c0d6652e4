-- ===== src/Engine/Quote/Lapse.antt =====
-- The claim load of packages/engine/src/pricing.ts lapses: the scar is the record, the load is the term.
use repayd.Common.{ℕ, ◌≡◌, ap, sym, ◌∙◌, false, arith}
use repayd.Engine.Quote.{
  DrivingRecord, Loaded, has_recent_claim, load_claim, loads, loads_before, loads_after, quote_of,
  quote,
}

load_claim-lapsed : (n : ℕ) (l : Loaded) → load_claim false n l ≡ l
unfolding load_claim
load_claim-lapsed n l = ground arith

-- When no paid claim lies within six months, the lifetime claims count for nothing in a quote: premium,
-- multiplier and reasons are those of a record with any other number of them.
pub quote-lapsed :
    (r : DrivingRecord) (n cap : ℕ)
    → has_recent_claim r ≡ false
    → quote (record r { lifetime_claims = n }) cap ≡ quote r cap
unfolding quote loads loads_before loads_after
quote-lapsed r n cap h =
    ap (λ (l : Loaded). quote_of cap (loads_after r l)) (lapsed n ∙ sym (lapsed r.lifetime_claims))
  where
    lapsed : (m : ℕ) → load_claim (has_recent_claim r) m (loads_before r) ≡ loads_before r
    lapsed m = rw h (load_claim-lapsed m (loads_before r))
