-- ===== src/Hedera/Meter.antt =====
-- packages/hedera/src/pricing-meter.ts: the fee schedule and the meter of served calls.
use repayd.Common.{ℕ, ◌+◌, ◌*◌, ◌≡◌, refl, List, [], ◌∷◌, arith}

pub data EndpointId : Type 0 where
  quote verdicts resume : EndpointId

abbrev pub price_tinybars : EndpointId → ℕ
price_tinybars quote = 100000
price_tinybars verdicts = 200000
price_tinybars resume = 150000

-- a number for each endpoint
pub record PerEndpoint : Type 0 where
  pub of_quote : ℕ
  pub of_verdicts : ℕ
  pub of_resume : ℕ

abbrev pub add_to : EndpointId → ℕ → PerEndpoint → PerEndpoint
add_to quote n p = record p { of_quote = p.of_quote + n }
add_to verdicts n p = record p { of_verdicts = p.of_verdicts + n }
add_to resume n p = record p { of_resume = p.of_resume + n }

pub record CallMeter : Type 0 where
  pub counts : PerEndpoint
  pub tinybars : PerEndpoint

abbrev pub new_meter : CallMeter
new_meter =
    let zeros : PerEndpoint = record { of_quote = 0; of_verdicts = 0; of_resume = 0 } in
    record { counts = zeros; tinybars = zeros }

unfoldable pub record_call : EndpointId → CallMeter → CallMeter
record_call id m = record m {
  counts = add_to id 1 m.counts;
  tinybars = add_to id (price_tinybars id) m.tinybars;
}

pub record Snapshot : Type 0 where
  pub counts : PerEndpoint
  pub billed_tinybars : PerEndpoint
  pub total_tinybars : ℕ

unfoldable pub snapshot : CallMeter → Snapshot
snapshot m = record {
  counts = m.counts;
  billed_tinybars = m.tinybars;
  total_tinybars = m.tinybars.of_quote + m.tinybars.of_verdicts + m.tinybars.of_resume;
}

unfoldable pub record_calls : List EndpointId → CallMeter → CallMeter
unfolding record_call
record_calls [] m = m
record_calls (id ∷ ids) m = record_calls ids (record_call id m)

-- what a list of calls costs by the fee schedule
abbrev pub cost : List EndpointId → ℕ
cost [] = 0
cost (id ∷ ids) = price_tinybars id + cost ids

abbrev pub billed : PerEndpoint → ℕ
billed counts = counts.of_quote * 100000 + counts.of_verdicts * 200000 + counts.of_resume * 150000

-- what is true of a meter after calls that have cost an amount
record Balances (m : CallMeter) (spent : ℕ) : Type 0 where
  total : (snapshot m).total_tinybars ≡ spent
  by_counts : billed m.counts ≡ spent

record_call-Balances :
    (id : EndpointId) (m : CallMeter) (spent : ℕ)
    → Balances m spent
    → Balances (record_call id m) (spent + price_tinybars id)
unfolding record_call snapshot
record_call-Balances quote m spent b = record {
  total = omega (arith, b.total);
  by_counts = omega (arith, b.by_counts);
}
record_call-Balances verdicts m spent b = record {
  total = omega (arith, b.total);
  by_counts = omega (arith, b.by_counts);
}
record_call-Balances resume m spent b = record {
  total = omega (arith, b.total);
  by_counts = omega (arith, b.by_counts);
}

record_calls-Balances :
    (calls : List EndpointId) (m : CallMeter) (spent : ℕ)
    → Balances m spent
    → Balances (record_calls calls m) (spent + cost calls)
unfolding record_calls
record_calls-Balances [] m spent b = record {
  total = omega (arith, b.total);
  by_counts = omega (arith, b.by_counts);
}
record_calls-Balances (id ∷ ids) m spent b =
    let rest =
      record_calls-Balances ids (record_call id m) (spent + price_tinybars id)
        (record_call-Balances id m spent b) in
    record { total = omega (arith, rest.total); by_counts = omega (arith, rest.by_counts) }

-- After any calls the snapshot's total is what they cost by the fee schedule, and it is also what the
-- counts of the snapshot cost.
pub snapshot-record_calls :
    (calls : List EndpointId)
    → ((snapshot (record_calls calls new_meter)).total_tinybars ≡ cost calls)
      × (billed (snapshot (record_calls calls new_meter)).counts ≡ cost calls)
unfolding snapshot
snapshot-record_calls calls =
    let b = record_calls-Balances calls new_meter 0 (record { total = refl; by_counts = refl }) in
    (omega (arith, b.total), omega (arith, b.by_counts))
