-- ===== src/Subgraph/Ledger.antt =====
-- The pool of packages/subgraph/src/mapping.ts against sums over the event log.
pub mod Replay
use mathlib.Core.Option.{some-injective}
use mathlib.Core.Path.{subst}
use repayd.Common.{
  ℕ, ◌+◌, ◌%◌, ◌^◌, ◌≡◌, none, some, List, [], ◌∷◌, arith, ◌==◌, if◌then◌else◌, ℤ, pos, pos_part,
  neg_part, sub_ℕ, ◌+ℤ◌, ◌-ℤ◌, Option-cases, inl, inr,
}
use repayd.Subgraph.Graph.{Graph, Bytes}
use repayd.Subgraph.Entities.{PoolState, Db, Meta}
use repayd.Subgraph.Guard
use repayd.Subgraph.Registry
use repayd.Subgraph.Registry.{PolicyView}
use repayd.Subgraph.Court
use repayd.Subgraph.Pool
use repayd.Subgraph.Pool.{load_pool, save_pool, add_capital, take_capital}
use repayd.Subgraph.Events.{
  Event, Params, dispatch, replay, genesis, policy_updated, deposited, redeemed, payout,
  premium_recorded, loss_applied,
}

-- what one event moves: capital into and out of the tranches, premiums, payouts and their count
pub record Movement : Type 0 where
  pub junior_in : ℕ
  pub junior_out : ℕ
  pub senior_in : ℕ
  pub senior_out : ℕ
  pub premiums : ℕ
  pub payouts : ℕ
  pub claims : ℕ

abbrev pub no_movement : Movement
no_movement = record {
  junior_in = 0;
  junior_out = 0;
  senior_in = 0;
  senior_out = 0;
  premiums = 0;
  payouts = 0;
  claims = 0;
}

abbrev pub plus : Movement → Movement → Movement
plus m n = record {
  junior_in = m.junior_in + n.junior_in;
  junior_out = m.junior_out + n.junior_out;
  senior_in = m.senior_in + n.senior_in;
  senior_out = m.senior_out + n.senior_out;
  premiums = m.premiums + n.premiums;
  payouts = m.payouts + n.payouts;
  claims = m.claims + n.claims;
}

abbrev pub movement_of : Params → Movement
movement_of (deposited depositor tranche assets) =
    if tranche == 0
    then record no_movement { senior_in = assets }
    else record no_movement { junior_in = assets }
movement_of (redeemed depositor tranche assets) =
    if tranche == 0
    then record no_movement { senior_out = assets }
    else record no_movement { junior_out = assets }
movement_of (payout digest claimant amount) = record no_movement { payouts = amount; claims = 1 }
movement_of (premium_recorded agent amount) = record no_movement { premiums = amount }
movement_of (loss_applied amount junior senior reinsurance) = record no_movement {
  junior_out = junior;
  senior_out = senior;
}
movement_of _ = no_movement

abbrev pub movements : List Event → Movement
movements [] = no_movement
movements (e ∷ es) = plus (movement_of e.params) (movements es)

-- the pool `q` is the pool `p` after a movement
pub record Moved (m : Movement) (p q : PoolState) : Type 0 where
  pub junior :
      pos_part q.junior_capital + neg_part p.junior_capital + m.junior_out
      ≡ neg_part q.junior_capital + pos_part p.junior_capital + m.junior_in
  pub senior :
      pos_part q.senior_capital + neg_part p.senior_capital + m.senior_out
      ≡ neg_part q.senior_capital + pos_part p.senior_capital + m.senior_in
  pub premium : q.premium_pool ≡ p.premium_pool + m.premiums
  pub paid : q.total_payouts ≡ p.total_payouts + m.payouts
  pub counted : q.claim_count % 2 ^ 32 ≡ (p.claim_count + m.claims) % 2 ^ 32

pub Moved-trans :
    (m n : Movement) (p q r : PoolState) → Moved m p q → Moved n q r → Moved (plus m n) p r
Moved-trans m n p q r a b = record {
  junior = omega (arith, a.junior, b.junior);
  senior = omega (arith, a.senior, b.senior);
  premium = omega (arith, a.premium, b.premium);
  paid = omega (arith, a.paid, b.paid);
  counted = omega (arith, a.counted, b.counted);
}

pub Moved-none : (p : PoolState) → Moved no_movement p p
Moved-none p = record {
  junior = omega arith;
  senior = omega arith;
  premium = omega arith;
  paid = omega arith;
  counted = omega arith;
}

pub add_capital-Moved :
    (depositor : Bytes) (tranche assets : ℕ) (p : PoolState)
    → Moved (movement_of (deposited depositor tranche assets)) p (add_capital tranche assets p)
unfolding add_capital ◌+ℤ◌
add_capital-Moved depositor tranche assets p = ground arith

pub take_capital-Moved :
    (depositor : Bytes) (tranche assets : ℕ) (p : PoolState)
    → Moved (movement_of (redeemed depositor tranche assets)) p (take_capital tranche assets p)
unfolding take_capital ◌-ℤ◌
take_capital-Moved depositor tranche assets p = ground arith

pub apply_loss-Moved :
    (amount junior senior reinsurance : ℕ) (p : PoolState)
    → Moved (movement_of (loss_applied amount junior senior reinsurance)) p (record p {
      junior_capital = p.junior_capital -ℤ pos junior;
      senior_capital = p.senior_capital -ℤ pos senior;
    })
unfolding ◌-ℤ◌
apply_loss-Moved amount junior senior reinsurance p = ground arith
