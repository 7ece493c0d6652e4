-- ===== src/Subgraph/Pool.antt =====
-- The handlers of packages/subgraph/src/mapping.ts for the MutualPool and the USDC token.
use repayd.Common.{ℕ, ◌+◌, ◌%◌, ◌^◌, Option, none, some, ◌==◌, if◌then◌else◌, pos, ◌+ℤ◌, ◌-ℤ◌}
use repayd.Subgraph.Graph.{Graph, Bytes}
use repayd.Subgraph.Entities.{
  Claim, PoolState, Db, Meta, deposit, redeem, payout, premium, loss, reinsurance,
}
use repayd.Subgraph.Agents.{event_id}
use repayd.Subgraph.Guard.{bare_flow}

abbrev pub empty_pool : PoolState
empty_pool = record {
  junior_capital = pos 0;
  senior_capital = pos 0;
  premium_pool = 0;
  total_payouts = 0;
  claim_count = 0;
  updated_at = 0;
}

abbrev pub pool_or_new : Option PoolState → PoolState
pool_or_new none = empty_pool
pool_or_new (some pool) = pool

-- senior is tranche 0
unfoldable pub add_capital : ℕ → ℕ → PoolState → PoolState
add_capital tranche assets pool =
    if tranche == 0
    then record pool { senior_capital = pool.senior_capital +ℤ pos assets }
    else record pool { junior_capital = pool.junior_capital +ℤ pos assets }

unfoldable pub take_capital : ℕ → ℕ → PoolState → PoolState
take_capital tranche assets pool =
    if tranche == 0
    then record pool { senior_capital = pool.senior_capital -ℤ pos assets }
    else record pool { junior_capital = pool.junior_capital -ℤ pos assets }

module _ ⦃g : Graph⦄ where
  open g use {Table, load, save, to_hex_string}

  -- loadPool
  unfoldable pub load_pool : Table PoolState → PoolState
  load_pool pools = pool_or_new (load pools "pool")

  -- pool.updatedAt = event.block.timestamp; pool.save();
  unfoldable pub save_pool : Meta → PoolState → Table PoolState → Table PoolState
  save_pool event pool pools = save pools "pool" (record pool { updated_at = event.timestamp })

  unfoldable pub handle_deposited : Meta → Bytes → ℕ → ℕ → Db g → Db g
  handle_deposited event depositor tranche assets db = record db {
    pools = save_pool event (add_capital tranche assets (load_pool db.pools)) db.pools;
    flows = save db.flows (event_id event) (record (bare_flow deposit assets event.timestamp) {
      tranche = some tranche;
      depositor = some depositor;
    });
  }

  unfoldable pub handle_redeemed : Meta → Bytes → ℕ → ℕ → Db g → Db g
  handle_redeemed event depositor tranche assets db = record db {
    pools = save_pool event (take_capital tranche assets (load_pool db.pools)) db.pools;
    flows = save db.flows (event_id event) (record (bare_flow redeem assets event.timestamp) {
      tranche = some tranche;
      depositor = some depositor;
    });
  }

  abbrev pay_claim : Option Claim → Meta → Bytes → Bytes → ℕ → Table Claim → Table Claim
  pay_claim none event digest claimant amount claims = claims
  pay_claim (some claim) event digest claimant amount claims =
      save claims (to_hex_string digest)
        (record claim { claimant = claimant; payout = amount; paid_at = some event.timestamp })

  -- `claimCount` is an i32, kept here as its bit pattern.
  unfoldable pub handle_payout : Meta → Bytes → Bytes → ℕ → Db g → Db g
  handle_payout event digest claimant amount db =
      let pool = load_pool db.pools in
      record db {
        pools =
            save_pool event
              (record pool {
                total_payouts = pool.total_payouts + amount;
                claim_count = (pool.claim_count + 1) % 2 ^ 32;
              })
              db.pools;
        flows = save db.flows (event_id event) (record (bare_flow payout amount event.timestamp) {
          claimant = some claimant;
          digest = some digest;
        });
        claims =
            pay_claim (load db.claims (to_hex_string digest)) event digest claimant amount
              db.claims;
      }

  unfoldable pub handle_premium_recorded : Meta → Bytes → ℕ → Db g → Db g
  handle_premium_recorded event agent amount db =
      let pool = load_pool db.pools in
      record db {
        pools =
            save_pool event (record pool { premium_pool = pool.premium_pool + amount }) db.pools;
        flows =
            save db.flows (event_id event)
              (record (bare_flow premium amount event.timestamp) { agent = some agent });
      }

  unfoldable pub handle_loss_applied : Meta → ℕ → ℕ → ℕ → ℕ → Db g → Db g
  handle_loss_applied event amount junior_loss senior_loss reinsurance_loss db =
      let pool = load_pool db.pools in
      record db {
        pools =
            save_pool event
              (record pool {
                junior_capital = pool.junior_capital -ℤ pos junior_loss;
                senior_capital = pool.senior_capital -ℤ pos senior_loss;
              })
              db.pools;
        flows = save db.flows (event_id event) (record (bare_flow loss amount event.timestamp) {
          junior_loss = some junior_loss;
          senior_loss = some senior_loss;
          reinsurance_loss = some reinsurance_loss;
        });
      }

  unfoldable pub handle_reinsurance_hooked : Meta → ℕ → Db g → Db g
  handle_reinsurance_hooked event attachment db = record db {
    flows = save db.flows (event_id event) (bare_flow reinsurance attachment event.timestamp);
  }

  unfoldable pub handle_usdc_transfer : Meta → Bytes → Bytes → ℕ → Db g → Db g
  handle_usdc_transfer event from to value db = record db {
    transfers =
        save db.transfers (event_id event)
          (record { from = from; to = to; value = value; block_timestamp = event.timestamp });
  }
