-- ===== src/Lib.antt =====
-- REPAYD, deposit insurance for AI agents: the deterministic core of the TypeScript packages.
--
-- Parts of the program, and where each is modelled:
--   packages/engine/src/types.ts      Engine/Policy (Policy, computePayout, effectiveLimit,
--                                     isAllowlisted, curfewActive, toOnChainPolicy), Engine/Verdict
--   packages/engine/src/engine.ts     Engine/Hold (judgeHold, check by check), Engine/Breach
--                                     (judgeBreach), Engine/Sigma (sigmaDeviation, sqrtApprox)
--   packages/subgraph/src/mapping.ts  Subgraph/Entities, Agents, Registry, Guard, Court, Pool (handlers),
--                                     Events (dispatch and replay of a log); proofs in Streak, Holds,
--                                     Ledger, Listing and Total
--   packages/engine/src/pricing.ts    Engine/Quote (quote, load by load)
--   packages/api/src/schemas.ts       Coverage/Schema (the validators, over any value of the runtime;
--                                     the types are in Coverage/Store); proofs in Bounds
--   packages/api/src/store.ts         Coverage/Assoc (the runtime's Map), Store (create, cancel and the
--                                     queries); proofs in Ids, Books,
--                                     Settled, Accounts, Wallets and Lifecycle. The store quotes with
--                                     Engine/Quote
--   packages/api/src/coverage-bridge.ts
--                                     Coverage/Bridge (the policy and the attach transaction) over
--                                     Deployment (deployment.ts); proofs in Attach, and in Capped, where
--                                     Engine reads the policy
--   packages/api/src/server.ts        Coverage/Server (POST /v1/coverage); proof in Retry
--   packages/demo/src/bus.ts          Demo/Bus (the state of a run and the lines written; the types of
--                                     run-types.ts); proofs in Once and Evidence
--   packages/pricing/src/index.ts     Pricing/Record (events, policy, tariff), Streak (cleanStreakDays),
--                                     Claims (claimLoad, anomalyLoad), Multipliers and Premium
--                                     (computePremium); proofs in Sorted, Order, Reset and
--                                     Earliest
--   packages/sdk/src/index.ts         Sdk/Hex (the hash helpers), Chain (commit, head, verifyChain),
--                                     Alibi (alibiFor, verdictFor), Store (JsonChainStore, the
--                                     constructor); proofs in Sequence, Attribution and Tamper
--   packages/dashboard/src/run-manager.ts
--                                     Dashboard/Run (the run and its phases), Logs (appendLog, redact,
--                                     lastError), Verified (assertResult), Markers (consumeMarker),
--                                     Manager (persist, start, fail, reset, close), Streams (what the
--                                     process writes, the timers), Finish (its exit), Restore (restore,
--                                     state), Steps (what can happen to a manager); proofs in the others
--   packages/subgraph/erc8004/src/mapping.ts
--                                     Erc8004/Entities and Mapping (handlers and replay), proof in Linked
--   packages/sdk/src/erc8004          Erc8004/Signals (mapping.ts) and Encoding (encoding.ts)
--   packages/record/src/resume.ts     Resume/Fields, Build (buildResume), Records (the rendered block
--                                     and the ENS text records); proofs in RoundTrip and Legible
--   packages/record/src/pricing.ts    Resume/Pricing
--   packages/hedera/src               Hedera/Meter (pricing-meter.ts), Payloads (payloads.ts)
--
-- The subgraph's entity store and the encodings of graph-ts are a record of operations with laws
-- (Subgraph/Graph), met by a store in memory (Subgraph/Memory). Saving a new entity merges it into one
-- that is stored: a field that it leaves unset is written out as the stored one. An event log is a list,
-- and a handler that traps ends the replay.
--
-- The multipliers and dollars of the pricing engine, floats in the source, are exact quotients
-- (Ratio), and a premium is the nearest number of millionths of a dollar; -Infinity and Infinity are
-- none. The counter of a policy id is printed in base 36 (Common/Digits).
--
-- The node, the key library and the ABI encoder of the bridge are a record of answers
-- (Coverage/Bridge); a call that is rejected is an answer too, and a transaction that the node rejects
-- is not sent.
--
-- The SDK's hashing and signing are a record (Sdk/Noble) with the one law that a signature verifies;
-- its await in the middle of commit is the border between two steps, prepare and append. The digits of
-- a number have the number itself as fuel, which Common/Digits shows to be enough.
--
-- The run manager is a state with what is on disk; the process, its streams and its timers are steps
-- that may come in any order (Dashboard/Steps). A line of the process is given with what JSON.parse
-- makes of it, a write to disk succeeds, and a new run has an identifier that no earlier run has.
--
-- A text that is read unit by unit, in the log and in the ENS records, is the list of its UTF-16
-- units. The dollars of a resume are exact cents and its multiplier exact hundredths.
--
-- A name of the source in camel case is here in snake case. Amounts are in USDC base units and times
-- in seconds (milliseconds in packages/pricing), both naturals; a difference that the source may take
-- below zero is a signed integer (Common/Int). An address is a text, which the engine compares with
-- ASCII letters in lower case and the coverage store as it is spelled. The narrative `detail` of a
-- reason is kept as the pieces of its template, before numbers are printed. The deviation of an
-- amount, a float in the source, is its exact count of thousandths. The loop of sqrtApprox may
-- test its condition n times; running out is a result of its own (none), and Engine/Sigma/Root shows
-- that it does not happen.
--
-- Not modelled: the contracts, which are Solidity; the other routes of the Coverage API's server;
-- the ERC-8004 orchestrator and the registration of ENS names, which are sequences of chain calls;
-- the process and worker locks; and the network, file and process glue of packages/api, demo,
-- dashboard, hedera and web.
pub mod Common
pub mod Engine
pub mod Pricing
pub mod Subgraph
pub mod Sdk
pub mod Coverage
pub mod Dashboard
pub mod Demo
pub mod Erc8004
pub mod Hedera
pub mod Resume
