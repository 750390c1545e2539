-- ===== src/Lib.antt =====
-- The backend of an Equb (a rotating savings pool): a NestJS service over a database that mirrors
-- pools on a chain. A pool has members who contribute each round; an admin closes the round and
-- draws its winner, each member winning once a season; a payout stream pays the winner.
--
-- Parts:
-- Common: text, integers, tables of rows, exceptions, shared by all models.
-- Pools: backend/src/pools/pools.service.ts and the entities it works on
--   (backend/src/entities/*.entity.ts).
--   - Pools/Entities and Pools/Store: the rows and the repository calls.
--   - Pools/Season: `ensureSeasonState` derives the season from the pool's round counter;
--     `ensureActiveRound` finds or opens the round. Every other part calls these.
--   - Pools/Lifecycle: `closeActiveRound`, and `lock_active_round`, the beginning that it shares
--     with `pickWinnerForActiveRound`.
--   - Pools/Winner: `pickWinnerForActiveRound`, with its draw (`draw_winner`), its writes
--     (`settle_winner`) and the replay by idempotency key (`pick_in_transaction`).
--   - Pools/Membership: `joinPool`, `recordContribution`, `closeRound`, `createPool`,
--     `getEligibleWinners`, `listPools`.
--   - Pools/NextSeason: `createNextSeason`. Pools/Streams: `scheduleStream`.
--   - Pools/Cooldown and Pools/SelectWinner: `enforceSelectWinnerCloseCooldown` and
--     `buildSelectWinner`, the transactions that a client signs.
--   Pools/Consistent says what the tables keep; the other child modules prove.
-- Collateral: backend/src/collateral/collateral.service.ts. Collateral/Store has the table and the
--   transfers on the chain, Collateral itself `lock`, `confirmTokenDeposit`, `slash` and
--   `releaseTokenCollateral`; Amounts proves that stored amounts are read back, Slash and Release
--   what the calls do to a wallet's amounts.
-- Cache: backend/src/cache/cache.service.ts, with its refinement in Cache/Refines. It stands alone:
--   what it caches is a parameter.
-- Credit: backend/src/credit/credit.service.ts and backend/src/tiers/tiers.service.ts, with the scores
--   as a table and the tier of a score.
-- Rules: backend/src/rules/rules.service.ts, the rules of a pool, from its creator or from the chain;
--   Rules/Shown and Rules/Updates are about what is shown after it was written.
-- Notifications: backend/src/notifications/notifications.service.ts, the stored notifications and
--   their deduplication (Notifications/Once), pages (Notifications/Pages) and reading
--   (Notifications/Unread). The indexer sends them: its model keeps the calls of `create` in order,
--   by wallet, type and key.
-- Indexer: backend/src/indexer/indexer.service.ts, which writes what happens on the chain into the
--   tables of Pools, Collateral, Credit and Rules.
--   - Indexer/Events: the events and their logs. Indexer/State: the tables, and `Chain`, what is
--     read of the chain. Indexer/Handlers, Money and Governance: one function for each handler.
--     Indexer/Dispatch: `handleEvent`.
--   - Indexer/CatchUp: `catchUpContract`, block by block in chunks. Indexer/Poll: `catchUp`, the
--     token transfers and `reindex`.
--   Indexer/Keeps is about the tables of Pools, Indexer/Lost about amounts that come back from a
--   numeric column, Indexer/Poll/Votes about the votes of proposals; CatchUp/Replays, Poll/Again
--   and Poll/Whole about the catch-up.
--
-- How it is modelled: a call takes the state and gives a result or a thrown `Fault`, with the
-- state reached; `transaction` gives the old state back where its callback throws. An entity that
-- the code mutates is passed on as a new record. The database is one record with a list for each
-- table; a row's key is a number that the database issues in order, in place of a uuid, and key 0
-- marks a row that is not saved. `findOne` takes the first row that matches. Unique indexes are
-- kept by the inserts. The amounts of pools and seasons, with which nothing is computed, are the
-- texts that were given. Inside `dataSource.transaction` every repository is bound to the
-- `manager`, so that all writes of the callback belong to it. A notification's time is in
-- microseconds, as its column has it, and a Date read from it in whole milliseconds.
--
-- Arguments that stand for code outside the repository: `get_address` (`ethers.getAddress`: what
-- it accepts keeps its letters and its `0x`, hypotheses in `IsChecksum` of Pools/Address),
-- `random_int` (Node's `randomInt`), `hash` (SHA-256 of the request), `print_id` (a key's text),
-- `now` (the clock), and for `buildSelectWinner` the answers of the contracts (`WinnerReads`); for
-- collateral and payout streams `column` (what a `numeric(36, 18)` column stores for a text, which
-- prints an integer with its decimals: `IsDecimalColumn` of Common/Columns) and `TokenChain`
-- (configuration, `parseUnits`, the transfer); for rules and the indexer `read_rules` (`getRules`
-- of the contract), `Chain` (the transaction of a hash, the time of a block, `formatUnits`, the
-- numeric columns) and `Query` and `Access` (`queryFilter`, the head of the chain), where `none`
-- is a call that fails.
--
-- Bounds: integers are unbounded, as BigInt is and as the counters stay far below 2 ^ 53. Loops
-- are structural, but the chunks of a catch-up, which have as much fuel as the current block has
-- units: more than one for each chunk. Printing a number in decimal runs on fuel, one step for
-- each unit of the number. Letter case is that of ASCII, the only letters of an address.
--
-- Not modelled: socket events, telemetry and logs, which nothing reads back; `totalPrize`, a float
-- that only an event carries; columns that no decision reads; the encoding of contract calls;
-- requests that run at the same time (only the two calls that close a round and pick its winner
-- lock the pool's row, so that for the others, such as `joinPool` and `createNextSeason`, this
-- leaves something out); in the indexer, the timers, the texts of notifications, and the catch-ups
-- that `Promise.all` runs at the same time, which run one after the other here.
pub mod Common
pub mod Pools
pub mod Collateral
pub mod Cache
pub mod Credit
pub mod Rules
pub mod Notifications
pub mod Indexer
