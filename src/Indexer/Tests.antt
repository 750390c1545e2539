-- ===== src/Indexer/Tests.antt =====
-- The indexer on a small log: a pool, a stream, two deposits and the votes of a proposal.
use diaspora_equb_product.Common.{
  written, IsDecimalColumn, ℕ, ◌≡◌, ◌≤◌, ◌<◌, ◌⊎◌, refl, sym, arith, true, false, Option, none,
  some, some_inj, [], ◌∷◌, List, Text, codes, filter_by, text_eq, print_ℤ, ◌++◌,
}
use diaspora_equb_product.Pools.Sample.{alice, closed_db, same_address, pool, print_id}
use diaspora_equb_product.Pools.Consistent.{IsConsistent}
use diaspora_equb_product.Collateral.Store.{Collateral, save_collateral}
use diaspora_equb_product.Collateral.{new_collateral}
use diaspora_equb_product.Indexer.Events.{
  ContractName, ChainEvent, EventLog, contract_text, get_contract_event_names,
}
use diaspora_equb_product.Indexer.State.{
  Index, Chain, IndexedBlock, Proposal, ProposalStatus, get_last_indexed_block,
  set_last_indexed_block,
}
use diaspora_equb_product.Indexer.Money.{handle_collateral_deposited}
use diaspora_equb_product.Indexer.Dispatch.{dispatch, handle_event}
use diaspora_equb_product.Indexer.CatchUp.{Query, handle_all, catch_up_contract}
use diaspora_equb_product.Indexer.CatchUp.Chunks.{Answers, is_in, is_wanted}
use diaspora_equb_product.Indexer.CatchUp.Replays.{
  catch_up_contract-replay, catch_up_contract_ends, catch_up_contract_skips,
}
use diaspora_equb_product.Indexer.Lost.Streams.{handle_event-stream_lost}
use diaspora_equb_product.Indexer.Lost.Deposits.{handle_event-deposit_lost}
use diaspora_equb_product.Indexer.Keeps.{Kept}
use diaspora_equb_product.Indexer.Poll.{Access, Token, catch_up}
use diaspora_equb_product.Indexer.Poll.Again.{catch_up_again}
use diaspora_equb_product.Indexer.Poll.Whole.{catch_up-Kept}
use diaspora_equb_product.Indexer.Poll.Votes.{IsTallied}
use diaspora_equb_product.Indexer.Poll.Votes.Tally.{handle_all_tally}

-- A column that keeps two decimals.
abbrev column : Text → Option Text
column t = some (t ++ codes ".00")

column_decimals : IsDecimalColumn column
column_decimals = record { decimals = λ z t h. (codes "00", sym (some_inj h)) }

abbrev chain : Chain
chain = record {
  transaction = λ h. none;
  read_rules = λ n. none;
  block_time = λ n. some n;
  get_address = same_address;
  format_units = λ n d. print_id n;
  column = column;
  print_id = print_id;
}

abbrev cursor : IndexedBlock
cursor = record {
  id = 20;
  contract_name = contract_text ContractName.equb_pool;
  last_block_number = 40;
}

abbrev proposal : Proposal
proposal = record {
  id = 21;
  on_chain_proposal_id = 3;
  pool_id = some 1;
  on_chain_equb_id = 7;
  proposer = alice;
  rule_hash = codes "0x01";
  description = codes "longer rounds";
  yes_votes = 2;
  no_votes = 0;
  deadline = 1_000;
  status = ProposalStatus.active;
}

abbrev index : Index
index = record {
  db = closed_db;
  vault = record { collaterals = []; next_id = 1; sent = [] };
  scores = record { scores = []; next_id = 1 };
  proposals = proposal ∷ [];
  identities = [];
  blocks = cursor ∷ [];
  transfers = [];
  notices = [];
  indexed_event_count = 0;
  next_id = 30;
}

abbrev event : ℕ → ChainEvent → EventLog
event n x = record {
  block_number = n;
  index = 0;
  transaction_hash = some (codes "0xAB");
  event = x;
}

abbrev log : List EventLog
log =
    event 41 (ChainEvent.joined_pool 7 (codes "0xC3"))
    ∷ event 42 (ChainEvent.default_triggered 7 alice 1)
    ∷ []

abbrev query : Query
query n start end = some (filter_by (is_in start end n) log)

query-Answers : Answers query log
query-Answers n start end = refl

catch_up_contract-replay_example :
    let events =
      filter_by (is_wanted (get_contract_event_names ContractName.equb_pool) 41 50) log in
    catch_up_contract chain query (some 50) ContractName.equb_pool 50 index
    ≡ some (set_last_indexed_block (codes "EqubPool") 50 (handle_all chain events index))
unfolding get_last_indexed_block text_eq
catch_up_contract-replay_example =
    catch_up_contract-replay chain query log (some 50) ContractName.equb_pool 50 index query-Answers
      ((refl, tt), (tt, tt))

catch_up_contract_ends_example :
    (t : Index) × (catch_up_contract chain query (some 50) ContractName.equb_pool 50 index ≡ some t)
    × (((50 ≤ get_last_indexed_block (some 50) (codes "EqubPool") index) × (t ≡ index))
        ⊎ ((get_last_indexed_block (some 50) (codes "EqubPool") index < 50)
            × (get_last_indexed_block (some 50) (codes "EqubPool") t ≡ 50)))
catch_up_contract_ends_example =
    catch_up_contract_ends chain query (some 50) ContractName.equb_pool 50 index

abbrev no_answer : Query
no_answer n start end = none

catch_up_contract_skips_example :
    let t = set_last_indexed_block (codes "EqubPool") 50 index in
    (catch_up_contract chain no_answer (some 50) ContractName.equb_pool 50 index ≡ some t)
    × (get_last_indexed_block (some 50) (codes "EqubPool") t ≡ 50)
unfolding get_last_indexed_block text_eq
catch_up_contract_skips_example =
    catch_up_contract_skips chain no_answer (some 50) ContractName.equb_pool 50 index
      (λ n start end. refl) (omega arith)

abbrev created : EventLog
created = event 43 (ChainEvent.stream_created 7 alice 100 20 50 2)

abbrev released : EventLog
released = event 44 (ChainEvent.round_released 7 alice 50)

handle_event-stream_lost_example :
    handle_event chain released (handle_event chain created index)
    ≡ handle_event chain created index
handle_event-stream_lost_example =
    handle_event-stream_lost chain created released 7 alice 100 20 50 2 50 index pool
      column_decimals refl refl refl refl

abbrev deposit : ℕ → EventLog
deposit n = event 45 (ChainEvent.collateral_deposited alice n)

abbrev row : Collateral
row = record {
  id = 1;
  wallet_address = alice;
  pool_id = none;
  locked_amount = codes "0.00";
  slashed_amount = codes "0.00";
  available_balance = codes "70.00";
}

handle_event-deposit_lost_example :
    handle_event chain (deposit 30) (handle_event chain (deposit 70) index)
    ≡ handle_event chain (deposit 70) index
unfolding handle_event dispatch handle_collateral_deposited save_collateral new_collateral written
    text_eq print_ℤ
handle_event-deposit_lost_example =
    handle_event-deposit_lost chain (deposit 70) (deposit 30) alice 70 30 index row column_decimals
      refl refl refl refl

index-IsConsistent : IsConsistent index.db
index-IsConsistent = omega arith

abbrev access : Access
access = record {
  head = some 60;
  query = λ name. query;
  decimals = λ t. none;
  transfers = λ t start end. none;
}

abbrev tokens : List Token
tokens = (codes "USDC", codes "0x05") ∷ (codes "USDT", []) ∷ []

catch_up-Kept_example :
    (t : Index) × (catch_up chain access tokens 50 index ≡ some t) × Kept index.db t.db
catch_up-Kept_example = catch_up-Kept chain access tokens 50 index index-IsConsistent

-- A later poll, which the chain would answer otherwise.
abbrev other_access : Access
other_access = record access { query = λ name n start end. none }

first_poll : (t : Index) × (catch_up chain access tokens 50 index ≡ some t)
first_poll = let (t, e, k) = catch_up-Kept chain access tokens 50 index index-IsConsistent in (t, e)

abbrev polled : Index
polled = first_poll.0

catch_up_again_example : catch_up chain other_access tokens 45 polled ≡ some polled
catch_up_again_example =
    catch_up_again chain access other_access tokens 50 45 index polled (omega arith) (omega arith)
      (omega arith) first_poll.1

abbrev ballots : List EventLog
ballots =
    event 46 (ChainEvent.vote_cast 3 alice true)
    ∷ event 47 (ChainEvent.vote_cast 4 alice true)
    ∷ event 48 (ChainEvent.vote_cast 3 (codes "0xb0") false)
    ∷ event 49 (ChainEvent.proposal_executed 3)
    ∷ []

handle_all_tally_example : IsTallied 3 3 1 (handle_all chain ballots index)
handle_all_tally_example =
    (handle_all_tally chain ballots 3 2 0 index (tt, (tt, (tt, (tt, tt)))) (omega arith)
      (proposal, refl, refl, refl)).1
