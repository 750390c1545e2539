-- ===== src/Indexer/CatchUp.antt =====
-- `catchUpContract`: the blocks since the last indexed one, in chunks of 2000; in each chunk the
-- events of every name are asked for, put together in the order of the chain and handled. A query
-- that fails is logged, and the chunk goes on without its events.
pub mod Chunks
pub mod Replays
use diaspora_equb_product.Common.{
  ℕ, zero, suc, ◌+◌, ◌-◌, min, Bool, true, false, Option, none, some, List, [], ◌∷◌, ◌++◌, Text,
  leb, if◌then◌else◌, or_else, sort_by, ◌==◌,
}
use diaspora_equb_product.Indexer.Events.{
  ContractName, EventLog, get_contract_event_names, contract_text, log_key,
}
use diaspora_equb_product.Indexer.State.{
  Index, Chain, get_last_indexed_block, set_last_indexed_block,
}
use diaspora_equb_product.Indexer.Dispatch.{handle_event}

-- `queryFilter` of an event name from a block to a block; `none` where it throws.
abbrev pub Query : Type 0
Query = ℕ → ℕ → ℕ → Option (List EventLog)

-- The chunks from `start` to `current`; `none` is a loop that runs out of fuel.
unfoldable pub chunks : ℕ → ℕ → ℕ → Option (List (ℕ × ℕ))
chunks zero start current = if leb start current then none else some []
chunks (suc f) start current =
    let rest = chunks f (start + 2000) current in
    if leb start current
    then (elim rest [ none ↦ none | some cs ↦ some ((start, min (start + 1999) current) ∷ cs) ])
    else some []

-- The events of the names, one query after the other.
abbrev pub query_all : Query → List ℕ → ℕ → ℕ → List EventLog
query_all query [] start end = []
query_all query (n ∷ names) start end =
    or_else (query n start end) [] ++ query_all query names start end

-- Each event is handled and counted.
unfoldable pub handle_all : Chain → List EventLog → Index → Index
handle_all chain [] s = s
handle_all chain (e ∷ es) s =
    let t = handle_event chain e s in
    handle_all chain es (record t { indexed_event_count = t.indexed_event_count + 1 })

unfoldable pub process_chunks : Chain → Query → List ℕ → List (ℕ × ℕ) → Index → Index
process_chunks chain query names [] s = s
process_chunks chain query names ((start, end) ∷ cs) s =
    process_chunks chain query names cs
      (handle_all chain (sort_by log_key (query_all query names start end)) s)

-- From the block after the last indexed one to `current`, `process` is given the chunks; `none` is a
-- loop that runs out of fuel.
abbrev pub catch_up_key :
    (List (ℕ × ℕ) → Index → Index) → Option ℕ → Text → ℕ → Index → Option Index
catch_up_key process head key current s =
    let from = get_last_indexed_block head key s + 1 in
    if leb from current
    then (elim (chunks (current + 1) from current) [
      | none ↦ none
      | some cs ↦ some (set_last_indexed_block key current (process cs s))
    ])
    else some s

unfoldable pub catch_up_contract :
    Chain → Query → Option ℕ → ContractName → ℕ → Index → Option Index
catch_up_contract chain query head name =
    catch_up_key (process_chunks chain query (get_contract_event_names name)) head
      (contract_text name)
