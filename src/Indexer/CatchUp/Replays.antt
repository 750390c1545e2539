-- ===== src/Indexer/CatchUp/Replays.antt =====
-- `catchUpContract` against the log of the chain.
use diaspora_equb_product.Common.{
  ℕ, zero, suc, ◌+◌, min, ◌≡◌, refl, sym, ◌∙◌, ap, ◌≤◌, ◌<◌, false, Option, none, some, List, [],
  ◌∷◌, ◌++◌, Text, arith, leb, if◌then◌else◌, filter_by, Bool-cases, Option-cases, ◌⊎◌, inl, inr,
  sort_by, Ascending, text_eq, text_eq_self, find_one_passes, find_one-append_none,
  find_one-update_passes,
}
use diaspora_equb_product.Indexer.Events.{
  ContractName, EventLog, get_contract_event_names, contract_text, log_key,
}
use diaspora_equb_product.Indexer.State.{
  Index, IndexedBlock, Chain, block_key, find_block, get_last_indexed_block, set_last_indexed_block,
}
use diaspora_equb_product.Indexer.CatchUp.{
  Query, chunks, query_all, handle_all, process_chunks, catch_up_contract,
}
use diaspora_equb_product.Indexer.CatchUp.Chunks.{
  chunks_total, is_wanted, Distinct, Answers, sort_by-query_all, filter_by_split, filter_by_ext,
}

handle_all-append :
    (chain : Chain) (xs ys : List EventLog) (s : Index)
    → handle_all chain (xs ++ ys) s ≡ handle_all chain ys (handle_all chain xs s)
unfolding handle_all
handle_all-append chain [] ys s = refl
handle_all-append chain (x ∷ xs) ys s = handle_all-append chain xs ys _

nothing_wanted :
    (names : List ℕ) (log : List EventLog) (start end : ℕ)
    → end < start
    → filter_by (is_wanted names start end) log ≡ []
nothing_wanted names [] start end h = refl
nothing_wanted names (x ∷ xs) start end h =
    let rest = nothing_wanted names xs start end h in
    let out : is_wanted names start end x ≡ false = ground arith in ground arith

module _ (chain : Chain) (query : Query) (log : List EventLog) (names : List ℕ) where
  no_chunks :
      (start current : ℕ) (cs : List (ℕ × ℕ)) (s : Index)
      → cs ≡ []
      → current < start
      → process_chunks chain query names cs s
        ≡ handle_all chain (filter_by (is_wanted names start current) log) s
  unfolding process_chunks handle_all
  no_chunks start current cs s e l =
      ap (λ x. process_chunks chain query names x s) e
      ∙ sym (ap (λ x. handle_all chain x s) (nothing_wanted names log start current l))

  -- The blocks after a chunk.
  after_chunk :
      (start current : ℕ)
      → filter_by (is_wanted names (start + 2000) current) log
        ≡ filter_by (is_wanted names (min (start + 1999) current + 1) current) log
  after_chunk start current = filter_by_ext _ _ log (λ x. ground arith)

  pub process_chunks-replay :
      (f start current : ℕ) (cs : List (ℕ × ℕ)) (s : Index)
      → Answers query log
      → Ascending log_key log
      → Distinct names
      → chunks f start current ≡ some cs
      → process_chunks chain query names cs s
        ≡ handle_all chain (filter_by (is_wanted names start current) log) s
  unfolding process_chunks chunks
  process_chunks-replay zero start current cs s q a d h =
      no_chunks start current cs s (ground arith) (ground arith)
  process_chunks-replay (suc f) start current cs s q a d h = elim (Bool-cases (leb start current)) [
    | inr b ↦ no_chunks start current cs s (ground arith) (ground arith)
    | inl b ↦ elim (Option-cases (chunks f (start + 2000) current)) [
      | inl e ↦ absurd (ground arith)
      | inr (rest, e) ↦
          let m = min (start + 1999) current in
          let here : cs ≡ (start, m) ∷ rest = ground arith in
          let first = filter_by (is_wanted names start m) log in
          let handled = handle_all chain first s in
          let split = filter_by_split names log start m current a (ground arith) (ground arith) in
          ap (λ x. process_chunks chain query names x s) here
          ∙ ap (λ x. process_chunks chain query names rest (handle_all chain x s))
              (sort_by-query_all query log names start m q a d)
          ∙ process_chunks-replay f (start + 2000) current rest handled q a d e
          ∙ ap (λ x. handle_all chain x handled) (after_chunk start current)
          ∙ sym (handle_all-append chain first _ s)
          ∙ ap (λ x. handle_all chain x s) split
    ]
  ]

names_Distinct : (name : ContractName) → Distinct (get_contract_event_names name)
unfolding get_contract_event_names
names_Distinct name = ground arith

-- Where the chain answers every query from its log, in the order of blocks and log indices, a
-- catch-up of a contract ends, and it has handled exactly the contract's events of the blocks
-- after the last indexed one and up to the current one, each once and in that order, whatever the
-- chunks; then it stores the current block. Without such blocks it changes nothing.
pub catch_up_contract-replay :
    (chain : Chain) (query : Query) (log : List EventLog) (head : Option ℕ) (name : ContractName)
    (current : ℕ) (s : Index)
    → Answers query log
    → Ascending log_key log
    → let from = get_last_indexed_block head (contract_text name) s + 1 in
      let events = filter_by (is_wanted (get_contract_event_names name) from current) log in
      catch_up_contract chain query head name current s
      ≡ some (
          if leb from current
          then set_last_indexed_block (contract_text name) current (handle_all chain events s)
          else s)
unfolding catch_up_contract
catch_up_contract-replay chain query log head name current s q a =
    let from = get_last_indexed_block head (contract_text name) s + 1 in
    let (cs, e) = chunks_total (current + 1) from current (omega arith) in
    let replay =
      process_chunks-replay chain query log (get_contract_event_names name) (current + 1) from
        current cs s q a (names_Distinct name) e in
    elim (Bool-cases (leb from current)) [ inl b ↦ ground arith | inr b ↦ ground arith ]

cursor_set :
    (head : Option ℕ) (name : Text) (n : ℕ) (s : Index)
    → get_last_indexed_block head name (set_last_indexed_block name n s) ≡ n
unfolding get_last_indexed_block set_last_indexed_block
cursor_set head name n s = elim (Option-cases (find_block name s)) [
  | inl e ↦
      let b : IndexedBlock = record {
        id = s.next_id;
        contract_name = name;
        last_block_number = n;
      } in
      let last =
        find_one-append_none (λ x. text_eq x.contract_name name) b s.blocks e (text_eq_self name) in
      ground arith
  | inr (b, e) ↦
      let passes = find_one_passes (λ x. text_eq x.contract_name name) s.blocks e in
      let updated =
        find_one-update_passes block_key (λ x. text_eq x.contract_name name)
          (record b { last_block_number = n }) b s.blocks passes e refl in
      ground arith
]

-- Whatever the chain answers, a catch-up of a contract ends. Where the last indexed block is not
-- before the current one, it leaves the tables as they are; where it is, it moves the last indexed
-- block to the current one.
pub catch_up_contract_ends :
    (chain : Chain) (query : Query) (head : Option ℕ) (name : ContractName) (current : ℕ)
    (s : Index)
    → (s' : Index) × (catch_up_contract chain query head name current s ≡ some s')
      × (((current ≤ get_last_indexed_block head (contract_text name) s) × (s' ≡ s))
          ⊎ ((get_last_indexed_block head (contract_text name) s < current)
              × (get_last_indexed_block head (contract_text name) s' ≡ current)))
unfolding catch_up_contract
catch_up_contract_ends chain query head name current s =
    let from = get_last_indexed_block head (contract_text name) s + 1 in
    let (cs, e) = chunks_total (current + 1) from current (omega arith) in
    let handled = process_chunks chain query (get_contract_event_names name) cs s in
    elim (Bool-cases (leb from current)) [
      | inl b ↦ (
        set_last_indexed_block (contract_text name) current handled,
        ground arith,
        inr (ground arith, cursor_set head (contract_text name) current handled),
      )
      | inr b ↦ (s, ground arith, inl (ground arith, refl))
    ]

process_chunks_failed :
    (chain : Chain) (query : Query) (names : List ℕ) (cs : List (ℕ × ℕ)) (s : Index)
    → ((n start end : ℕ) → query n start end ≡ none)
    → process_chunks chain query names cs s ≡ s
unfolding process_chunks handle_all
process_chunks_failed chain query names [] s h = refl
process_chunks_failed chain query names ((start, end) ∷ cs) s h =
    ap (λ x. process_chunks chain query names cs (handle_all chain (sort_by log_key x) s))
      (nothing_found names)
    ∙ process_chunks_failed chain query names cs s h
  where
    nothing_found : (ns : List ℕ) → query_all query ns start end ≡ []
    nothing_found [] = refl
    nothing_found (n ∷ ns) = ground (arith, h n start end, nothing_found ns)

-- Where every query of a catch-up fails, no event is handled and the last indexed block is moved to
-- the current one all the same, so that no later catch-up asks for these blocks.
pub catch_up_contract_skips :
    (chain : Chain) (query : Query) (head : Option ℕ) (name : ContractName) (current : ℕ)
    (s : Index)
    → ((n start end : ℕ) → query n start end ≡ none)
    → get_last_indexed_block head (contract_text name) s < current
    → let s' = set_last_indexed_block (contract_text name) current s in
      (catch_up_contract chain query head name current s ≡ some s')
      × (get_last_indexed_block head (contract_text name) s' ≡ current)
unfolding catch_up_contract
catch_up_contract_skips chain query head name current s h l =
    let from = get_last_indexed_block head (contract_text name) s + 1 in
    let (cs, e) = chunks_total (current + 1) from current (omega arith) in
    let same = process_chunks_failed chain query (get_contract_event_names name) cs s h in
    (ground arith, cursor_set head (contract_text name) current s)
