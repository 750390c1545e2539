-- ===== src/Indexer/Poll/Whole.antt =====
-- A whole poll (`catchUp`), made of its contracts and tokens.
use diaspora_equb_product.Common.{
  ℕ, ◌+◌, ◌≡◌, refl, ◌∙◌, arith, some, Text, List, [], ◌∷◌, Bool-cases, inl, inr, leb, or_else,
}
use diaspora_equb_product.Pools.Consistent.{IsConsistent}
use diaspora_equb_product.Indexer.Events.{ContractName, all_contracts}
use diaspora_equb_product.Indexer.State.{
  Index, Chain, get_last_indexed_block, set_last_indexed_block,
}
use diaspora_equb_product.Indexer.Money.{TransferLog, save_token_transfer}
use diaspora_equb_product.Indexer.CatchUp.Chunks.{chunks_total}
use diaspora_equb_product.Indexer.CatchUp.Replays.{catch_up_contract_ends}
use diaspora_equb_product.Indexer.Keeps.{Kept, Keeps, Keeps-refl, Keeps-trans}
use diaspora_equb_product.Indexer.Keeps.Stores.{Keeps-of_equal}
use diaspora_equb_product.Indexer.Keeps.Catching.{catch_up_contract-Kept, set_last_indexed_block_db}
use diaspora_equb_product.Indexer.Poll.{
  Access, Token, token_key, get_token_contracts, save_transfers, process_transfers, catch_up_tokens,
  catch_up_contracts, catch_up,
}

catch_up_contracts_ends :
    (chain : Chain) (access : Access) (names : List ContractName) (n : ℕ) (s : Index)
    → (t : Index) × (catch_up_contracts chain access names n s ≡ some t) × Keeps s.db t.db
unfolding catch_up_contracts
catch_up_contracts_ends chain access [] n s = (s, refl, Keeps-refl s.db)
catch_up_contracts_ends chain access (name ∷ names) n s =
    let (mid, e, _) = catch_up_contract_ends chain (access.query name) access.head name n s in
    let (t, f, k) = catch_up_contracts_ends chain access names n mid in
    let first : Keeps s.db mid.db =
      λ c. catch_up_contract-Kept chain (access.query name) access.head name n s mid c e in
    (t, ground (arith, e, f), Keeps-trans s.db mid.db t.db first k)

save_token_transfer_db :
    (chain : Chain) (symbol address : Text) (decimals : ℕ) (e : TransferLog) (s : Index)
    → (save_token_transfer chain symbol address decimals e s).db ≡ s.db
unfolding save_token_transfer
save_token_transfer_db chain symbol address decimals e s = ground arith

save_transfers_db :
    (chain : Chain) (symbol address : Text) (decimals : ℕ) (es : List TransferLog) (s : Index)
    → (save_transfers chain symbol address decimals es s).db ≡ s.db
unfolding save_transfers
save_transfers_db chain symbol address decimals [] s = refl
save_transfers_db chain symbol address decimals (e ∷ es) s =
    save_transfers_db chain symbol address decimals es _
    ∙ save_token_transfer_db chain symbol address decimals e s

process_transfers_db :
    (chain : Chain) (access : Access) (token : Token) (cs : List (ℕ × ℕ)) (s : Index)
    → (process_transfers chain access token cs s).db ≡ s.db
unfolding process_transfers
process_transfers_db chain access token [] s = refl
process_transfers_db chain access token ((start, end) ∷ cs) s =
    process_transfers_db chain access token cs _
    ∙ save_transfers_db chain token.0 token.1 (or_else (access.decimals token.1) 6)
        (or_else (access.transfers token.1 start end) []) s

catch_up_tokens_ends :
    (chain : Chain) (access : Access) (tokens : List Token) (n : ℕ) (s : Index)
    → (t : Index) × (catch_up_tokens chain access tokens n s ≡ some t) × (t.db ≡ s.db)
unfolding catch_up_tokens
catch_up_tokens_ends chain access [] n s = (s, refl, refl)
catch_up_tokens_ends chain access (token ∷ tokens) n s =
    let from = get_last_indexed_block access.head (token_key token) s + 1 in
    let (cs, e) = chunks_total (n + 1) from n (omega arith) in
    let mid = process_transfers chain access token cs s in
    elim (Bool-cases (leb from n)) [
      | inr b ↦
          let (t, f, d) = catch_up_tokens_ends chain access tokens n s in (t, ground (arith, f), d)
      | inl b ↦
          let next = set_last_indexed_block (token_key token) n mid in
          let (t, f, d) = catch_up_tokens_ends chain access tokens n next in
          (
            t,
            ground (arith, f),
            d
                ∙ set_last_indexed_block_db (token_key token) n mid
                ∙ process_transfers_db chain access token cs s,
          )
    ]

-- Whatever the chain answers, a poll ends. From consistent tables of PoolsService it leaves
-- consistent ones; the seasons, rounds and idempotency keys are untouched, a pool that is found by
-- its number on the chain is found in the same row, and a member that is found is found unchanged.
pub catch_up-Kept :
    (chain : Chain) (access : Access) (tokens : List Token) (n : ℕ) (s : Index)
    → IsConsistent s.db
    → (t : Index) × (catch_up chain access tokens n s ≡ some t) × Kept s.db t.db
unfolding catch_up
catch_up-Kept chain access tokens n s c =
    let (mid, e, k) = catch_up_contracts_ends chain access all_contracts n s in
    let (t, f, d) = catch_up_tokens_ends chain access (get_token_contracts tokens) n mid in
    (t, ground (arith, e, f), Keeps-of_equal s.db t.db mid.db d k c)
