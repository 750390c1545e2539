-- ===== src/Indexer/Poll/Again.antt =====
-- A poll (`catchUp`) after a poll.
use diaspora_equb_product.Common.{
  ℕ, ◌≤◌, ◌≡◌, refl, sym, subst, arith, some, Text, map, List, [], ◌∷◌, Option-cases, inl, inr,
}
use diaspora_equb_product.Indexer.Events.{
  ContractName, all_contracts, contract_text, get_contract_event_names,
}
use diaspora_equb_product.Indexer.State.{Index, Chain}
use diaspora_equb_product.Indexer.CatchUp.{process_chunks, catch_up_key, catch_up_contract}
use diaspora_equb_product.Indexer.Poll.{
  Access, Token, token_key, get_token_contracts, process_transfers, catch_up_tokens,
  catch_up_contracts, catch_up,
}
use diaspora_equb_product.Indexer.Poll.Cursors.{process_chunks-Still, process_transfers-Still}
use diaspora_equb_product.Indexer.Poll.Reached.{
  AreStored, HasReached, IsNear, AdvancedTo, Advances-refl, catch_up_key-Advances,
  catch_up_key_reached, catch_up_key_again,
}

-- Every contract of the list, or token, has reached the block.
abbrev AllReached : List Text → ℕ → Index → Type 0
AllReached [] n s = Unit {0}
AllReached (key ∷ keys) n s = HasReached key n s × AllReached keys n s

AllReached-of_Advances :
    (n : ℕ) (s t : Index) (keys : List Text)
    → AdvancedTo n s t
    → AllReached keys n s
    → AllReached keys n t
AllReached-of_Advances n s t [] a r = tt
AllReached-of_Advances n s t (key ∷ keys) (k, a) (r, rs) =
    (a key r, AllReached-of_Advances n s t keys (k, a) rs)

-- A list of cursors after its polls.
abbrev Polled : List Text → ℕ → Index → Index → Type 0
Polled keys n s t = AreStored s → AdvancedTo n s t × AllReached keys n t

catch_up_contracts-Polled :
    (chain : Chain) (access : Access) (names : List ContractName) (n : ℕ) (s t : Index)
    → IsNear access.head n
    → catch_up_contracts chain access names n s ≡ some t
    → Polled (map contract_text names) n s t
unfolding catch_up_contracts catch_up_contract
catch_up_contracts-Polled chain access [] n s t near h k =
    let same : t ≡ s = ground arith in (subst (AdvancedTo n s) (sym same) (Advances-refl n s k), tt)
catch_up_contracts-Polled chain access (name ∷ names) n s t near h k =
    let process = process_chunks chain (access.query name) (get_contract_event_names name) in
    let still = process_chunks-Still chain (access.query name) (get_contract_event_names name) in
    elim (Option-cases (catch_up_key process access.head (contract_text name) n s)) [
      | inl e ↦ absurd (ground arith)
      | inr (mid, e) ↦
          let first =
            catch_up_key-Advances process still access.head (contract_text name) n s mid e k in
          let reached =
            catch_up_key_reached process still access.head (contract_text name) n s mid near e in
          let (rest, all) =
            catch_up_contracts-Polled chain access names n mid t near (ground arith) first.0 in
          (
            (rest.0, λ key r. rest.1 key (first.1 key r)),
            (rest.1 (contract_text name) reached, all),
          )
    ]

catch_up_tokens-Polled :
    (chain : Chain) (access : Access) (tokens : List Token) (n : ℕ) (s t : Index)
    → IsNear access.head n
    → catch_up_tokens chain access tokens n s ≡ some t
    → Polled (map token_key tokens) n s t
unfolding catch_up_tokens
catch_up_tokens-Polled chain access [] n s t near h k =
    let same : t ≡ s = ground arith in (subst (AdvancedTo n s) (sym same) (Advances-refl n s k), tt)
catch_up_tokens-Polled chain access (token ∷ tokens) n s t near h k =
    let process = process_transfers chain access token in
    let still = process_transfers-Still chain access token in
    elim (Option-cases (catch_up_key process access.head (token_key token) n s)) [
      | inl e ↦ absurd (ground arith)
      | inr (mid, e) ↦
          let first =
            catch_up_key-Advances process still access.head (token_key token) n s mid e k in
          let reached =
            catch_up_key_reached process still access.head (token_key token) n s mid near e in
          let (rest, all) =
            catch_up_tokens-Polled chain access tokens n mid t near (ground arith) first.0 in
          ((rest.0, λ key r. rest.1 key (first.1 key r)), (rest.1 (token_key token) reached, all))
    ]

catch_up_contracts_again :
    (chain : Chain) (access : Access) (names : List ContractName) (n m : ℕ) (s : Index)
    → m ≤ n
    → AllReached (map contract_text names) n s
    → catch_up_contracts chain access names m s ≡ some s
unfolding catch_up_contracts catch_up_contract
catch_up_contracts_again chain access [] n m s l r = refl
catch_up_contracts_again chain access (name ∷ names) n m s l (r, rs) =
    let process = process_chunks chain (access.query name) (get_contract_event_names name) in
    ground (
      arith,
      catch_up_key_again process access.head (contract_text name) n m s l r,
      catch_up_contracts_again chain access names n m s l rs,
    )

catch_up_tokens_again :
    (chain : Chain) (access : Access) (tokens : List Token) (n m : ℕ) (s : Index)
    → m ≤ n
    → AllReached (map token_key tokens) n s
    → catch_up_tokens chain access tokens m s ≡ some s
unfolding catch_up_tokens
catch_up_tokens_again chain access [] n m s l r = refl
catch_up_tokens_again chain access (token ∷ tokens) n m s l (r, rs) =
    let process = process_transfers chain access token in
    ground (
      arith,
      catch_up_key_again process access.head (token_key token) n m s l r,
      catch_up_tokens_again chain access tokens n m s l rs,
    )

-- Let the rows of the cursors have distinct keys that the database has issued, and let a poll at a
-- block after the first end, whose head of the chain, where it is read, is less than 100000 blocks
-- past that block. Then a poll that follows at this block or an earlier one, whatever the chain
-- answers it, changes nothing: no event is handled again.
pub catch_up_again :
    (chain : Chain) (first second : Access) (tokens : List Token) (n m : ℕ) (s t : Index)
    → AreStored s
    → IsNear first.head n
    → m ≤ n
    → catch_up chain first tokens n s ≡ some t
    → catch_up chain second tokens m t ≡ some t
unfolding catch_up
catch_up_again chain first second tokens n m s t k near l h =
    elim (Option-cases (catch_up_contracts chain first all_contracts n s)) [
      | inl e ↦ absurd (ground arith)
      | inr (mid, e) ↦
          let (a, contracts) =
            catch_up_contracts-Polled chain first all_contracts n s mid near e k in
          let listed = get_token_contracts tokens in
          let (b, reached) =
            catch_up_tokens-Polled chain first listed n mid t near (ground arith) a.0 in
          let kept = AllReached-of_Advances n mid t (map contract_text all_contracts) b contracts in
          ground (
            arith,
            catch_up_contracts_again chain second all_contracts n m t l kept,
            catch_up_tokens_again chain second listed n m t l reached,
          )
    ]
