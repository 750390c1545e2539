-- ===== src/Indexer/Keeps/Contributions.antt =====
-- `handleContributionReceived`, against `Kept`.
use diaspora_equb_product.Common.{
  ℕ, [], ◌∷◌, ◌≡◌, refl, ap, ◌∙◌, arith, some, Option, Text, Option-cases, Bool-cases, inl, inr,
  Action, bind_related, ◌>>◌, codes, print_ℕ, or_else, find_one, opt_eq,
}
use diaspora_equb_product.Pools.Entities.{Pool, PoolStatus, Contribution, RowStatus, Db}
use diaspora_equb_product.Pools.Store.{
  find_on_chain, same_contribution, insert_contribution, save_pool,
}
use diaspora_equb_product.Indexer.State.{Index, Chain, on_db, emit_notification}
use diaspora_equb_product.Notifications.{NotificationType}
use diaspora_equb_product.Indexer.Handlers.{
  is_round_closed, chain_contribution, reopen_pool, receive_again, receive_first, given_address,
  confirm_contribution, notify_all_contributed, handle_contribution_received,
}
use diaspora_equb_product.Indexer.Keeps.{Keeps, Keeps-refl, Keeps-trans, Keeps-of_same}
use diaspora_equb_product.Indexer.Keeps.Handlers.{stored_again}
use diaspora_equb_product.Indexer.Keeps.Stores.{Keeps-of_equal}

reopen_pool-Keeps :
    (id : ℕ) (p : Pool) (db : Db) → find_on_chain id db ≡ some p → Keeps db (reopen_pool p db).1
unfolding reopen_pool
reopen_pool-Keeps id p db h = elim (Bool-cases (is_round_closed p.status)) [
  | inl e ↦
      let q : Pool = record p { status = PoolStatus.active } in
      Keeps-of_equal db (reopen_pool p db).1 (save_pool q db).1 (ground arith)
        (stored_again id p q db h refl refl)
  | inr e ↦ Keeps-of_equal db (reopen_pool p db).1 db (ground arith) (Keeps-refl db)
]

confirm_contribution-Keeps :
    (c : Contribution) (hash : Option Text) (db : Db) → Keeps db (confirm_contribution c hash db).1
unfolding confirm_contribution
confirm_contribution-Keeps c hash db =
    Keeps-of_same db (confirm_contribution c hash db).1 (ground arith) (ground arith) (ground arith)
      (ground arith) (ground arith) (ground arith)

notify_all_contributed_db :
    (chain : Chain) (p : Pool) (round : ℕ) (s : Index)
    → (notify_all_contributed chain p round s).1.db ≡ s.db
unfolding notify_all_contributed
notify_all_contributed_db chain p round s = ground arith

confirm_contribution_pools :
    (c : Contribution) (hash : Option Text) (db : Db)
    → (confirm_contribution c hash db).1.pools ≡ db.pools
unfolding confirm_contribution
confirm_contribution_pools c hash db = ground arith

-- The relation of a call on the whole state.
abbrev KeepsIn : Index → Index → Type 0
KeepsIn s t = Keeps s.db t.db

KeepsIn-trans : (a b c : Index) → KeepsIn a b → KeepsIn b c → KeepsIn a c
KeepsIn-trans a b c = Keeps-trans a.db b.db c.db

notify_all_contributed-Keeps :
    (chain : Chain) (p : Pool) (round : ℕ) (s : Index)
    → Keeps s.db (notify_all_contributed chain p round s).1.db
notify_all_contributed-Keeps chain p round s =
    Keeps-of_equal s.db (notify_all_contributed chain p round s).1.db s.db
      (notify_all_contributed_db chain p round s) (Keeps-refl s.db)

insert_contribution-Keeps : (c : Contribution) (db : Db) → Keeps db (insert_contribution c db).1
insert_contribution-Keeps c db =
    Keeps-of_same db (insert_contribution c db).1 (ground arith) (ground arith) (ground arith)
      (ground arith) (ground arith) (ground arith)

insert_contribution_pools :
    (c : Contribution) (db : Db) → (insert_contribution c db).1.pools ≡ db.pools
insert_contribution_pools c db = ground arith

found_still :
    (id : ℕ) (p : Pool) (db db' : Db)
    → db'.pools ≡ db.pools
    → find_on_chain id db ≡ some p
    → find_on_chain id db' ≡ some p
found_still id p db db' e h = ap (find_one (λ x. opt_eq x.on_chain_pool_id id)) e ∙ h

receive_again-Keeps :
    (chain : Chain) (id : ℕ) (p : Pool) (c : Contribution) (round : ℕ) (hash : Option Text)
    (s : Index)
    → find_on_chain id s.db ≡ some p
    → Keeps s.db (receive_again chain p c round hash s).1.db
unfolding receive_again
receive_again-Keeps chain id p c round hash s h =
    let mid = (confirm_contribution c hash s.db).1 in
    let found = found_still id p s.db mid (confirm_contribution_pools c hash s.db) h in
    bind_related KeepsIn KeepsIn-trans (on_db (confirm_contribution c hash))
      (λ x. on_db (reopen_pool p) >> notify_all_contributed chain p round) s
      (confirm_contribution-Keeps c hash s.db)
      (λ a.
        bind_related KeepsIn KeepsIn-trans (on_db (reopen_pool p))
          (λ x. notify_all_contributed chain p round) (record s { db = mid })
          (reopen_pool-Keeps id p mid found)
          (λ b.
            notify_all_contributed-Keeps chain p round (record s { db = (reopen_pool p mid).1 })))

receive_first-Keeps :
    (chain : Chain) (id : ℕ) (p : Pool) (member : Text) (round : ℕ) (hash : Option Text) (s : Index)
    → find_on_chain id s.db ≡ some p
    → Keeps s.db (receive_first chain p member round hash s).1.db
unfolding receive_first
receive_first-Keeps chain id p member round hash s h =
    let new = chain_contribution p.id member round RowStatus.confirmed (given_address hash) in
    let mid = (insert_contribution new s.db).1 in
    let found = found_still id p s.db mid (insert_contribution_pools new s.db) h in
    let told : Action Index (Unit {0}) = λ t.
      emit_notification member NotificationType.contribution_confirmed
        (codes "contribution_confirmed"
          ∷ chain.print_id p.id
          ∷ member
          ∷ print_ℕ round
          ∷ or_else hash (codes "no_tx")
          ∷ [])
        t in
    let end : Action Index (Unit {0}) = told >> notify_all_contributed chain p round in
    bind_related KeepsIn KeepsIn-trans (on_db (insert_contribution new))
      (λ x. on_db (reopen_pool p) >> end) s (insert_contribution-Keeps new s.db)
      (λ a.
        bind_related KeepsIn KeepsIn-trans (on_db (reopen_pool p)) (λ x. end)
          (record s { db = mid }) (reopen_pool-Keeps id p mid found)
          (λ b.
            notify_all_contributed-Keeps chain p round
              (told (record s { db = (reopen_pool p mid).1 })).1))

pub contribution_received-Keeps :
    (chain : Chain) (id : ℕ) (member : Text) (round : ℕ) (hash : Option Text) (s : Index)
    → Keeps s.db (handle_contribution_received chain id member round hash s).1.db
unfolding handle_contribution_received
contribution_received-Keeps chain id member round hash s =
    elim (Option-cases (find_on_chain id s.db)) [
      | inl h ↦
          Keeps-of_equal s.db (handle_contribution_received chain id member round hash s).1.db s.db
            (ground arith) (Keeps-refl s.db)
      | inr (p, h) ↦
          elim (Option-cases (find_one (same_contribution p.id member round) s.db.contributions)) [
            | inr (c, g) ↦
                Keeps-of_equal s.db (handle_contribution_received chain id member round hash s).1.db
                  (receive_again chain p c round hash s).1.db (ground arith)
                  (receive_again-Keeps chain id p c round hash s h)
            | inl g ↦
                Keeps-of_equal s.db (handle_contribution_received chain id member round hash s).1.db
                  (receive_first chain p member round hash s).1.db (ground arith)
                  (receive_first-Keeps chain id p member round hash s h)
          ]
    ]
