-- ===== src/Indexer/Lost/Streams.antt =====
-- `handleStreamCreated` and `handleRoundReleased` on the released amount of a stream.
use diaspora_equb_product.Common.{
  written, IsDecimalColumn, ℕ, ◌≡◌, refl, sym, ◌∙◌, ap, subst, true, false, ◌&&◌, Option, none,
  some, [], ◌∷◌, ◌++◌, Text, arith, ◌==◌, ==_self, text_eq, text_eq_self, err, Fault, find_one,
  find_one-append_none, any-find_one-none, result_cases, inl, inr, pos, print_ℤ,
}
use diaspora_equb_product.Pools.Entities.{Pool, PayoutStream, Db}
use diaspora_equb_product.Pools.Store.{find_on_chain, find_stream, add_stream}
use diaspora_equb_product.Pools.Streams.{upfront_part}
use diaspora_equb_product.Indexer.Events.{ChainEvent, EventLog}
use diaspora_equb_product.Indexer.State.{Index, Chain}
use diaspora_equb_product.Indexer.Handlers.{
  handle_stream_created, handle_round_released, big_int_of,
}
use diaspora_equb_product.Indexer.Dispatch.{dispatch, handle_event}
use diaspora_equb_product.Indexer.Lost.{big_int_of_column}

-- A release of a stream that is not there, or whose paid amount cannot be read, changes nothing.
abbrev Unreadable : Option PayoutStream → Type 0
Unreadable none = Unit {0}
Unreadable (some x) = big_int_of x.released ≡ err Fault.syntax_error

released-Unreadable :
    (chain : Chain) (id : ℕ) (who : Text) (amount : ℕ) (s : Index) (pool : Pool)
    (found : Option PayoutStream)
    → find_on_chain id s.db ≡ some pool
    → find_stream pool.id who s.db ≡ found
    → Unreadable found
    → (handle_round_released chain id who amount s).1 ≡ s
unfolding handle_round_released
released-Unreadable chain id who amount s pool none p f u = ground arith
released-Unreadable chain id who amount s pool (some x) p f u = ground arith

unchanged-Unreadable :
    (id : ℕ) (who : Text) (db db' : Db)
    → find_stream id who db ≡ none
    → db' ≡ db
    → Unreadable (find_stream id who db')
unchanged-Unreadable id who db db' f q =
    subst (λ d. Unreadable (find_stream id who d)) (sym q) (subst Unreadable (sym f) tt)

inserted-Unreadable :
    (x : PayoutStream) (db : Db)
    → find_stream x.pool_id x.beneficiary db ≡ none
    → big_int_of x.released ≡ err Fault.syntax_error
    → Unreadable (find_stream x.pool_id x.beneficiary (add_stream x db).1)
inserted-Unreadable x db f b =
    let fresh =
      any-find_one-none (λ y. y.pool_id == x.pool_id && text_eq y.beneficiary x.beneficiary)
        db.streams f in
    let new : PayoutStream = record x { id = db.next_id } in
    let self : ((x.pool_id == x.pool_id && text_eq x.beneficiary x.beneficiary) ≡ true) =
      ground (arith, ==_self x.pool_id, text_eq_self x.beneficiary) in
    let found =
      find_one-append_none (λ y. y.pool_id == x.pool_id && text_eq y.beneficiary x.beneficiary) new
        db.streams f self in
    let after : (add_stream x db).1.streams ≡ db.streams ++ new ∷ [] = ground arith in
    subst Unreadable
      (sym (
        ap (find_one (λ y. y.pool_id == x.pool_id && text_eq y.beneficiary x.beneficiary)) after
        ∙ found))
      b

-- The stream that `StreamCreated` leaves.
created-Unreadable :
    (chain : Chain) (id : ℕ) (who : Text) (total upfront amount rounds : ℕ) (db : Db) (pool : Pool)
    → IsDecimalColumn chain.column
    → find_on_chain id db ≡ some pool
    → find_stream pool.id who db ≡ none
    → let db' = (handle_stream_created chain id who total upfront amount rounds db).1 in
      (db'.pools ≡ db.pools) × Unreadable (find_stream pool.id who db')
unfolding handle_stream_created
created-Unreadable chain id who total upfront amount rounds db pool d p f =
    elim (result_cases (written chain.column none (print_ℤ (pos total)))) [
      | inr (e, a) ↦ (
        ground arith,
        unchanged-Unreadable pool.id who db
            (handle_stream_created chain id who total upfront amount rounds db).1 f (ground arith),
      )
      | inl (t, a) ↦ elim (result_cases (written chain.column none (print_ℤ (pos amount)))) [
        | inr (e, b) ↦ (
          ground arith,
          unchanged-Unreadable pool.id who db
              (handle_stream_created chain id who total upfront amount rounds db).1 f
              (ground arith),
        )
        | inl (u, b) ↦
            elim (result_cases
              (written chain.column none (print_ℤ (upfront_part (pos total) upfront)))) [
                | inr (e, c) ↦ (
                  ground arith,
                  unchanged-Unreadable pool.id who db
                      (handle_stream_created chain id who total upfront amount rounds db).1 f
                      (ground arith),
                )
                | inl (v, c) ↦
                    let x : PayoutStream = record {
                      id = 0;
                      pool_id = pool.id;
                      beneficiary = who;
                      total = t;
                      upfront_percent = upfront;
                      round_amount = u;
                      total_rounds = rounds;
                      released_rounds = 0;
                      released = v;
                      frozen = false;
                    } in
                    let after : ((handle_stream_created chain id who total upfront amount rounds
                          db).1
                        ≡ (add_stream x db).1) =
                      ground arith in
                    (
                      ground arith,
                      subst (λ w. Unreadable (find_stream pool.id who w)) (sym after)
                          (inserted-Unreadable x db f (
                            big_int_of_column chain.column (upfront_part (pos total) upfront) v d
                              c)),
                    )
              ]
      ]
    ]

-- The state after a `StreamCreated` event.
handle_event_created :
    (chain : Chain) (e : EventLog) (id : ℕ) (who : Text) (total upfront amount rounds : ℕ)
    (s : Index)
    → e.event ≡ ChainEvent.stream_created id who total upfront amount rounds
    → handle_event chain e s
      ≡ record s { db = (handle_stream_created chain id who total upfront amount rounds s.db).1 }
unfolding handle_event dispatch
handle_event_created chain e id who total upfront amount rounds s h =
    ap (λ x. (dispatch chain x e.transaction_hash s).1) h

handle_event_released :
    (chain : Chain) (e : EventLog) (id : ℕ) (who : Text) (amount : ℕ) (s : Index)
    → e.event ≡ ChainEvent.round_released id who amount
    → handle_event chain e s ≡ (handle_round_released chain id who amount s).1
unfolding handle_event dispatch
handle_event_released chain e id who amount s h =
    ap (λ x. (dispatch chain x e.transaction_hash s).1) h

-- Let the numeric columns store every integer with decimals, and let the pool of a
-- `StreamCreated` event be indexed and its beneficiary have no stream in it. Then a `RoundReleased`
-- event of that stream that is handled next changes nothing: the payment is not counted, and the
-- beneficiary is not told.
pub handle_event-stream_lost :
    (chain : Chain) (created released : EventLog) (id : ℕ) (who : Text)
    (total upfront amount rounds paid : ℕ) (s : Index) (pool : Pool)
    → IsDecimalColumn chain.column
    → find_on_chain id s.db ≡ some pool
    → find_stream pool.id who s.db ≡ none
    → created.event ≡ ChainEvent.stream_created id who total upfront amount rounds
    → released.event ≡ ChainEvent.round_released id who paid
    → handle_event chain released (handle_event chain created s) ≡ handle_event chain created s
handle_event-stream_lost chain created released id who total upfront amount rounds paid s pool d p f
      h k =
    let db' = (handle_stream_created chain id who total upfront amount rounds s.db).1 in
    let (same, u) = created-Unreadable chain id who total upfront amount rounds s.db pool d p f in
    let t : Index = record s { db = db' } in
    let first = handle_event_created chain created id who total upfront amount rounds s h in
    let found : find_on_chain id db' ≡ some pool = ground (arith, same) in
    subst (λ w. handle_event chain released w ≡ w) (sym first)
      (handle_event_released chain released id who paid t k
        ∙ released-Unreadable chain id who paid t pool (find_stream pool.id who db') found refl u)
