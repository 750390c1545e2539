-- ===== src/Indexer/Handlers/Streams.antt =====
-- The handlers of the events of PayoutStream.
use diaspora_equb_product.Common.{
  written, ℕ, ◌+◌, true, false, none, some, [], ◌∷◌, Text, codes, Result, ok, err, Action, Fault,
  gets, pure, lift, ◌>>=◌, ◌>>◌, ℤ, pos, ◌+ℤ◌, print_ℤ, big_int, print_ℕ,
}
use diaspora_equb_product.Pools.Entities.{Db}
use diaspora_equb_product.Pools.Store.{find_on_chain, find_stream, insert_stream, update_stream}
use diaspora_equb_product.Pools.Streams.{upfront_part}
use diaspora_equb_product.Indexer.State.{Index, Chain, on_db, emit_notification}
use diaspora_equb_product.Notifications.{NotificationType}

unfoldable pub handle_stream_created : Chain → ℕ → Text → ℕ → ℕ → ℕ → ℕ → Action Db (Unit {0})
unfolding upfront_part
handle_stream_created chain on_chain_id beneficiary total upfront_percent round_amount
      total_rounds =
    do
      found ← gets (find_on_chain on_chain_id)
      elim found [
        | none ↦ pure tt
        | some pool ↦ do
          existing ← gets (find_stream pool.id beneficiary)
          elim existing [
            | some x ↦ pure tt
            | none ↦ do
              insert_stream chain.column (record {
                id = 0;
                pool_id = pool.id;
                beneficiary = beneficiary;
                total = print_ℤ (pos total);
                upfront_percent = upfront_percent;
                round_amount = print_ℤ (pos round_amount);
                total_rounds = total_rounds;
                released_rounds = 0;
                released = print_ℤ (upfront_part (pos total) upfront_percent);
                frozen = false;
              })
              pure tt
          ]
      ]

-- `BigInt(text)`
unfoldable pub big_int_of : Text → Result ℤ
big_int_of s = elim (big_int s) [ none ↦ err Fault.syntax_error | some z ↦ ok z ]

unfoldable pub handle_round_released : Chain → ℕ → Text → ℕ → Action Index (Unit {0})
unfolding big_int_of
handle_round_released chain on_chain_id beneficiary amount = do
  found ← gets (λ s. find_on_chain on_chain_id s.db)
  elim found [
    | none ↦ pure tt
    | some pool ↦ do
      existing ← gets (λ s. find_stream pool.id beneficiary s.db)
      elim existing [
        | none ↦ pure tt
        | some x ↦ do
          released ← lift (big_int_of x.released)
          stored ← lift (written chain.column (some x.released) (print_ℤ (released +ℤ pos amount)))
          on_db (
              update_stream
                (record x { released_rounds = x.released_rounds + 1; released = stored }))
          emit_notification beneficiary NotificationType.payout_received (
              codes "payout_received"
              ∷ chain.print_id pool.id
              ∷ beneficiary
              ∷ print_ℕ (x.released_rounds + 1)
              ∷ [])
      ]
  ]

unfoldable pub handle_stream_frozen : Chain → ℕ → Text → Action Index (Unit {0})
handle_stream_frozen chain on_chain_id beneficiary = do
  found ← gets (λ s. find_on_chain on_chain_id s.db)
  elim found [
    | none ↦ pure tt
    | some pool ↦ do
      existing ← gets (λ s. find_stream pool.id beneficiary s.db)
      elim existing [
        | none ↦ pure tt
        | some x ↦ do
          on_db (update_stream (record x { frozen = true }))
          emit_notification beneficiary NotificationType.stream_frozen
              (codes "stream_frozen" ∷ chain.print_id pool.id ∷ beneficiary ∷ [])
      ]
  ]
