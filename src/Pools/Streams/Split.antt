-- ===== src/Pools/Streams/Split.antt =====
-- How `scheduleStream` splits a payout: no more is paid than the total, and less than one unit per
-- round is left over.
use diaspora_equb_product.Common.{
  ℕ, ◌+◌, ◌-◌, ◌*◌, ◌/◌, ◌≡◌, ◌<◌, ◌≤◌, true, some, [], ◌∷◌, ◌++◌, Text, arith, ok, err, Fault,
  ◌==◌, ltb, pos, ◌-ℤ◌, ◌*ℤ◌, div_ℤ, big_int, print_ℤ, IsDecimalColumn, written, result_cases,
  subst, refl, Option, none, false, Bool-cases, inl, inr,
}
use diaspora_equb_product.Pools.Entities.{PayoutStream, Db}
use diaspora_equb_product.Pools.Store.{insert_stream}
use diaspora_equb_product.Pools.Streams.{parse_total, upfront_part, round_part, schedule_stream}

-- The parts of a total, in whole units.
abbrev pub upfront : ℕ → ℕ → ℕ
upfront total percent = total * percent / 100

abbrev pub per_round : ℕ → ℕ → ℕ → ℕ
per_round total percent rounds = (total - upfront total percent) / rounds

upfront_part_pos :
    (total percent : ℕ) → upfront_part (pos total) percent ≡ pos (upfront total percent)
unfolding upfront_part div_ℤ ◌*ℤ◌
upfront_part_pos total percent = ground arith

upfront-le : (total percent : ℕ) → percent ≤ 30 → 100 * upfront total percent ≤ 30 * total
upfront-le total percent h = let bound : total * percent ≤ total * 30 = grind arith in omega arith

round_part_pos :
    (total percent rounds : ℕ)
    → percent ≤ 30
    → 0 < rounds
    → round_part (pos total) percent rounds ≡ ok (pos (per_round total percent rounds))
unfolding round_part div_ℤ ◌-ℤ◌
round_part_pos total percent rounds h k =
    ground (arith, upfront_part_pos total percent, upfront-le total percent h)

-- What a scheduled stream pays out: the upfront part is at most 30 percent, the parts add up to no
-- more than the total, and what is lost to rounding is less than one unit for each round.
pub record IsSplit (total percent rounds : ℕ) : Type 0 where
  pub capped : 100 * upfront total percent ≤ 30 * total
  pub covered : upfront total percent + per_round total percent rounds * rounds ≤ total
  pub dust : total < upfront total percent + per_round total percent rounds * rounds + rounds

pub upfront-IsSplit :
    (total percent rounds : ℕ) → percent ≤ 30 → 0 < rounds → IsSplit total percent rounds
upfront-IsSplit total percent rounds h k =
    let capped = upfront-le total percent h in
    record { capped = capped; covered = omega arith; dust = omega arith }

-- The stored row of a scheduled stream: its text of the released amount is the upfront part with
-- decimals after it, that of the round amount is the part of a round with decimals, and that of the
-- total is what the column stores for the total as it was given.
pub record Stores (column : Text → Option Text) (given : Text) (n percent rounds : ℕ)
    (s : PayoutStream) : Type 0 where
  pub released_decimals : Text
  pub round_decimals : Text
  pub released : s.released ≡ print_ℤ (pos (upfront n percent)) ++ b'.' ∷ released_decimals
  pub round_amount :
      s.round_amount ≡ print_ℤ (pos (per_round n percent rounds)) ++ b'.' ∷ round_decimals
  pub total : column given ≡ some s.total

written-column :
    (column : Text → Option Text) (new t : Text)
    → written column none new ≡ ok t
    → column new ≡ some t
unfolding written
written-column column new t h = ground arith

-- Saving a row with these amounts.
insert_stream-Stores :
    (column : Text → Option Text) (total : Text) (n percent rounds : ℕ) (x : PayoutStream) (db : Db)
    {s : PayoutStream} {db' : Db}
    → IsDecimalColumn column
    → x.total ≡ total
    → x.round_amount ≡ print_ℤ (pos (per_round n percent rounds))
    → x.released ≡ print_ℤ (pos (upfront n percent))
    → insert_stream column x db ≡ (ok s, db')
    → Stores column total n percent rounds s × (db'.streams ≡ db.streams ++ s ∷ [])
insert_stream-Stores column total n percent rounds x db {s} {db'} d a b c h =
    elim (result_cases (written column none x.total)) [
      | inr (e, k) ↦ absurd (ground arith)
      | inl (t, k) ↦ elim (result_cases (written column none x.round_amount)) [
        | inr (e, l) ↦ absurd (ground arith)
        | inl (u, l) ↦ elim (result_cases (written column none x.released)) [
          | inr (e, m) ↦ absurd (ground arith)
          | inl (v, m) ↦
              let (f, round_shape) =
                d.decimals (pos (per_round n percent rounds)) u
                  (subst (λ y. column y ≡ some u) b (written-column column x.round_amount u l)) in
              let (g, released_shape) =
                d.decimals (pos (upfront n percent)) v
                  (subst (λ y. column y ≡ some v) c (written-column column x.released v m)) in
              let whole : column total ≡ some t =
                subst (λ y. column y ≡ some t) a (written-column column x.total t k) in
              (
                record {
                  released_decimals = g;
                  round_decimals = f;
                  released = ground arith;
                  round_amount = ground arith;
                  total = ground arith;
                },
                ground arith,
              )
        ]
      ]
    ]

-- Where the numeric columns store an integer with decimals: the stored stream of a natural total
-- has the upfront part and the part of a round in its columns, with decimals after them, and what
-- the column makes of the total; the row is added to the table. The upfront part is at most 30
-- percent, the parts together are at most the total, and less than one unit a round is left over.
pub schedule_stream-IsSplit :
    (column : Text → Option Text) (pool_id : ℕ) (beneficiary total : Text) (percent rounds n : ℕ)
    (db : Db) {s : PayoutStream} {db' : Db}
    → IsDecimalColumn column
    → big_int total ≡ some (pos n)
    → schedule_stream column pool_id beneficiary total percent rounds db ≡ (ok s, db')
    → Stores column total n percent rounds s
      × IsSplit n percent rounds
      × (db'.streams ≡ db.streams ++ s ∷ [])
unfolding schedule_stream parse_total
schedule_stream-IsSplit column pool_id beneficiary total percent rounds n db {s} {db'} d p h =
    elim (Bool-cases (ltb 30 percent)) [
      | inl e ↦ absurd (ground arith)
      | inr e ↦ elim (Bool-cases (rounds == 0)) [
        | inl z ↦ absurd (refused z)
        | inr z ↦
            let low : percent ≤ 30 = ground arith in
            let some_rounds : 0 < rounds = ground arith in
            let r = round_part_pos n percent rounds low some_rounds in
            let u = upfront_part_pos n percent in
            let row : PayoutStream = record {
              id = 0;
              pool_id = pool_id;
              beneficiary = beneficiary;
              total = total;
              upfront_percent = percent;
              round_amount = print_ℤ (pos (per_round n percent rounds));
              total_rounds = rounds;
              released_rounds = 0;
              released = print_ℤ (pos (upfront n percent));
              frozen = false;
            } in
            let saved : insert_stream column row db ≡ (ok s, db') = ground arith in
            let (stores, added) =
              insert_stream-Stores column total n percent rounds row db d refl refl refl saved in
            (stores, upfront-IsSplit n percent rounds low some_rounds, added)
      ]
    ]
  where
    no_rounds :
        (rounds == 0) ≡ true → round_part (pos n) percent rounds ≡ err Fault.division_by_zero
    no_rounds z = unfold round_part in rw z

    refused : (rounds == 0) ≡ true → ⊥
    refused z = ground (arith, no_rounds z)
