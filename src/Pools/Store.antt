-- ===== src/Pools/Store.antt =====
-- The repository calls of PoolsService: `findOne` and `save` on each table. `save` inserts a row
-- without a key and updates one with a key; an insertion that breaks a unique index of
-- backend/src/entities throws.
use diaspora_equb_product.Common.{
  ℕ, lift, written, ◌>>=◌, ◌+◌, Bool, not, none, some, opt_eq, ◌&&◌, Option, [], ◌∷◌, ◌++◌, Text,
  ◌==◌, any, if◌then◌else◌, update_row, text_eq, ok, err, Action, Fault, find_one,
}
use diaspora_equb_product.Pools.Entities.{
  Pool, PoolMember, Contribution, PayoutStream, Season, Round, IdempotencyKey, Db, pool_key,
  season_key, round_key, rules_key, EqubRulesEntity,
}

-- `poolRepo.findOne({ where: { id } })`
abbrev pub find_pool : ℕ → Db → Option Pool
find_pool pool_id db = find_one (λ p. p.id == pool_id) db.pools

abbrev pub find_round : ℕ → Db → Option Round
find_round round_id db = find_one (λ r. r.id == round_id) db.rounds

abbrev pub save_pool : Pool → Action Db Pool
save_pool p db = (ok p, record db { pools = update_row pool_key p db.pools })

-- `poolRepo.findOne({ where: { onChainPoolId } })`
abbrev pub find_on_chain : ℕ → Db → Option Pool
find_on_chain on_chain_id db = find_one (λ p. opt_eq p.on_chain_pool_id on_chain_id) db.pools

-- `poolRepo.update(poolId, …)`
abbrev pub update_pool : ℕ → (Pool → Pool) → Action Db (Unit {0})
update_pool pool_id f db = elim (find_pool pool_id db) [
  | none ↦ (ok tt, db)
  | some p ↦ (ok tt, record db { pools = update_row pool_key (f p) db.pools })
]

abbrev pub find_rules : ℕ → Db → Option EqubRulesEntity
find_rules pool_id db = find_one (λ r. r.pool_id == pool_id) db.rules

-- `rulesRepo.save`; unique on the pool.
abbrev pub save_rules : EqubRulesEntity → Action Db EqubRulesEntity
save_rules r db =
    let r' : EqubRulesEntity = record r { id = db.next_id } in
    if not (r.id == 0)
    then (ok r, record db { rules = update_row rules_key r db.rules })
    else if any (λ x. x.pool_id == r.pool_id) db.rules
    then (err Fault.unique_violation, db)
    else (ok r', record db { rules = db.rules ++ r' ∷ []; next_id = db.next_id + 1 })

abbrev pub insert_pool : Pool → Action Db Pool
insert_pool p db =
    let p' : Pool = record p { id = db.next_id } in
    (ok p', record db { pools = db.pools ++ p' ∷ []; next_id = db.next_id + 1 })

abbrev pub contribution_key : Contribution → ℕ
contribution_key c = c.id

abbrev pub update_contribution : Contribution → Action Db Contribution
update_contribution c db =
    (ok c, record db { contributions = update_row contribution_key c db.contributions })

abbrev pub stream_key : PayoutStream → ℕ
stream_key x = x.id

abbrev pub find_stream : ℕ → Text → Db → Option PayoutStream
find_stream pool_id beneficiary db =
    find_one (λ y. y.pool_id == pool_id && text_eq y.beneficiary beneficiary) db.streams

abbrev pub update_stream : PayoutStream → Action Db PayoutStream
update_stream x db = (ok x, record db { streams = update_row stream_key x db.streams })

abbrev pub insert_season : Season → Action Db Season
insert_season s db =
    let s' : Season = record s { id = db.next_id } in
    (ok s', record db { seasons = db.seasons ++ s' ∷ []; next_id = db.next_id + 1 })

abbrev pub save_season : Season → Action Db Season
save_season s db =
    if s.id == 0
    then insert_season s db
    else (ok s, record db { seasons = update_row season_key s db.seasons })

-- `uq_round_pool_season_number`
abbrev pub same_round_number : Round → Round → Bool
same_round_number r x =
    x.pool_id == r.pool_id && x.season_id == r.season_id && x.round_number == r.round_number

abbrev pub insert_round : Round → Action Db Round
insert_round r db =
    let r' : Round = record r { id = db.next_id } in
    if any (same_round_number r) db.rounds
    then (err Fault.unique_violation, db)
    else (ok r', record db { rounds = db.rounds ++ r' ∷ []; next_id = db.next_id + 1 })

abbrev pub update_round : Round → Action Db Round
update_round r db = (ok r, record db { rounds = update_row round_key r db.rounds })

abbrev pub find_member : ℕ → Text → Db → Option PoolMember
find_member pool_id wallet db =
    find_one (λ m. m.pool_id == pool_id && text_eq m.wallet_address wallet) db.members

-- Unique on the pool and the wallet.
abbrev pub insert_member : PoolMember → Action Db PoolMember
insert_member m db =
    let m' : PoolMember = record m { id = db.next_id } in
    if any (λ x. x.pool_id == m.pool_id && text_eq x.wallet_address m.wallet_address) db.members
    then (err Fault.unique_violation, db)
    else (ok m', record db { members = db.members ++ m' ∷ []; next_id = db.next_id + 1 })

abbrev pub same_contribution : ℕ → Text → ℕ → Contribution → Bool
same_contribution pool_id wallet round x =
    x.pool_id == pool_id && text_eq x.wallet_address wallet && x.round == round

-- Unique on the pool, the wallet and the round.
abbrev pub insert_contribution : Contribution → Action Db Contribution
insert_contribution c db =
    let c' : Contribution = record c { id = db.next_id } in
    if any (same_contribution c.pool_id c.wallet_address c.round) db.contributions
    then (err Fault.unique_violation, db)
    else (
      ok c',
      record db { contributions = db.contributions ++ c' ∷ []; next_id = db.next_id + 1 },
    )

-- Unique on the pool and the beneficiary.
abbrev pub add_stream : PayoutStream → Action Db PayoutStream
add_stream x db =
    let x' : PayoutStream = record x { id = db.next_id } in
    if any (λ y. y.pool_id == x.pool_id && text_eq y.beneficiary x.beneficiary) db.streams
    then (err Fault.unique_violation, db)
    else (ok x', record db { streams = db.streams ++ x' ∷ []; next_id = db.next_id + 1 })

-- `payoutStreamRepo.save` of a created stream, with the texts of its numeric columns.
abbrev pub insert_stream : (Text → Option Text) → PayoutStream → Action Db PayoutStream
insert_stream column x = do
  total ← lift (written column none x.total)
  round_amount ← lift (written column none x.round_amount)
  released ← lift (written column none x.released)
  add_stream (record x { total = total; round_amount = round_amount; released = released })

abbrev pub has_key : Text → Text → IdempotencyKey → Bool
has_key route key k = text_eq k.route route && text_eq k.key key

-- `uq_idempotency_route_key`
abbrev pub insert_key : IdempotencyKey → Action Db IdempotencyKey
insert_key k db =
    let k' : IdempotencyKey = record k { id = db.next_id } in
    if any (has_key k.route k.key) db.idempotency_keys then (err Fault.unique_violation, db) else (
      ok k',
      record db { idempotency_keys = db.idempotency_keys ++ k' ∷ []; next_id = db.next_id + 1 },
    )
