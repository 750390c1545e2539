-- ===== src/Pools/Sample.antt =====
-- A pool of two members in its first round.
use diaspora_equb_product.Common.{
  ℕ, ◌≡◌, false, Option, none, some, [], ◌∷◌, Text, codes, arith, ap, sym, some_inj, to_lower,
  is_blank, pos, print_ℤ,
}
use diaspora_equb_product.Pools.Entities.{
  Pool, PoolMember, PoolStatus, Season, SeasonStatus, Round, RoundStatus, Db,
}
use diaspora_equb_product.Pools.Address.{IsChecksum}
use diaspora_equb_product.Pools.Season.{zero_address}

abbrev pub admin : Text
admin = codes "0xAd"

abbrev pub alice : Text
alice = codes "0xA1"

abbrev pub bob : Text
bob = codes "0xb0"

abbrev pub pool : Pool
pool = record {
  id = 1;
  on_chain_pool_id = some 7;
  tier = 0;
  contribution_amount = codes "5";
  max_members = 2;
  current_round = 1;
  treasury = zero_address;
  token = zero_address;
  status = PoolStatus.round_closed;
  tx_hash = none;
  active_season_id = some 2;
  active_round_id = some 3;
  created_by = some admin;
  equb_type = none;
  frequency = none;
}

abbrev pub season : Season
season = record {
  id = 2;
  pool_id = 1;
  season_number = 1;
  status = SeasonStatus.active;
  total_rounds = 2;
  completed_rounds = 0;
  contribution_amount = codes "5";
  token = zero_address;
  payout_split_pct = 20;
  cadence = none;
  started_at = 0;
  completed_at = none;
}

abbrev pub round : RoundStatus → Round
round status = record {
  id = 3;
  pool_id = 1;
  season_id = 2;
  round_number = 1;
  status = status;
  closed_at = none;
  winner_picked_at = none;
  winner_wallet = none;
}

abbrev pub member : ℕ → Text → PoolMember
member id wallet = record { id = id; pool_id = 1; wallet_address = wallet }

abbrev pub database : RoundStatus → Db
database status = record {
  pools = pool ∷ [];
  members = member 4 alice ∷ member 5 bob ∷ [];
  contributions = [];
  streams = [];
  seasons = season ∷ [];
  rounds = round status ∷ [];
  idempotency_keys = [];
  rules = [];
  next_id = 10;
}

abbrev pub open_db : Db
open_db = database RoundStatus.open_round

abbrev pub closed_db : Db
closed_db = database RoundStatus.closed

-- An address that is its own checksum form, and dice that show 0.
abbrev pub same_address : Text → Option Text
same_address [] = none
same_address (c ∷ s) = some (c ∷ s)

pub same_address_letters : IsChecksum same_address
same_address_letters = record { keeps_letters = λ s a h. keeps s a; not_empty = not_empty }
  where
    keeps : (s a : Text) → same_address s ≡ some a → to_lower a ≡ to_lower s
    keeps [] a h = absurd (ground arith)
    keeps (c ∷ s) a h = ap to_lower (sym (some_inj h))

    not_empty : (s a : Text) → same_address s ≡ some a → is_blank a ≡ false
    not_empty [] a h = absurd (ground arith)
    not_empty (c ∷ s) a h = ground arith

abbrev pub dice : ℕ → ℕ
dice n = 0

abbrev pub digest : Text → Text
digest s = s

abbrev pub print_id : ℕ → Text
print_id n = print_ℤ (pos n)
