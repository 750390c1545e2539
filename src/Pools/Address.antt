-- ===== src/Pools/Address.antt =====
-- What the pool service relies on of ethers' `getAddress`, and of the wallets that are stored.
use diaspora_equb_product.Common.{
  ◌≡◌, Bool, true, false, ◌&&◌, Option, some, List, [], ◌∷◌, Text, ◌==◌, to_lower, is_blank,
}
use diaspora_equb_product.Pools.Entities.{PoolMember}

-- `0x…`, as the DTOs demand of a wallet.
abbrev pub has_hex_prefix : Text → Bool
has_hex_prefix [] = false
has_hex_prefix (a ∷ []) = false
has_hex_prefix (a ∷ b ∷ s) = a == b'0' && b == b'x'

-- The checksum form of a prefixed address differs from it in letter case only.
pub record IsChecksum (get_address : Text → Option Text) : Type 0 where
  pub keeps_letters :
      (s a : Text) → has_hex_prefix s ≡ true → get_address s ≡ some a → to_lower a ≡ to_lower s
  pub not_empty : (s a : Text) → get_address s ≡ some a → is_blank a ≡ false

-- Every member's wallet is a prefixed address.
abbrev pub AllPrefixed : List PoolMember → Type 0
AllPrefixed [] = Unit {0}
AllPrefixed (m ∷ ms) = (has_hex_prefix m.wallet_address ≡ true) × AllPrefixed ms
