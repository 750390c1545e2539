-- ===== src/Pools/Membership/Rounds.antt =====
-- Contributions are recorded once a round, and a closed round splits the members.
use diaspora_equb_product.Common.{
  ℕ, ◌+◌, ◌≡◌, Bool, true, false, ◌&&◌, List, [], ◌∷◌, ◌++◌, Text, arith, ok, err, Fault, ◌==◌, any,
  text_eq, text_eq_self, find_one-append_none, Option-cases, Bool-cases, inl, inr, map, In,
}
use mathlib.Core.List.{Perm, perm_middle}
use mathlib.Core.List.Perm
use diaspora_equb_product.Pools.Entities.{PoolMember, Contribution, Db}
use diaspora_equb_product.Pools.Store.{find_member, same_contribution}
use diaspora_equb_product.Pools.Membership.{
  new_member, new_contribution, record_contribution, split_members,
}

any-append_self :
    {A : Type 0} (p : A → Bool) (a : A) (xs : List A) → p a ≡ true → any p (xs ++ a ∷ []) ≡ true
any-append_self p a [] h = ground arith
any-append_self p a (x ∷ xs) h = ground (arith, any-append_self p a xs)

-- A contribution that was recorded is refused as a conflict when it is recorded again.
pub record_contribution_again :
    (pool_id : ℕ) (wallet : Text) (round : ℕ) (db : Db) {db' : Db}
    → record_contribution pool_id wallet round db ≡ (ok tt, db')
    → (record_contribution pool_id wallet round db').0 ≡ err Fault.conflict
unfolding record_contribution new_member new_contribution
record_contribution_again pool_id wallet round db {db'} h =
    let m : PoolMember = record { id = db.next_id; pool_id = pool_id; wallet_address = wallet } in
    let late = same_contribution pool_id wallet round in
    let c : Contribution = new_contribution pool_id wallet round in
    let stored = λ (id : ℕ).
      any-append_self late (record c { id = id }) db.contributions
        (ground (arith, text_eq_self wallet)) in
    elim (Option-cases (find_member pool_id wallet db)) [
      | inr (x, e) ↦ ground (arith, stored db.next_id)
      | inl e ↦ ground (
        arith,
        stored (db.next_id + 1),
        find_one-append_none (λ x. x.pool_id == pool_id && text_eq x.wallet_address wallet) m
            db.members e (ground (arith, text_eq_self wallet)),
      )
    ]

-- Every member is a contributor or a defaulter, once.
pub split_members-perm :
    (contributed : Text → Bool) (ms : List PoolMember)
    → let (contributors, defaulters) = split_members contributed ms in
      Perm (contributors ++ defaulters) (map (λ m. m.wallet_address) ms)
unfolding split_members
split_members-perm contributed [] = Perm.refl []
split_members-perm contributed (m ∷ ms) = elim (Bool-cases (contributed m.wallet_address)) [
  | inl e ↦ rw e (Perm.cons m.wallet_address (split_members-perm contributed ms))
  | inr e ↦ rw e (
      Perm.trans (perm_middle _ _) (Perm.cons m.wallet_address (split_members-perm contributed ms)))
]

-- The contributors have contributed, and the defaulters have not.
pub split_members_sound :
    (contributed : Text → Bool) (ms : List PoolMember) (w : Text)
    → let (contributors, defaulters) = split_members contributed ms in
      (In w contributors → contributed w ≡ true) × (In w defaulters → contributed w ≡ false)
unfolding split_members
split_members_sound contributed [] w = (λ h. absurd h.1, λ h. absurd h.1)
split_members_sound contributed (m ∷ ms) w =
    let (ih, jh) = split_members_sound contributed ms w in
    elim (Bool-cases (contributed m.wallet_address)) [
      | inl e ↦ rw e (elim [ inl same ↦ rw same e | inr i ↦ ih i ], jh)
      | inr e ↦ rw e (ih, elim [ inl same ↦ rw same e | inr i ↦ jh i ])
    ]
