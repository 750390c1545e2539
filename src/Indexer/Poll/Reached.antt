-- ===== src/Indexer/Poll/Reached.antt =====
-- What catching up one cursor does to the cursors.
use diaspora_equb_product.Common.{
  ℕ, ◌+◌, ◌≤◌, ◌<◌, ◌≡◌, refl, sym, ap, subst, ◌∙◌, arith, some, Option, Text, List, [], ◌∷◌, ◌++◌,
  Option-cases, Bool-cases, inl, inr, leb, or_else, text_eq, text_eq_self, find_one,
  find_one_passes, find_one-append_some, find_one-append_none, find_one-update_some,
  find_one-update_passes, find_one-has_id, update_row, IsKeyed, IsKeyed-mono, append-IsKeyed,
  update_row-IsKeyed,
}
use diaspora_equb_product.Indexer.State.{
  Index, IndexedBlock, block_key, find_block, get_last_indexed_block, set_last_indexed_block,
}
use diaspora_equb_product.Indexer.CatchUp.{chunks, catch_up_key}
use diaspora_equb_product.Indexer.Poll.Stills.{Still}

-- The cursor rows have distinct keys that the database has issued.
abbrev pub AreStored : Index → Type 0
AreStored s = (0 < s.next_id) × IsKeyed block_key s.next_id s.blocks

-- The cursor is stored and has reached block `n`.
abbrev pub HasReached : Text → ℕ → Index → Type 0
HasReached key n s = (b : IndexedBlock) × (find_block key s ≡ some b) × (n ≤ b.last_block_number)

-- The head of the chain, where it is known, is not 100000 blocks past the block of the poll.
abbrev pub IsNear : Option ℕ → ℕ → Type 0
IsNear head current = (0 < current) × (or_else head 0 < current + 100_000)

-- A step that leaves every cursor that has reached `n` there.
abbrev pub AdvancedTo : ℕ → Index → Index → Type 0
AdvancedTo n s t = AreStored t × ((key : Text) → HasReached key n s → HasReached key n t)

abbrev pub Advances : ℕ → Index → Index → Type 0
Advances n s t = AreStored s → AdvancedTo n s t

pub Advances-refl : (n : ℕ) (s : Index) → Advances n s s
Advances-refl n s k = (k, λ key r. r)

Advances-trans : (n : ℕ) (a b c : Index) → Advances n a b → Advances n b c → Advances n a c
Advances-trans n a b c f g k = let (l, r) = f k in let (m, q) = g l in (m, λ key h. q key (r key h))

Advances-of_Still : (n : ℕ) (s t : Index) → Still s t → Advances n s t
Advances-of_Still n s t (e, l) (z, k) = (
  (
    omega arith,
    subst (IsKeyed block_key t.next_id) (sym e) (IsKeyed-mono block_key _ _ s.blocks l k),
  ),
  λ key (b, f, m). (b, ap (find_one (λ x. text_eq x.contract_name key)) e ∙ f, m),
)

set-Advances : (key : Text) (n : ℕ) (s : Index) → Advances n s (set_last_indexed_block key n s)
unfolding set_last_indexed_block
set-Advances key n s (z, k) = elim (Option-cases (find_block key s)) [
  | inl e ↦
      let b : IndexedBlock = record {
        id = s.next_id;
        contract_name = key;
        last_block_number = n;
      } in
      let grown = append-IsKeyed block_key s.next_id b s.blocks z refl k in
      let t : Index = record s { blocks = s.blocks ++ b ∷ []; next_id = s.next_id + 1 } in
      let set : set_last_indexed_block key n s ≡ t = ground arith in
      subst (AdvancedTo n s) (sym set) (
        (omega arith, grown),
        λ other (x, f, m).
            (x, find_one-append_some (λ y. text_eq y.contract_name other) b s.blocks f, m),
      )
  | inr (b, e) ↦
      let new : IndexedBlock = record b { last_block_number = n } in
      let kept = update_row-IsKeyed block_key s.next_id new s.blocks k in
      let stored =
        find_one-has_id block_key (λ x. text_eq x.contract_name key) s.next_id s.blocks k e in
      let t : Index = record s { blocks = update_row block_key new s.blocks } in
      let set : set_last_indexed_block key n s ≡ t = ground arith in
      subst (AdvancedTo n s) (sym set) (
        (z, kept),
        λ other (x, f, m).
            elim (find_one-update_some block_key (λ y. text_eq y.contract_name other) new b s.blocks
              stored refl f) [
                | inl found ↦ (x, found, m)
                | inr (found, same) ↦ (new, found, omega arith)
              ],
      )
]

set_reached : (key : Text) (n : ℕ) (s : Index) → HasReached key n (set_last_indexed_block key n s)
unfolding set_last_indexed_block
set_reached key n s = elim (Option-cases (find_block key s)) [
  | inl e ↦
      let b : IndexedBlock = record {
        id = s.next_id;
        contract_name = key;
        last_block_number = n;
      } in
      let last =
        find_one-append_none (λ x. text_eq x.contract_name key) b s.blocks e (text_eq_self key) in
      (b, ground arith, omega arith)
  | inr (b, e) ↦
      let new : IndexedBlock = record b { last_block_number = n } in
      let passes = find_one_passes (λ x. text_eq x.contract_name key) s.blocks e in
      let updated =
        find_one-update_passes block_key (λ x. text_eq x.contract_name key) new b s.blocks passes e
          refl in
      (new, ground arith, omega arith)
]

reached_before :
    (head : Option ℕ) (key : Text) (n : ℕ) (s : Index)
    → IsNear head n
    → n ≤ get_last_indexed_block head key s
    → HasReached key n s
unfolding get_last_indexed_block
reached_before head key n s (z, near) l = elim (Option-cases (find_block key s)) [
  | inl e ↦ absurd (ground arith)
  | inr (b, e) ↦ (b, e, ground arith)
]

module _ (process : List (ℕ × ℕ) → Index → Index)
    (still : (cs : List (ℕ × ℕ)) (s : Index) → Still s (process cs s)) (head : Option ℕ)
    (key : Text) (n : ℕ) where
  pub catch_up_key-Advances :
      (s t : Index) → catch_up_key process head key n s ≡ some t → Advances n s t
  catch_up_key-Advances s t h =
      let from = get_last_indexed_block head key s + 1 in
      elim (Bool-cases (leb from n)) [
        | inr e ↦
            let same : t ≡ s = ground arith in subst (Advances n s) (sym same) (Advances-refl n s)
        | inl e ↦ elim (Option-cases (chunks (n + 1) from n)) [
          | inl g ↦ absurd (ground arith)
          | inr (cs, g) ↦
              let mid = process cs s in
              let end : t ≡ set_last_indexed_block key n mid = ground arith in
              subst (Advances n s) (sym end) (
                Advances-trans n s mid (set_last_indexed_block key n mid)
                  (Advances-of_Still n s mid (still cs s)) (set-Advances key n mid))
        ]
      ]

  pub catch_up_key_reached :
      (s t : Index)
      → IsNear head n
      → catch_up_key process head key n s ≡ some t
      → HasReached key n t
  catch_up_key_reached s t near h =
      let from = get_last_indexed_block head key s + 1 in
      elim (Bool-cases (leb from n)) [
        | inr e ↦
            let same : t ≡ s = ground arith in
            subst (HasReached key n) (sym same) (reached_before head key n s near (ground arith))
        | inl e ↦ elim (Option-cases (chunks (n + 1) from n)) [
          | inl g ↦ absurd (ground arith)
          | inr (cs, g) ↦
              let end : t ≡ set_last_indexed_block key n (process cs s) = ground arith in
              subst (HasReached key n) (sym end) (set_reached key n (process cs s))
        ]
      ]

-- A cursor that has reached the block of the poll is left alone.
pub catch_up_key_again :
    (process : List (ℕ × ℕ) → Index → Index) (head : Option ℕ) (key : Text) (n m : ℕ) (s : Index)
    → m ≤ n
    → HasReached key n s
    → catch_up_key process head key m s ≡ some s
unfolding get_last_indexed_block
catch_up_key_again process head key n m s l (b, f, r) = ground arith
