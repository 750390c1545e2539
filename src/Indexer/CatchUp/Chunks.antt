-- ===== src/Indexer/CatchUp/Chunks.antt =====
-- The loop over the chunks ends, and its queries find each event of the range once, in the order
-- of the chain.
use diaspora_equb_product.Common.{
  ℕ, zero, suc, ◌+◌, ◌*◌, min, ◌≡◌, refl, sym, ◌∙◌, ap, subst, ◌≤◌, ◌<◌, Bool, true, false, ◌&&◌,
  some, List, [], ◌∷◌, ◌++◌, map, arith, leb, any, filter_by, Bool-cases, inl, inr, ◌==◌, sort_by,
  sort_by-collect, collect, any_of, Disjoint, Ascending, AllAfter,
}
use diaspora_equb_product.Indexer.Events.{EventLog, event_number, log_key}
use diaspora_equb_product.Indexer.CatchUp.{Query, chunks, query_all}

-- With fuel for the range the loop ends.
pub chunks_total :
    (f start current : ℕ)
    → current < start + 2000 * f
    → (cs : List (ℕ × ℕ)) × (chunks f start current ≡ some cs)
unfolding chunks
chunks_total zero start current h = ([], ground arith)
chunks_total (suc f) start current h =
    let (cs, e) = chunks_total f (start + 2000) current (omega arith) in
    elim (Bool-cases (leb start current)) [
      | inl b ↦ ((start, min (start + 1999) current) ∷ cs, ground arith)
      | inr b ↦ ([], ground arith)
    ]

-- An event of the name in the blocks from `start` to `end`.
abbrev pub is_in : ℕ → ℕ → ℕ → EventLog → Bool
is_in start end n e =
    leb start e.block_number && leb e.block_number end && n == event_number e.event

-- An event of one of the names.
abbrev pub is_wanted : List ℕ → ℕ → ℕ → EventLog → Bool
is_wanted names start end e =
    leb start e.block_number && leb e.block_number end && any (λ n. n == event_number e.event) names

pub filter_by_ext :
    (p q : EventLog → Bool) (xs : List EventLog)
    → ((x : EventLog) → p x ≡ q x)
    → filter_by p xs ≡ filter_by q xs
filter_by_ext p q [] h = refl
filter_by_ext p q (x ∷ xs) h = ground (arith, h x, filter_by_ext p q xs h)

any_of_names :
    (names : List ℕ) (start end : ℕ) (e : EventLog)
    → any_of log_key (map (is_in start end) names) e ≡ is_wanted names start end e
any_of_names [] start end e = ground arith
any_of_names (n ∷ names) start end e = ground (arith, any_of_names names start end e)

-- No name stands twice.
abbrev pub Distinct : List ℕ → Type 0
Distinct [] = Unit {0}
Distinct (n ∷ ns) = (any (λ m. m == n) ns ≡ false) × Distinct ns

names-Disjoint :
    (names : List ℕ) (start end : ℕ)
    → Distinct names
    → Disjoint log_key (map (is_in start end) names)
names-Disjoint [] start end h = tt
names-Disjoint (n ∷ names) start end (h, k) =
    (λ e p. any_of_names names start end e ∙ other e p, names-Disjoint names start end k)
  where
    other : (e : EventLog) → is_in start end n e ≡ true → is_wanted names start end e ≡ false
    other e p =
        let same : event_number e.event ≡ n = ground arith in
        let none_left = subst (λ k. any (λ m. m == k) names ≡ false) (sym same) h in ground arith

-- The chain answers a query with the events of its log.
abbrev pub Answers : Query → List EventLog → Type 0
Answers query log = (n start end : ℕ) → query n start end ≡ some (filter_by (is_in start end n) log)

query_all-collect :
    (query : Query) (log : List EventLog) (names : List ℕ) (start end : ℕ)
    → Answers query log
    → query_all query names start end ≡ collect log_key (map (is_in start end) names) log
query_all-collect query log [] start end h = refl
query_all-collect query log (n ∷ names) start end h =
    ground (arith, h n start end, query_all-collect query log names start end h)

-- The queries of a chunk, sorted, are the wanted events of its blocks.
pub sort_by-query_all :
    (query : Query) (log : List EventLog) (names : List ℕ) (start end : ℕ)
    → Answers query log
    → Ascending log_key log
    → Distinct names
    → sort_by log_key (query_all query names start end) ≡ filter_by (is_wanted names start end) log
sort_by-query_all query log names start end h a d =
    ap (sort_by log_key) (query_all-collect query log names start end h)
    ∙ sort_by-collect log_key (map (is_in start end) names) log (names-Disjoint names start end d) a
    ∙ filter_by_ext _ _ log (any_of_names names start end)

nothing_before :
    (names : List ℕ) (x : EventLog) (xs : List EventLog) (start end : ℕ)
    → AllAfter log_key x xs
    → end < x.block_number
    → filter_by (is_wanted names start end) xs ≡ []
nothing_before names x [] start end h l = refl
nothing_before names x (y ∷ ys) start end (h, k) l =
    let rest = nothing_before names x ys start end k l in
    let out : is_wanted names start end y ≡ false = ground arith in ground arith

-- The wanted events of a range are those of its first part, then those of the rest.
pub filter_by_split :
    (names : List ℕ) (log : List EventLog) (start middle end : ℕ)
    → Ascending log_key log
    → start ≤ middle + 1
    → middle ≤ end
    → filter_by (is_wanted names start middle) log
        ++ filter_by (is_wanted names (middle + 1) end) log
      ≡ filter_by (is_wanted names start end) log
filter_by_split names [] start middle end a h k = refl
filter_by_split names (x ∷ xs) start middle end (l, a) h k =
    let rest = filter_by_split names xs start middle end a h k in
    elim (Bool-cases (leb x.block_number middle)) [
      | inl b ↦
          let not_later : is_wanted names (middle + 1) end x ≡ false = ground arith in
          let same : is_wanted names start middle x ≡ is_wanted names start end x = ground arith in
          ground arith
      | inr b ↦
          let gone = nothing_before names x xs start middle l (ground arith) in
          let not_earlier : is_wanted names start middle x ≡ false = ground arith in
          let same : is_wanted names (middle + 1) end x ≡ is_wanted names start end x =
            ground arith in
          ground arith
    ]
