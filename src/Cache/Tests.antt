-- ===== src/Cache/Tests.antt =====
-- A cache that expires.
use diaspora_equb_product.Common.{ℕ, ◌≡◌, refl, some, List, [], ◌∷◌, Text, codes, arith, text_eq}
use diaspora_equb_product.Cache.{Entry, get, set, del, del_by_prefix, cleanup, get_or_set}
use diaspora_equb_product.Cache.Refines.{Op, run, get-run, get_or_set_again}

-- Two pools are cached, and the timer runs when one has expired.
abbrev calls : List (ℕ × Op ℕ)
calls =
    (10, Op.set_op (codes "pool:1") (some 7) 5)
    ∷ (20, Op.set_op (codes "pool:2") (some 8) 60)
    ∷ (9000, Op.cleanup_op)
    ∷ (9500, Op.get_op (codes "pool:1"))
    ∷ []

evaluation : Unit {0}
unfolding get set del del_by_prefix cleanup get_or_set text_eq
evaluation = tt

get-run_example : (get 9900 (codes "pool:2") (run calls [])).0 ≡ some 8
unfolding evaluation
get-run_example = get-run calls 9900 (codes "pool:2") (omega arith)

abbrev made : List (Text × Entry ℕ)
made = (get_or_set 10 20 (codes "k") 5 (some 3) []).1

get_or_set_again_example : get_or_set 4000 4000 (codes "k") 5 (some 4) made ≡ (some 3, made)
unfolding evaluation
get_or_set_again_example =
    get_or_set_again 10 20 4000 4000 5 5 (codes "k") 3 (some 4) [] refl (omega arith)
