-- ===== src/Common/Decimal/Dots.antt =====
-- `BigInt` throws on a text with a dot, such as a decimal fraction.
use Prim.Native.Nat.{ℕ, ◌+◌, ◌*◌, ◌≤◌}
use mathlib.Core.Path.{◌≡◌, refl, ◌∙◌}
use mathlib.Core.Bool.{Bool, true, ◌||◌}
use mathlib.Core.Option.{none}
use mathlib.Core.List.{[], ◌∷◌, ◌++◌, reverse, reverse_aux}
use native.Mathlib.Omega.{arith}
use diaspora_equb_product.Common.Tests.{◌==◌}
use diaspora_equb_product.Common.Lists.{any}
use diaspora_equb_product.Common.Strings.{Text, trim, trim_start, is_space}
use diaspora_equb_product.Common.Decimal.{
  big_int, is_digit, parse_base, parse_digits, parse_unsigned, parse_trimmed, digit_value, radix,
}

abbrev pub has_dot : Text → Bool
has_dot s = any (λ c. c == b'.') s

has_dot-reverse_aux : (s acc : Text) → has_dot (reverse_aux s acc) ≡ has_dot s || has_dot acc
has_dot-reverse_aux [] acc = refl
has_dot-reverse_aux (c ∷ s) acc = ground (arith, has_dot-reverse_aux s (c ∷ acc))

has_dot-reverse : (s : Text) → has_dot (reverse s) ≡ has_dot s
has_dot-reverse s = ground (arith, has_dot-reverse_aux s [])

has_dot-trim_start : (s : Text) → has_dot (trim_start s) ≡ has_dot s
unfolding is_space
has_dot-trim_start [] = refl
has_dot-trim_start (c ∷ s) = ground (arith, has_dot-trim_start s)

has_dot-trim : (s : Text) → has_dot (trim s) ≡ has_dot s
unfolding trim
has_dot-trim s =
    has_dot-reverse (trim_start (reverse (trim_start s)))
    ∙ has_dot-trim_start (reverse (trim_start s))
    ∙ has_dot-reverse (trim_start s)
    ∙ has_dot-trim_start s

parse_base_of_dot :
    (base acc : ℕ) (s : Text) → base ≤ 16 → has_dot s ≡ true → parse_base base acc s ≡ none
unfolding parse_base digit_value is_digit
parse_base_of_dot base acc [] h e = absurd (ground arith)
parse_base_of_dot base acc (c ∷ s) h e =
    ground (arith, parse_base_of_dot base (acc * base + digit_value c) s h)

parse_digits_of_dot :
    (base : ℕ) (s : Text) → base ≤ 16 → has_dot s ≡ true → parse_digits base s ≡ none
unfolding parse_digits
parse_digits_of_dot base [] h e = refl
parse_digits_of_dot base (c ∷ s) h e = parse_base_of_dot base 0 (c ∷ s) h e

parse_unsigned_of_dot : (s : Text) → has_dot s ≡ true → parse_unsigned s ≡ none
unfolding parse_unsigned radix
parse_unsigned_of_dot [] e = refl
parse_unsigned_of_dot (c ∷ []) e = parse_digits_of_dot 10 (c ∷ []) (omega arith) e
parse_unsigned_of_dot (c ∷ d ∷ s) e = ground (
  arith,
  parse_digits_of_dot 10 (c ∷ d ∷ s) (omega arith) e,
  parse_digits_of_dot 16 s (omega arith),
  parse_digits_of_dot 8 s (omega arith),
  parse_digits_of_dot 2 s (omega arith),
)

parse_trimmed_of_dot : (s : Text) → has_dot s ≡ true → parse_trimmed s ≡ none
unfolding parse_trimmed
parse_trimmed_of_dot [] e = absurd (ground arith)
parse_trimmed_of_dot (c ∷ s) e =
    ground (arith, parse_digits_of_dot 10 s (omega arith), parse_unsigned_of_dot (c ∷ s) e)

pub big_int_of_dot : (s : Text) → has_dot s ≡ true → big_int s ≡ none
unfolding big_int
big_int_of_dot s e = parse_trimmed_of_dot (trim s) (has_dot-trim s ∙ e)

pub has_dot-append : (s f : Text) → has_dot (s ++ b'.' ∷ f) ≡ true
has_dot-append [] f = refl
has_dot-append (c ∷ s) f = ground (arith, has_dot-append s f)
