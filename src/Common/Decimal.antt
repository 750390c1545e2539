-- ===== src/Common/Decimal.antt =====
-- Integers in text: `toString` and `BigInt` of a text, and that reading undoes printing.
pub mod Dots
use Prim.Native.Nat.{ℕ, zero, suc, ◌+◌, ◌-◌, ◌*◌, ◌/◌, ◌%◌, ◌<◌}
use mathlib.Core.Path.{◌≡◌, refl, ap}
use mathlib.Core.Logic.{◌≢◌, inl, inr}
use mathlib.Core.Bool.{Bool, true, false, ◌&&◌, ◌||◌}
use mathlib.Core.Option
use mathlib.Core.Option.{Option, none, some}
use mathlib.Core.List.{[], ◌∷◌, reverse-reverse, reverse_aux}
use native.Mathlib.Omega.{arith}
use diaspora_equb_product.Common.Tests.{ltb, leb, ◌==◌, if◌then◌else◌, Bool-cases}
use diaspora_equb_product.Common.Strings.{Text, trim, trim_start, is_space, is_blank}
use diaspora_equb_product.Common.Int.{ℤ, pos, negsuc, sub_ℕ}

-- The decimal digits of `n` before the digits `acc`; a number has fewer digits than its value
-- plus one, so `suc n` is fuel enough.
print_from : ℕ → ℕ → Text → Text
print_from zero n acc = acc
print_from (suc f) n acc =
    let rest = print_from f (n / 10) ((48 + n % 10) ∷ acc) in
    if ltb n 10 then (48 + n) ∷ acc else rest

unfoldable pub print_ℕ : ℕ → Text
unfolding print_from
print_ℕ n = print_from (suc n) n []

-- `z.toString()`
unfoldable pub print_ℤ : ℤ → Text
unfolding print_ℕ
print_ℤ (pos n) = print_ℕ n
print_ℤ (negsuc n) = b'-' ∷ print_ℕ (suc n)

unfoldable pub is_digit : ℕ → Bool
is_digit c = leb b'0' c && leb c b'9'

pub digit_value : ℕ → ℕ
digit_value c =
    if is_digit c
    then c - 48
    else if leb b'a' c && leb c b'f'
    then c - 87
    else if leb b'A' c && leb c b'F'
    then c - 55
    else 99

pub parse_base : ℕ → ℕ → Text → Option ℕ
parse_base base acc [] = some acc
parse_base base acc (c ∷ s) =
    let rest = parse_base base (acc * base + digit_value c) s in
    if ltb (digit_value c) base then rest else none

-- One digit at least.
pub parse_digits : ℕ → Text → Option ℕ
parse_digits base [] = none
parse_digits base (c ∷ s) = parse_base base 0 (c ∷ s)

-- The radix of the prefixes `0x`, `0o` and `0b`.
pub radix : ℕ → ℕ
radix c =
    if c == b'x' || c == b'X'
    then 16
    else if c == b'o' || c == b'O'
    then 8
    else if c == b'b' || c == b'B'
    then 2
    else 0

pub parse_unsigned : Text → Option ℕ
parse_unsigned [] = none
parse_unsigned (c ∷ []) = parse_digits 10 (c ∷ [])
parse_unsigned (c ∷ d ∷ s) =
    if c == b'0' && ltb 0 (radix d) then parse_digits (radix d) s else parse_digits 10 (c ∷ d ∷ s)

pub parse_trimmed : Text → Option ℤ
parse_trimmed [] = some (pos 0)
parse_trimmed (c ∷ s) =
    if c == b'-'
    then Option.map (λ n. sub_ℕ 0 n) (parse_digits 10 s)
    else if c == b'+'
    then Option.map pos (parse_digits 10 s)
    else Option.map pos (parse_unsigned (c ∷ s))

-- `BigInt(s)`, `none` where it throws a SyntaxError.
unfoldable pub big_int : Text → Option ℤ
unfolding trim parse_trimmed parse_unsigned parse_digits parse_base digit_value radix is_digit
big_int s = parse_trimmed (trim s)

abbrev AllDigits : Text → Type 0
AllDigits [] = Unit {0}
AllDigits (c ∷ s) = (is_digit c ≡ true) × AllDigits s

abbrev NoSpace : Text → Type 0
NoSpace [] = Unit {0}
NoSpace (c ∷ s) = (is_space c ≡ false) × NoSpace s

print_from-AllDigits :
    (f n : ℕ) (acc : Text) → n < f → AllDigits acc → AllDigits (print_from f n acc)
unfolding print_from is_digit
print_from-AllDigits zero n acc h k = absurd (omega arith)
print_from-AllDigits (suc f) n acc h k =
    ground (arith, print_from-AllDigits f (n / 10) ((48 + n % 10) ∷ acc))

print_ℕ-AllDigits : (n : ℕ) → AllDigits (print_ℕ n)
unfolding print_ℕ
print_ℕ-AllDigits n = print_from-AllDigits (suc n) n [] (omega arith) tt

NoSpace-of_digits : (s : Text) → AllDigits s → NoSpace s
unfolding is_digit is_space
NoSpace-of_digits [] h = tt
NoSpace-of_digits (c ∷ s) h = (ground arith, NoSpace-of_digits s h.1)

NoSpace-reverse_aux : (s t : Text) → NoSpace s → NoSpace t → NoSpace (reverse_aux s t)
NoSpace-reverse_aux [] t h k = k
NoSpace-reverse_aux (c ∷ s) t h k = NoSpace-reverse_aux s (c ∷ t) h.1 (h.0, k)

trim_start_of_NoSpace : (s : Text) → NoSpace s → trim_start s ≡ s
trim_start_of_NoSpace [] h = refl
trim_start_of_NoSpace (c ∷ s) h = rw h.0

-- Text without white space is its own trimmed form.
pub trim_of_NoSpace : (s : Text) → NoSpace s → trim s ≡ s
unfolding trim
trim_of_NoSpace s h =
    rw (trim_start_of_NoSpace s h, trim_start_of_NoSpace _ (NoSpace-reverse_aux s [] h tt))
      (reverse-reverse s)

parse_base-print_from :
    (f n : ℕ) (acc : Text) → n < f → parse_base 10 0 (print_from f n acc) ≡ parse_base 10 n acc
unfolding print_from parse_base digit_value is_digit
parse_base-print_from zero n acc h = absurd (omega arith)
parse_base-print_from (suc f) n acc h =
    ground (arith, parse_base-print_from f (n / 10) ((48 + n % 10) ∷ acc))

print_from-ne-nil : (f n c : ℕ) (acc : Text) → print_from f n (c ∷ acc) ≢ []
unfolding print_from
print_from-ne-nil zero n c acc = ground arith
print_from-ne-nil (suc f) n c acc =
    ground (arith, print_from-ne-nil f (n / 10) (48 + n % 10) (c ∷ acc))

print_ℕ-ne-nil : (n : ℕ) → print_ℕ n ≢ []
unfolding print_ℕ
print_ℕ-ne-nil n = ground (arith, print_from-ne-nil n (n / 10) (48 + n % 10) [])

parse_digits_of_ne :
    (s : Text) {n : ℕ} → s ≢ [] → parse_base 10 0 s ≡ some n → parse_digits 10 s ≡ some n
unfolding parse_digits
parse_digits_of_ne [] h e = absurd (h refl)
parse_digits_of_ne (c ∷ s) h e = e

parse_digits-print_ℕ : (n : ℕ) → parse_digits 10 (print_ℕ n) ≡ some n
unfolding print_ℕ parse_base
parse_digits-print_ℕ n =
    parse_digits_of_ne _ (print_ℕ-ne-nil n) (parse_base-print_from (suc n) n [] (omega arith))

-- Digits are read in base ten: no second character of theirs is a prefix.
parse_trimmed_of_digits :
    (s : Text) {n : ℕ} → AllDigits s → parse_digits 10 s ≡ some n → parse_trimmed s ≡ some (pos n)
unfolding parse_trimmed parse_unsigned parse_digits radix is_digit
parse_trimmed_of_digits [] h e = absurd (ground arith)
parse_trimmed_of_digits (c ∷ []) h e = ground arith
parse_trimmed_of_digits (c ∷ d ∷ s) h e = ground arith

pub print_ℤ-NoSpace : (z : ℤ) → NoSpace (print_ℤ z)
unfolding print_ℤ is_space
print_ℤ-NoSpace (pos n) = NoSpace-of_digits _ (print_ℕ-AllDigits n)
print_ℤ-NoSpace (negsuc n) = (refl, NoSpace-of_digits _ (print_ℕ-AllDigits (suc n)))

parse_trimmed-print_ℤ : (z : ℤ) → parse_trimmed (print_ℤ z) ≡ some z
unfolding print_ℤ
parse_trimmed-print_ℤ (pos n) =
    parse_trimmed_of_digits _ (print_ℕ-AllDigits n) (parse_digits-print_ℕ n)
parse_trimmed-print_ℤ (negsuc n) =
    unfold parse_trimmed in rw (parse_digits-print_ℕ (suc n)) (ground arith)

-- `BigInt(z.toString())` is `z`.
pub big_int-print_ℤ : (z : ℤ) → big_int (print_ℤ z) ≡ some z
unfolding big_int
big_int-print_ℤ z = rw (trim_of_NoSpace _ (print_ℤ-NoSpace z)) (parse_trimmed-print_ℤ z)

abbrev pub Avoids : ℕ → Text → Type 0
Avoids d [] = Unit {0}
Avoids d (c ∷ s) = ((c == d) ≡ false) × Avoids d s

Avoids-of_digits : (d : ℕ) (s : Text) → is_digit d ≡ false → AllDigits s → Avoids d s
Avoids-of_digits d [] e h = tt
Avoids-of_digits d (c ∷ s) e (k, h) =
    (ground (arith, ap is_digit {x = c} {y = d}), Avoids-of_digits d s e h)

pub print_ℤ-no_dot : (z : ℤ) → Avoids b'.' (print_ℤ z)
unfolding print_ℤ is_digit
print_ℤ-no_dot (pos n) = Avoids-of_digits b'.' _ refl (print_ℕ-AllDigits n)
print_ℤ-no_dot (negsuc n) = (refl, Avoids-of_digits b'.' _ refl (print_ℕ-AllDigits (suc n)))

pub print_ℤ-not_blank : (z : ℤ) → is_blank (print_ℤ z) ≡ false
unfolding print_ℤ
print_ℤ-not_blank (pos n) = elim (Bool-cases (is_blank (print_ℕ n))) [
  | inl e ↦ absurd (print_ℕ-ne-nil n (nil_of_blank _ e))
  | inr e ↦ e
]
  where
    nil_of_blank : (s : Text) → is_blank s ≡ true → s ≡ []
    nil_of_blank [] e = refl
    nil_of_blank (c ∷ s) e = absurd (ground arith)
print_ℤ-not_blank (negsuc n) = refl
