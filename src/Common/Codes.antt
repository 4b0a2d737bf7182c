-- ===== src/Common/Codes.antt =====
-- Texts as the list of their characters' codes: `contains`, `find`, a run of digits, and decimal
-- numbers, printed by `Display` and read by `parse`.
use Prim.Native.Nat.{ℕ, zero, suc, ◌+◌, ◌-◌, ◌*◌, ◌/◌, ◌%◌, ◌^◌, ◌<◌, ◌≤◌}
use Prim.Native.Char.{code}
use Prim.Native.String.{String}
use mathlib.Core.Path.{◌≡◌, refl, ap, ◌∙◌}
use mathlib.Core.Logic.{◌≢◌, inl, inr}
use mathlib.Core.Bool.{Bool, true, false, ◌&&◌}
use mathlib.Core.Option.{Option, none, some}
use mathlib.Core.List.{List, [], ◌∷◌, ◌++◌}
use native.Mathlib.Omega.{arith}
use native.Mathlib.Numerals.{towards_suc}
use rollup_starter.Common.Tests.{ltb, leb, ◌==◌, if◌then◌else◌, u64_mod, Bool-cases, ==_iff}
use rollup_starter.Common.Lists.{All}

abbrev pub Codes : Type 0
Codes = List ℕ

abbrev pub codes : String → Codes
codes String.[] = []
codes (String.◌∷◌ c s) = code c ∷ codes s

-- `str::strip_prefix`
abbrev pub strip : Codes → Codes → Option Codes
strip [] s = some s
strip (p ∷ ps) [] = none
strip (p ∷ ps) (c ∷ s) = if c == p then strip ps s else none

abbrev or_else {ℓ} : {A : Type ℓ} → Option A → Option A → Option A
or_else none o = o
or_else (some a) o = some a

-- What follows the first occurrence of a text that is not empty: `find` and the slice behind it.
unfoldable pub find_after : Codes → Codes → Option Codes
find_after pattern [] = none
find_after pattern (c ∷ s) = or_else (strip pattern (c ∷ s)) (find_after pattern s)

-- `str::contains`
unfoldable pub contains : Codes → Codes → Bool
unfolding find_after
contains s pattern = elim (find_after pattern s) [ none ↦ false | some _ ↦ true ]

-- `char::is_ascii_digit`
abbrev pub is_ascii_digit : ℕ → Bool
is_ascii_digit c = leb 48 c && leb c 57

-- The first piece of `split` at the characters that are not digits.
abbrev pub leading_digits : Codes → Codes
leading_digits [] = []
leading_digits (c ∷ s) = if is_ascii_digit c then c ∷ leading_digits s else []

abbrev pub value_from : ℕ → Codes → ℕ
value_from value [] = value
value_from value (d ∷ ds) = value_from (value * 10 + (d - 48)) ds

-- `parse::<u64>` of a run of digits.
abbrev pub parse_digits : Codes → Option ℕ
parse_digits [] = none
parse_digits (d ∷ ds) =
    if ltb (value_from 0 (d ∷ ds)) u64_mod then some (value_from 0 (d ∷ ds)) else none

-- `Display` of a number, for at most one digit more than the fuel.
abbrev pub print_from : ℕ → ℕ → Codes
print_from zero n = (48 + n % 10) ∷ []
print_from (suc fuel) n =
    let more = print_from fuel (n / 10) ++ (48 + n % 10) ∷ [] in
    if ltb n 10 then (48 + n) ∷ [] else more

-- `u64` has at most 20 digits.
unfoldable pub print : ℕ → Codes
print = print_from 19

print_runs : print 18446744073709551615 ≡ codes "18446744073709551615"
unfolding print
print_runs = refl

abbrev pub IsDigit : ℕ → Type 0
IsDigit c = (48 ≤ c) × (c ≤ 57)

-- A rest that ends a run of digits.
abbrev pub EndsDigits : Codes → Type 0
EndsDigits [] = Unit
EndsDigits (c ∷ s) = is_ascii_digit c ≡ false

pub value_from-append :
    (v : ℕ) (ds : Codes) (d : ℕ) → value_from v (ds ++ d ∷ []) ≡ value_from v ds * 10 + (d - 48)
value_from-append v [] d = refl
value_from-append v (e ∷ ds) d = value_from-append (v * 10 + (e - 48)) ds d

All-snoc : (ds : Codes) (d : ℕ) → All IsDigit ds → IsDigit d → All IsDigit (ds ++ d ∷ [])
All-snoc [] d h k = (k, tt)
All-snoc (e ∷ ds) d (h, hs) k = (h, All-snoc ds d hs k)

print_from-digits : (fuel n : ℕ) → All IsDigit (print_from fuel n)
print_from-digits zero n = (omega arith, tt)
print_from-digits (suc fuel) n = elim (Bool-cases (ltb n 10)) [
  | inl small ↦ rw small (ground arith, tt)
  | inr large ↦ rw large (
      All-snoc (print_from fuel (n / 10)) (48 + n % 10) (print_from-digits fuel (n / 10))
        (omega arith))
]

ten_more : (fuel : ℕ) → 10 ^ (suc fuel + 1) ≡ 10 ^ (fuel + 1) * 10
ten_more fuel = simp towards_suc (omega arith)

-- Printing is undone by reading, where the digits suffice.
print_from-value : (fuel n : ℕ) → n < 10 ^ (fuel + 1) → value_from 0 (print_from fuel n) ≡ n
print_from-value zero n h = omega arith
print_from-value (suc fuel) n h = elim (Bool-cases (ltb n 10)) [
  | inl small ↦ rw small (omega arith)
  | inr large ↦ rw large (
      value_from-append 0 (print_from fuel (n / 10)) (48 + n % 10)
      ∙ omega (arith, print_from-value fuel (n / 10) (omega (arith, ten_more fuel))))
]

leading_digits-append :
    (ds rest : Codes) → All IsDigit ds → EndsDigits rest → leading_digits (ds ++ rest) ≡ ds
leading_digits-append [] [] h e = refl
leading_digits-append [] (c ∷ rest) h e = rw e
leading_digits-append (d ∷ ds) rest (h, hs) e =
    let digit : is_ascii_digit d ≡ true = ground arith in
    rw digit (ap (λ l. d ∷ l) (leading_digits-append ds rest hs e))

parse_digits_lem :
    (ds : Codes) (n : ℕ) → ds ≢ [] → value_from 0 ds ≡ n → n < u64_mod → parse_digits ds ≡ some n
parse_digits_lem [] n h e lt = absurd (h refl)
parse_digits_lem (d ∷ ds) n h e lt = rw e (ground arith)

append-ne-nil : (ds : Codes) (d : ℕ) → ds ++ d ∷ [] ≢ []
append-ne-nil [] d h = cc h
append-ne-nil (e ∷ ds) d h = cc h

print_from-ne-nil : (fuel n : ℕ) → print_from fuel n ≢ []
print_from-ne-nil zero n h = cc h
print_from-ne-nil (suc fuel) n h = elim (Bool-cases (ltb n 10)) [
  | inl small ↦ cc (rw small at h)
  | inr large ↦ append-ne-nil (print_from fuel (n / 10)) (48 + n % 10) (rw large at h)
]

-- A number that is printed in front of something that is not a digit is read back.
pub parse-print :
    (n : ℕ) (rest : Codes)
    → n < u64_mod
    → EndsDigits rest
    → parse_digits (leading_digits (print n ++ rest)) ≡ some n
unfolding print
parse-print n rest h e =
    rw (leading_digits-append (print_from 19 n) rest (print_from-digits 19 n) e) (
      parse_digits_lem (print_from 19 n) n (print_from-ne-nil 19 n)
        (print_from-value 19 n (omega arith)) h)

strip-append : (p s : Codes) → strip p (p ++ s) ≡ some s
strip-append [] s = refl
strip-append (c ∷ p) s = rw ((==_iff c c).1 refl) (strip-append p s)

-- A pattern without `b` that is found in front of a `b` lies wholly before it.
strip_before :
    (p s t : Codes) (b : ℕ) → All (λ c. c ≢ b) p → strip p s ≡ none → strip p (s ++ b ∷ t) ≡ none
strip_before [] s t b h e = cc e
strip_before (c ∷ p) [] t b (h, hs) e = ground arith
strip_before (c ∷ p) (d ∷ s) t b (h, hs) e = elim (Bool-cases (d == c)) [
  | inl same ↦ rw same (strip_before p s t b hs (rw same at e))
  | inr other ↦ rw other
]

or_else-eq-none {ℓ} : {A : Type ℓ} (o r : Option A) → or_else o r ≡ none → (o ≡ none) × (r ≡ none)
or_else-eq-none none r h = (refl, h)
or_else-eq-none (some a) r h = absurd (cc h)

-- The first occurrence of a pattern whose first character comes only once in it.
pub find_after-append :
    (b : ℕ) (p before after : Codes)
    → All (λ c. c ≢ b) p
    → find_after (b ∷ p) before ≡ none
    → find_after (b ∷ p) (before ++ ((b ∷ p) ++ after)) ≡ some after
unfolding find_after
find_after-append b p [] after h e = rw (strip-append (b ∷ p) after)
find_after-append b p (c ∷ before) after h e =
    let (here, later) =
      or_else-eq-none (strip (b ∷ p) (c ∷ before)) (find_after (b ∷ p) before) e in
    let rest = find_after-append b p before after h later in
    elim (Bool-cases (c == b)) [
      | inl same ↦ rw same (rw (strip_before p before (p ++ after) b h (rw same at here)) rest)
      | inr other ↦ rw other rest
    ]
