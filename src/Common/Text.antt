-- ===== src/Common/Text.antt =====
-- Functions of the standard library on texts: `join`, `str::replace` and decimal `Display`.
use Prim.Native.Nat.{ℕ, zero, suc, ◌-◌, ◌/◌, ◌%◌}
use Prim.Native.String.{String, count, ◌++◌ as ◌<>◌}
use mathlib.Core.Path.{◌≡◌, refl}
use mathlib.Core.List.{List, [], ◌∷◌}
use text.Mathlib.Text.{starts_with}
use rollup_starter.Common.Tests.{ltb, if◌then◌else◌}
pub use Prim.Native.String.{◌++◌ as ◌<>◌}

-- `[String]::join`
unfoldable pub join_with : String → List String → String
join_with sep [] = ""
join_with sep (s ∷ []) = s
join_with sep (s ∷ t ∷ ts) = s <> sep <> join_with sep (t ∷ ts)

-- `skip` characters of the last match are still to be passed over.
replace_from : String → String → ℕ → String → String
replace_from pattern with_text skip String.[] = ""
replace_from pattern with_text (suc skip) (String.◌∷◌ c s) = replace_from pattern with_text skip s
replace_from pattern with_text zero (String.◌∷◌ c s) =
    let hit = with_text <> replace_from pattern with_text (count pattern - 1) s in
    let miss = String.◌∷◌ c (replace_from pattern with_text zero s) in
    if starts_with (String.◌∷◌ c s) pattern then hit else miss

-- `str::replace`, for a pattern that is not empty.
unfoldable pub replace_all : String → String → String → String
unfolding replace_from
replace_all s pattern with_text = replace_from pattern with_text 0 s

digit : ℕ → String
digit zero = "0"
digit (suc zero) = "1"
digit (suc (suc zero)) = "2"
digit (suc (suc (suc zero))) = "3"
digit (suc (suc (suc (suc zero)))) = "4"
digit (suc (suc (suc (suc (suc zero))))) = "5"
digit (suc (suc (suc (suc (suc (suc zero)))))) = "6"
digit (suc (suc (suc (suc (suc (suc (suc zero))))))) = "7"
digit (suc (suc (suc (suc (suc (suc (suc (suc zero)))))))) = "8"
digit (suc (suc (suc (suc (suc (suc (suc (suc (suc n))))))))) = "9"

-- The fuel bounds the number of digits.
decimal_from : ℕ → ℕ → String
decimal_from zero n = digit n
decimal_from (suc fuel) n =
    let more = decimal_from fuel (n / 10) <> digit (n % 10) in if ltb n 10 then digit n else more

-- `u64` as `Display` prints it: at most 20 digits.
unfoldable pub decimal : ℕ → String
unfolding decimal_from digit
decimal = decimal_from 19

decimal_runs : decimal 18446744073709551615 ≡ "18446744073709551615"
unfolding decimal
decimal_runs = refl

replace_all_runs : replace_all "a{x}b{x}" "{x}" "yy" ≡ "ayybyy"
unfolding replace_all
replace_all_runs = refl
