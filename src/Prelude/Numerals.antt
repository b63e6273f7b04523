-- ===== src/Prelude/Numerals.antt =====
-- Python's `str` of a number that is not negative, and its inverse.
use Prim.Native.Nat.{ℕ, zero, suc, ◌+◌, ◌-◌, ◌*◌, ◌/◌, ◌%◌, ◌<◌}
use Prim.Native.Char.{code}
use Prim.Native.String.{String, ◌++◌}
use Prim.Native.String.append
use mathlib.Core.Path.{◌≡◌, sym, ap, ◌∙◌}
use mathlib.Core.Logic.{inl, inr}
use native.Mathlib.Omega.{arith}
use time_weaver.Prelude.Tests.{ltb, nat_comparable, if◌then◌else◌, Bool-cases}

unfoldable pub digit_text : ℕ → String
digit_text zero = "0"
digit_text (suc zero) = "1"
digit_text (suc (suc zero)) = "2"
digit_text (suc (suc (suc zero))) = "3"
digit_text (suc (suc (suc (suc zero)))) = "4"
digit_text (suc (suc (suc (suc (suc zero))))) = "5"
digit_text (suc (suc (suc (suc (suc (suc zero)))))) = "6"
digit_text (suc (suc (suc (suc (suc (suc (suc zero))))))) = "7"
digit_text (suc (suc (suc (suc (suc (suc (suc (suc zero)))))))) = "8"
digit_text _ = "9"

-- The decimal digits of `n`, on fuel for their number.
unfoldable pub str_fuel : ℕ → ℕ → String
unfolding digit_text
str_fuel zero n = ""
str_fuel (suc fuel) n =
    let higher = str_fuel fuel (n / 10) ++ digit_text (n % 10) in
    if ltb n 10 then digit_text n else higher

unfoldable pub str : ℕ → String
unfolding str_fuel
str n = str_fuel (suc n) n

-- The number that a text of digits is read as.
value_from : ℕ → String → ℕ
value_from acc String.[] = acc
value_from acc (String.◌∷◌ c s) = value_from (acc * 10 + (code c - 48)) s

value_from-append :
    (acc : ℕ) (s t : String) → value_from acc (s ++ t) ≡ value_from (value_from acc s) t
unfolding value_from
value_from-append acc String.[] t = rw append.nil
value_from-append acc (String.◌∷◌ c s) t =
    rw append.cons (value_from-append (acc * 10 + (code c - 48)) s t)

value_from-digit_text : (acc d : ℕ) → d < 10 → value_from acc (digit_text d) ≡ acc * 10 + d
unfolding value_from digit_text
value_from-digit_text acc zero h = omega arith
value_from-digit_text acc (suc zero) h = omega arith
value_from-digit_text acc (suc (suc zero)) h = omega arith
value_from-digit_text acc (suc (suc (suc zero))) h = omega arith
value_from-digit_text acc (suc (suc (suc (suc zero)))) h = omega arith
value_from-digit_text acc (suc (suc (suc (suc (suc zero))))) h = omega arith
value_from-digit_text acc (suc (suc (suc (suc (suc (suc zero)))))) h = omega arith
value_from-digit_text acc (suc (suc (suc (suc (suc (suc (suc zero))))))) h = omega arith
value_from-digit_text acc (suc (suc (suc (suc (suc (suc (suc (suc zero)))))))) h = omega arith
value_from-digit_text acc (suc (suc (suc (suc (suc (suc (suc (suc (suc zero))))))))) h = omega arith
value_from-digit_text acc (suc (suc (suc (suc (suc (suc (suc (suc (suc (suc d)))))))))) h =
    absurd (omega arith)

value_from-str_fuel : (fuel n : ℕ) → n < fuel → value_from 0 (str_fuel fuel n) ≡ n
unfolding str_fuel
value_from-str_fuel zero n h = absurd (omega arith)
value_from-str_fuel (suc fuel) n h = elim (Bool-cases (ltb n 10)) [
  | inl small ↦ rw small (value_from-digit_text 0 n (ground arith) ∙ omega arith)
  | inr large ↦
      rw (large, value_from-append)
        (rw (value_from-str_fuel fuel (n / 10) (ground arith))
          (value_from-digit_text (n / 10) (n % 10) (omega arith) ∙ omega arith))
]

-- Numbers with one text are one number.
pub str_injective : (m n : ℕ) → str m ≡ str n → m ≡ n
unfolding str
str_injective m n e =
    sym (value_from-str_fuel (suc m) m (omega arith))
    ∙ ap (value_from 0) e
    ∙ value_from-str_fuel (suc n) n (omega arith)
