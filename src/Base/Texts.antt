-- ===== src/Base/Texts.antt =====
-- The decimal text of a number, `str(n)`.
use Prim.Native.Nat.{ℕ, zero, suc, ◌+◌, ◌*◌, ◌-◌, ◌/◌, ◌%◌, ◌<◌}
use Prim.Native.Char.{Char, code}
use Prim.Native.String.{String}
use mathlib.Core.Path.{◌≡◌, refl, ap, ◌∙◌}
use mathlib.Core.Bool.{Bool, true, ◌&&◌}
use mathlib.Core.Logic.{inl, inr}
use native.Mathlib.Omega.{arith}
use swiftacular.Base.Tests.{ltb, leb, Bool-cases, if◌then◌else◌}

abbrev pick : ℕ → String → Char
pick n String.[] = "0"
pick zero (String.◌∷◌ c text) = c
pick (suc n) (String.◌∷◌ c text) = pick n text

abbrev pub digit : ℕ → Char
digit n = pick n "0123456789"

unfoldable pub digits_from : ℕ → ℕ → String → String
digits_from zero n text = text
digits_from (suc fuel) n text =
    let more = digits_from fuel (n / 10) (String.◌∷◌ (digit (n % 10)) text) in
    if ltb n 10 then String.◌∷◌ (digit n) text else more

-- One digit at least, and a round for each: more rounds than the number are enough.
unfoldable pub text_of : ℕ → String
unfolding digits_from
text_of n = digits_from (suc n) n String.[]

-- The number that digits write, from the number before them.
abbrev pub value_from : ℕ → String → ℕ
value_from n String.[] = n
value_from n (String.◌∷◌ c text) = value_from (n * 10 + (code c - b'0')) text

code-digit : (d : ℕ) → d < 10 → code (digit d) - b'0' ≡ d
code-digit zero h = refl
code-digit (suc zero) h = refl
code-digit (suc (suc zero)) h = refl
code-digit (suc (suc (suc zero))) h = refl
code-digit (suc (suc (suc (suc zero)))) h = refl
code-digit (suc (suc (suc (suc (suc zero))))) h = refl
code-digit (suc (suc (suc (suc (suc (suc zero)))))) h = refl
code-digit (suc (suc (suc (suc (suc (suc (suc zero))))))) h = refl
code-digit (suc (suc (suc (suc (suc (suc (suc (suc zero)))))))) h = refl
code-digit (suc (suc (suc (suc (suc (suc (suc (suc (suc zero))))))))) h = refl
code-digit (suc (suc (suc (suc (suc (suc (suc (suc (suc (suc n)))))))))) h = absurd (omega arith)

value-digits_from :
    (fuel n : ℕ) (text : String)
    → n < fuel
    → value_from 0 (digits_from fuel n text) ≡ value_from n text
unfolding digits_from
value-digits_from zero n text h = absurd (omega arith)
value-digits_from (suc fuel) n text h = elim (Bool-cases (ltb n 10)) [
  | inl small ↦ rw small (ap (λ k. value_from k text) (ground (arith, code-digit n (ground arith))))
  | inr large ↦
      let big : 9 < n = ground arith in
      rw large (
        value-digits_from fuel (n / 10) (String.◌∷◌ (digit (n % 10)) text) (omega arith)
        ∙ ap (λ k. value_from k text) (omega (arith, code-digit (n % 10) (omega arith))))
]

-- The text of a number says which number it is.
pub value-text_of : (n : ℕ) → value_from 0 (text_of n) ≡ n
unfolding text_of
value-text_of n = value-digits_from (suc n) n String.[] (omega arith)

-- No character of the text comes after `9`.
abbrev pub are_low : String → Bool
are_low String.[] = true
are_low (String.◌∷◌ c text) = leb (code c) b'9' && are_low text

are_low-digits_from :
    (fuel n : ℕ) (text : String) → are_low text ≡ true → are_low (digits_from fuel n text) ≡ true
unfolding digits_from
are_low-digits_from zero n text h = h
are_low-digits_from (suc fuel) n text h = elim (Bool-cases (ltb n 10)) [
  | inl small ↦ let d = code-digit n (ground arith) in rw small (ground arith)
  | inr large ↦
      let d = code-digit (n % 10) (omega arith) in
      rw large (are_low-digits_from fuel (n / 10) (String.◌∷◌ (digit (n % 10)) text) (ground arith))
]

pub are_low-text_of : (n : ℕ) → are_low (text_of n) ≡ true
unfolding text_of
are_low-text_of n = are_low-digits_from (suc n) n String.[] refl
