-- ===== src/Tests/Instance.antt =====
-- A concrete `Timestamp`: the number t is written as t + 1 letters.
use Prim.Native.String.{String}
use text.Mathlib.TextLemmas.{cons≢nil}
use swiftacular.Base.{
  Bool-cases, inl, inr, ℕ, zero, suc, ◌≡◌, refl, Bool, true, false, Option, none, some, str_eq,
  eq_iff, [], ◌∷◌, Result, ok, raise, type_error, ltb, leb, arith,
}
use swiftacular.Swift.{Swift}

abbrev pub size : String → ℕ
size String.[] = 0
size (String.◌∷◌ c s) = suc (size s)

abbrev pub letters : ℕ → String
letters zero = String.[]
letters (suc n) = String.◌∷◌ "x" (letters n)

abbrev pub parse_size : ℕ → Option ℕ
parse_size zero = none
parse_size (suc n) = some n

pub size-letters : (n : ℕ) → size (letters n) ≡ n
size-letters zero = refl
size-letters (suc n) = omega (arith, size-letters n)

pub parse_letters : (t : ℕ) → parse_size (size (letters (suc t))) ≡ some t
parse_letters t = ground (arith, size-letters t)

pub letters_not_empty : (t : ℕ) → str_eq (letters (suc t)) "" ≡ false
letters_not_empty t = elim (Bool-cases (str_eq (letters (suc t)) "")) [
  | inl e ↦ absurd (cons≢nil ((eq_iff (letters (suc t)) "").0 e))
  | inr e ↦ e
]

abbrev pub newer : Option ℕ → Option ℕ → Result Bool
newer none none = raise type_error
newer none (some b) = ok false
newer (some a) none = ok true
newer (some a) (some b) = ok (ltb b a)

abbrev pub not_newer : Option ℕ → Option ℕ → Result Bool
not_newer none none = raise type_error
not_newer none (some b) = ok true
not_newer (some a) none = ok false
not_newer (some a) (some b) = ok (leb a b)

abbrev pub swift : Swift
swift = record {
  parse = λ text. parse_size (size text);
  internal = λ t. letters (suc t);
  raw = λ t. t;
  of_raw = λ n. n;
  newer = newer;
  not_newer = not_newer;
  datafile_meta = "content-length" ∷ "deleted" ∷ "etag" ∷ "x-static-large-object" ∷ [];
  is_sys_meta = λ key. false;
  parse-internal = parse_letters;
  internal-ne-empty = letters_not_empty;
  raw-of_raw = λ n. refl;
  raw_mono = λ a b h. h;
  newer-some = λ a b. refl;
  not_newer-some = λ a b. refl;
}
