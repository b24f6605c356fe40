-- ===== src/Swift.antt =====
-- What the BlueStore backend takes from Swift and does not implement: `Timestamp` and its order,
-- and the metadata keys that a POST leaves alone. A `Timestamp` stands here as its place in the
-- order of all timestamps, offset included; `raw` forgets the offset.
use swiftacular.Base.{
  str_eq, false, ℕ, ◌≤◌, ◌≡◌, Bool, Option, some, List, String, Result, ok, ltb, leb,
}

pub record Swift : Type 0 where
  -- `Timestamp(text)`; `none` is a ValueError
  pub parse : String → Option ℕ
  -- `Timestamp(t).internal`
  pub internal : ℕ → String
  -- `t.raw`, and `Timestamp(raw * PRECISION)`
  pub raw : ℕ → ℕ
  pub of_raw : ℕ → ℕ
  -- `a > b` and `a <= b`, where each may be None
  pub newer : Option ℕ → Option ℕ → Result Bool
  pub not_newer : Option ℕ → Option ℕ → Result Bool
  -- RESERVED_DATAFILE_META | DATAFILE_SYSTEM_META, all in lower case
  pub datafile_meta : List String
  -- `is_sys_meta('object', key)`
  pub is_sys_meta : String → Bool
  pub parse-internal : (t : ℕ) → parse (internal t) ≡ some t
  pub internal-ne-empty : (t : ℕ) → str_eq (internal t) "" ≡ false
  pub raw-of_raw : (n : ℕ) → raw (of_raw n) ≡ n
  pub raw_mono : (a b : ℕ) → a ≤ b → raw a ≤ raw b
  pub newer-some : (a b : ℕ) → newer (some a) (some b) ≡ ok (ltb b a)
  pub not_newer-some : (a b : ℕ) → not_newer (some a) (some b) ≡ ok (leb a b)
