-- ===== src/Server/Rules.antt =====
-- What the handlers take from Swift, and what POST and PUT share.
use swiftacular.Base.{
  ◌≡◌, refl, ◌∙◌, true, false, not, all, str_eq, arith, inl, inr, Option-cases, lookup-insert, ℕ,
  Bool, Option, none, some, List, [], ◌∷◌, ◌++◌, String, or_else, Dict, lookup, insert, fields,
}
use swiftacular.Server.{Flow, delete_at}
use swiftacular.Server.Updates.{Remote}

-- What the handlers take from Swift.
pub record Rules : Type 0 where
  pub remote : Remote
  -- `Timestamp(text)` and `int(text)`: `none` is a ValueError
  pub parse : String → Option ℕ
  pub int : String → Option ℕ
  pub of_int : ℕ → ℕ
  pub internal : ℕ → String
  -- user metadata or transient system metadata, and system metadata, of an object
  pub is_transient : String → Bool
  pub is_sys_meta : String → Bool
  -- the spelling of a header that is stored
  pub caps : String → String
  pub allowed_headers : List String
  pub sysmeta_prefix : String
  -- the second of `extract_swift_bytes`
  pub swift_bytes : String → String

module _ (rules : Rules) where
  -- `int(headers.get(key) or 0)`
  abbrev pub int_of : Option String → Flow ℕ
  int_of o = delete_at rules.int o

  -- The headers that are copied by name.
  unfoldable pub copy_headers : List String → Dict String → Dict String → Dict String
  unfolding lookup insert
  copy_headers [] headers metadata = metadata
  copy_headers (key ∷ keys) headers metadata =
      copy_headers keys headers (elim (lookup key headers) [
        | none ↦ metadata
        | some value ↦ insert (rules.caps key) value metadata
      ])

  unfoldable pub copied_keys : Dict String → List String
  unfolding fields lookup
  copied_keys headers =
      fields (or_else "" (lookup "X-Backend-Replication-Headers" headers)) ++ rules.allowed_headers

  -- No key that is copied is stored under the name.
  abbrev pub is_spared : String → List String → Bool
  is_spared j keys = all (λ key. not (str_eq (rules.caps key) j)) keys

  pub lookup-copy_headers_spared :
      (keys : List String) (headers d : Dict String) (j : String)
      → is_spared j keys ≡ true
      → lookup j (copy_headers keys headers d) ≡ lookup j d
  unfolding copy_headers
  lookup-copy_headers_spared [] headers d j h = refl
  lookup-copy_headers_spared (key ∷ keys) headers d j h = elim (Option-cases (lookup key headers)) [
    | inl absent ↦ rw absent (lookup-copy_headers_spared keys headers d j (ground arith))
    | inr (value, given) ↦
        let other : str_eq (rules.caps key) j ≡ false = ground arith in
        let set = insert (rules.caps key) value d in
        rw given (
          lookup-copy_headers_spared keys headers set j (ground arith)
          ∙ lookup-insert (rules.caps key) j value d
          ∙ rw other refl)
  ]
