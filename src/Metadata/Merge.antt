-- ===== src/Metadata/Merge.antt =====
-- What is read of a name that a PUT and a POST have both written.
use swiftacular.Base.{
  ℕ, ◌≡◌, refl, Option, none, some, ok, Result, arith, ltb, if◌then◌else◌, String, str_eq, lookup,
  insert, pop, update, IsDict, first, last-lookup, lookup-insert, lookup-pop, lookup-update,
}
use swiftacular.Swift.{Swift}
use swiftacular.Metadata.{Headers, content_type, content_type_timestamp, fixed, merge, settle_type}
use swiftacular.Metadata.Stamps.{IsStamped, TypeAt, ctype_timestamp-TypeAt}

module _ (s : Swift) where
  open s use {internal, parse-internal}

  -- The PUT's value where a POST can change nothing, and the POST's value elsewhere.
  abbrev pub base_value : Headers → Headers → String → Option String
  base_value d meta k = if fixed s k then first (lookup k d) (lookup k meta) else lookup k meta

  -- The content type is the PUT's, set at `t`, where it gave one and the POST's, of `c`, is older.
  abbrev pub typed_value : Headers → Headers → ℕ → ℕ → Option String → String → Option String
  typed_value d meta t c none k = base_value d meta k
  typed_value d meta t c (some type) k =
      if ltb c t
      then (if str_eq content_type_timestamp k
          then none
          else if str_eq content_type k
          then some type
          else base_value d meta k)
      else base_value d meta k

  base_lem :
      (d meta : Headers) (k : String)
      → IsDict d
      → lookup k (update (fixed s) meta d) ≡ base_value d meta k
  base_lem d meta k h =
      ground (arith, lookup-update (fixed s) k meta d, last-lookup k d (lookup k meta) h)

  abbrev Settled : Headers → Headers → ℕ → ℕ → Option String → Result Headers → Type 0
  Settled d meta t c type r =
      (m : Headers) × (r ≡ ok m) × ((k : String) → lookup k m ≡ typed_value d meta t c type k)

  settle :
      (d meta base : Headers) (t c : ℕ) (type : Option String)
      → ((k : String) → lookup k base ≡ base_value d meta k)
      → IsStamped s d t
      → TypeAt s meta c
      → Settled d meta t c type (settle_type s d meta base type)
  unfolding settle_type
  settle d meta base t c none hb hd hm = (base, refl, hb)
  settle d meta base t c (some type) hb hd hm = (
    (if ltb c t then pop content_type_timestamp (insert content_type type base) else base),
    ground (arith, parse-internal t, ctype_timestamp-TypeAt s meta c hm),
    λ k. ground (
      arith,
      hb k,
      lookup-pop content_type_timestamp k (insert content_type type base),
      lookup-insert content_type k type base,
    ),
  )

  -- Of a PUT at `t` and a POST whose content type was set at `c`, the merged view has the PUT's
  -- value at every name that a POST cannot change, the PUT's content type where it was given and is
  -- newer (and then no time of its own for it), and the POST's value at every other name.
  pub merge_value :
      (d meta : Headers) (t c : ℕ)
      → IsDict d
      → IsStamped s d t
      → TypeAt s meta c
      → (m : Headers) × (merge s d meta ≡ ok m)
        × ((k : String) → lookup k m ≡ typed_value d meta t c (lookup content_type d) k)
  unfolding merge
  merge_value d meta t c h hd hm =
      settle d meta (update (fixed s) meta d) t c (lookup content_type d) (λ k. base_lem d meta k h)
        hd hm
