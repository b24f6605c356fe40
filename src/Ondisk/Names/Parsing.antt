-- ===== src/Ondisk/Names/Parsing.antt =====
-- A name that is made is parsed to what it was made of.
use Prim.Native.String.{◌++◌ as cat}
use Prim.Native.String.append
use swiftacular.Base.{ℕ, Bool, Option, none, some, String}
use swiftacular.Ondisk.Names.{NameFormat}

-- An extension with its dot.
abbrev pub dotted : String → String
dotted e = String.◌∷◌ "." e

module _ (f : NameFormat) (counts : ℕ → Bool) where
  -- The time of a content type without its offset.
  abbrev pub dated : Option ℕ → Option ℕ
  dated none = none
  dated (some c) = some (f.without_offset c)
