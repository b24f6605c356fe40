-- ===== src/Tests/Xattrs.antt =====
-- Witnesses for the metadata of a file: five bytes in pieces of two, with their sum as the digest.
use swiftacular.Base.{ℕ, ◌+◌, ◌≡◌, refl, false, some, [], ◌∷◌, ok, arith, lookup, insert}
use swiftacular.Engine.{Bytes}
use swiftacular.Ondisk.Xattrs.{key_of, read_metadata, write_metadata}
use swiftacular.Ondisk.Xattrs.Bounds.{Fits, write_metadata-Fits}
use swiftacular.Ondisk.Xattrs.Pieces.{IsClear, read_metadata-write_metadata}

abbrev sum : Bytes → ℕ
sum [] = 0
sum (b ∷ bs) = b + sum bs

abbrev digest : Bytes → Bytes
digest bytes = sum bytes ∷ []

nothing_there : IsClear 0 []
unfolding lookup
nothing_there j h = refl

read_metadata-write_metadata_example :
    read_metadata digest false (write_metadata digest 2 [] (1 ∷ 2 ∷ 3 ∷ 4 ∷ 5 ∷ []))
    ≡ ok (1 ∷ 2 ∷ 3 ∷ 4 ∷ 5 ∷ [], write_metadata digest 2 [] (1 ∷ 2 ∷ 3 ∷ 4 ∷ 5 ∷ []))
read_metadata-write_metadata_example =
    read_metadata-write_metadata digest false 2 [] 1 (2 ∷ 3 ∷ 4 ∷ 5 ∷ []) (omega arith)
      nothing_there

written :
    write_metadata digest 2 [] (1 ∷ 2 ∷ 3 ∷ [])
    ≡ ("user.swift.metadata", 1 ∷ 2 ∷ [])
      ∷ ("user.swift.metadata1", 3 ∷ [])
      ∷ ("user.swift.metadata_checksum", 6 ∷ [])
      ∷ []
unfolding write_metadata insert
written = refl

-- The last piece of the five bytes, which has one.
piece_two : lookup (key_of 2) (write_metadata digest 2 [] (1 ∷ 2 ∷ 3 ∷ 4 ∷ 5 ∷ [])) ≡ some (5 ∷ [])
unfolding write_metadata lookup insert
piece_two = refl

write_metadata-Fits_example : Fits 2 (1 ∷ 2 ∷ 3 ∷ 4 ∷ 5 ∷ []) 2 (5 ∷ [])
write_metadata-Fits_example =
    write_metadata-Fits digest 2 [] (1 ∷ 2 ∷ 3 ∷ 4 ∷ 5 ∷ []) 2 (5 ∷ []) (omega arith) nothing_there
      piece_two
