-- ===== src/Ondisk/Xattrs.antt =====
-- swift_patches/obj/bs_diskfile.py: `write_metadata` and `read_metadata`, which keep the pickled
-- metadata of a file in extended attributes, in pieces. The store of one file is a dictionary, the
-- digest is given, and other errors of the store are not modelled.
pub mod Pieces
pub mod Bounds
use Prim.Native.String.{◌++◌ as cat}
use swiftacular.Base.{
  ℕ, zero, suc, ◌+◌, Bool, true, false, not, ◌&&◌, Option, none, some, List, [], ◌∷◌, ◌++◌, String,
  Result, ok, raise, disk_file_not_exist, disk_file_bad_metadata_checksum, ◌==◌, if◌then◌else◌,
  Dict, lookup, insert, length, take, drop, is_nil, text_of, ◌>>=◌,
}
use swiftacular.Engine.{Bytes}

-- `METADATA_KEY + str(key or '')`
abbrev pub number_of : ℕ → String
number_of key = if key == 0 then "" else text_of key

abbrev pub key_of : ℕ → String
key_of key = cat "user.swift.metadata" (number_of key)

abbrev pub checksum_key : String
checksum_key = cat "user.swift.metadata" "_checksum"

-- `while metastr`: a round for each byte is enough, as each takes one at least.
unfoldable pub write_pieces : ℕ → ℕ → Dict Bytes → Bytes → ℕ → Dict Bytes
unfolding insert text_of
write_pieces zero size store metastr key = store
write_pieces (suc rounds) size store [] key = store
write_pieces (suc rounds) size store (b ∷ bs) key =
    write_pieces rounds size (insert (key_of key) (take size (b ∷ bs)) store) (drop size (b ∷ bs))
      (key + 1)

-- ENODATA ends the pieces.
abbrev pub after_piece : Bytes → (Bytes → Bytes) → Option Bytes → Bytes
after_piece metadata more none = metadata
after_piece metadata more (some chunk) = more chunk

unfoldable pub read_pieces : ℕ → Dict Bytes → ℕ → Bytes → Bytes
unfolding lookup text_of
read_pieces zero store key metadata = metadata
read_pieces (suc rounds) store key metadata =
    after_piece metadata (λ chunk. read_pieces rounds store (key + 1) (metadata ++ chunk))
      (lookup (key_of key) store)

abbrev pub bytes_eq : Bytes → Bytes → Bool
bytes_eq [] [] = true
bytes_eq [] (y ∷ ys) = false
bytes_eq (x ∷ xs) [] = false
bytes_eq (x ∷ xs) (y ∷ ys) = x == y && bytes_eq xs ys

module _ (md5 : Bytes → Bytes) where
  unfoldable pub write_metadata : ℕ → Dict Bytes → Bytes → Dict Bytes
  unfolding write_pieces insert
  write_metadata size store metastr =
      insert checksum_key (md5 metastr) (write_pieces (length metastr) size store metastr 0)

  -- A checksum that is missing is added on request, and one that differs is an error.
  unfoldable pub check_metadata :
      Bool → Dict Bytes → Bytes → Option Bytes → Result (Bytes × Dict Bytes)
  unfolding insert
  check_metadata add_missing_checksum store metadata none =
      ok
        (metadata, if add_missing_checksum then insert checksum_key (md5 metadata) store else store)
  check_metadata add_missing_checksum store metadata (some checksum) =
      if not (is_nil checksum) && not (bytes_eq checksum (md5 metadata))
      then raise disk_file_bad_metadata_checksum
      else ok (metadata, store)

  -- One round more than the store has attributes is enough.
  unfoldable pub read_metadata : Bool → Dict Bytes → Result (Bytes × Dict Bytes)
  unfolding read_pieces check_metadata lookup
  read_metadata add_missing_checksum store =
      let metadata = read_pieces (suc (length store)) store 0 [] in
      if is_nil metadata
      then raise disk_file_not_exist
      else check_metadata add_missing_checksum store metadata (lookup checksum_key store)
