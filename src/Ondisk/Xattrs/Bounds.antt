-- ===== src/Ondisk/Xattrs/Bounds.antt =====
-- How long and how many the pieces are that metadata is kept in.
use native.Mathlib.Nat.{suc-mul}
use swiftacular.Base.{
  min, ℕ, zero, suc, ◌+◌, ◌*◌, ◌<◌, ◌≤◌, ◌≡◌, refl, sym, ◌∙◌, some, [], ◌∷◌, eq_refl, arith, Dict,
  lookup, insert, lookup-insert, length, take, drop, length-take, length-drop,
}
use swiftacular.Engine.{Bytes}
use swiftacular.Ondisk.Xattrs.{key_of, checksum_key, write_pieces, write_metadata}
use swiftacular.Ondisk.Xattrs.Pieces.{IsClear, IsClear-insert, lookup-write_pieces, checksum_apart}

-- A piece at `d` places from where the writing begins: it has a byte, `size` bytes at most, and all
-- `d` pieces before it are full.
abbrev pub Fits : ℕ → Bytes → ℕ → Bytes → Type 0
Fits size metastr d piece = (0 < length piece) × (length piece ≤ size) × (d * size < length metastr)

write_pieces-Fits :
    (rounds size : ℕ) (store : Dict Bytes) (metastr : Bytes) (k d j : ℕ) (piece : Bytes)
    → 0 < size
    → IsClear k store
    → j ≡ k + d
    → lookup (key_of j) (write_pieces rounds size store metastr k) ≡ some piece
    → Fits size metastr d piece
unfolding write_pieces
write_pieces-Fits zero size store metastr k d j piece pos clear at is =
    absurd (ground (arith, clear j (omega arith)))
write_pieces-Fits (suc rounds) size store [] k d j piece pos clear at is =
    absurd (ground (arith, clear j (omega arith)))
write_pieces-Fits (suc rounds) size store (b ∷ bs) k zero j piece pos clear at is =
    let next = insert (key_of k) (take size (b ∷ bs)) store in
    let here : lookup (key_of k) (write_pieces rounds size next (drop size (b ∷ bs)) (k + 1))
        ≡ some (take size (b ∷ bs)) =
      lookup-write_pieces rounds size next (drop size (b ∷ bs)) (k + 1) k (omega arith)
      ∙ lookup-insert (key_of k) (key_of k) (take size (b ∷ bs)) store
      ∙ rw (eq_refl (key_of k)) refl in
    let same : j ≡ k = omega (arith, at) in
    let e : some (take size (b ∷ bs)) ≡ some piece = sym here ∙ rw same at is in
    let lengths : length piece ≡ min size (suc (length bs)) =
      ground (arith, length-take size (b ∷ bs), e) in
    (omega (arith, lengths, pos), omega (arith, lengths), omega arith)
write_pieces-Fits (suc rounds) size store (b ∷ bs) k (suc d) j piece pos clear at is =
    let (some_bytes, small, full) =
      write_pieces-Fits rounds size (insert (key_of k) (take size (b ∷ bs)) store)
        (drop size (b ∷ bs)) (k + 1) d j piece pos
        (IsClear-insert k store (take size (b ∷ bs)) clear) (omega (arith, at)) is in
    (some_bytes, small, omega (arith, full, suc-mul d size, length-drop size (b ∷ bs)))

-- When metadata is written in pieces of a positive size to a file without any, each piece that is
-- kept, by its number, has at least one byte and at most `size`, and the pieces before it hold less
-- than the metadata: no attribute is longer than the store takes, and there are no more of them than
-- are needed.
pub write_metadata-Fits :
    (md5 : Bytes → Bytes) (size : ℕ) (store : Dict Bytes) (metastr : Bytes) (j : ℕ) (piece : Bytes)
    → 0 < size
    → IsClear 0 store
    → lookup (key_of j) (write_metadata md5 size store metastr) ≡ some piece
    → Fits size metastr j piece
unfolding write_metadata
write_metadata-Fits md5 size store metastr j piece pos clear is =
    let pieces = write_pieces (length metastr) size store metastr 0 in
    write_pieces-Fits (length metastr) size store metastr 0 j j piece pos clear (omega arith) (
      sym (lookup-insert checksum_key (key_of j) (md5 metastr) pieces ∙ rw (checksum_apart j) refl)
      ∙ is)
