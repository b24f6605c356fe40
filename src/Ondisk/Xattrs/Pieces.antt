-- ===== src/Ondisk/Xattrs/Pieces.antt =====
-- Metadata that is written is read back, whatever the size of the pieces.
use text.Mathlib.TextLemmas.{append_cancel_left}
use mathlib.Core.List.{append-nil, append_assoc}
use swiftacular.Base.{
  ℕ, zero, suc, ◌+◌, ◌<◌, ◌≤◌, ◌≡◌, ◌≢◌, refl, sym, ◌∙◌, ap, Bool, true, false, none, some, [], ◌∷◌,
  ◌++◌, String, str_eq, eq_iff, eq_refl, arith, ok, ◌==◌, Bool-cases, inl, inr, Dict, lookup,
  insert, lookup-insert, length, take, drop, take-append-drop, length-drop, value_from,
  value-text_of, are_low, are_low-text_of,
}
use swiftacular.Engine.{Bytes}
use swiftacular.Ondisk.Xattrs.{
  number_of, key_of, checksum_key, write_pieces, after_piece, read_pieces, bytes_eq, check_metadata,
  write_metadata, read_metadata,
}

-- The number that a key ends in.
value-number_of : (k : ℕ) → value_from 0 (number_of k) ≡ k
value-number_of k = elim (Bool-cases (k == 0)) [
  | inl same ↦ rw same (ground arith)
  | inr other ↦ rw other (value-text_of k)
]

pub key_of-differ : (j k : ℕ) → j ≢ k → str_eq (key_of k) (key_of j) ≡ false
key_of-differ j k h = elim (Bool-cases (str_eq (key_of k) (key_of j))) [
  | inl same ↦
      let e =
        append_cancel_left "user.swift.metadata" (number_of k) (number_of j)
          ((eq_iff (key_of k) (key_of j)).0 same) in
      absurd (h (sym (value-number_of j) ∙ sym (ap (value_from 0) e) ∙ value-number_of k))
  | inr other ↦ other
]

are_low-number_of : (k : ℕ) → are_low (number_of k) ≡ true
are_low-number_of k = elim (Bool-cases (k == 0)) [
  | inl same ↦ rw same refl
  | inr other ↦ rw other (are_low-text_of k)
]

pub checksum_apart : (k : ℕ) → str_eq checksum_key (key_of k) ≡ false
checksum_apart k = elim (Bool-cases (str_eq checksum_key (key_of k))) [
  | inl same ↦
      let e =
        append_cancel_left "user.swift.metadata" "_checksum" (number_of k)
          ((eq_iff checksum_key (key_of k)).0 same) in
      absurd (ground (arith, are_low-number_of k, ap are_low e))
  | inr other ↦ other
]

-- Pieces from one on leave those before it.
pub lookup-write_pieces :
    (rounds size : ℕ) (store : Dict Bytes) (metastr : Bytes) (k j : ℕ)
    → j < k
    → lookup (key_of j) (write_pieces rounds size store metastr k) ≡ lookup (key_of j) store
unfolding write_pieces
lookup-write_pieces zero size store metastr k j h = refl
lookup-write_pieces (suc rounds) size store [] k j h = refl
lookup-write_pieces (suc rounds) size store (b ∷ bs) k j h =
    lookup-write_pieces rounds size (insert (key_of k) (take size (b ∷ bs)) store)
      (drop size (b ∷ bs)) (k + 1) j (omega arith)
    ∙ lookup-insert (key_of k) (key_of j) (take size (b ∷ bs)) store
    ∙ rw (key_of-differ j k (λ e. absurd (omega (arith, e, h)))) refl

-- No piece from `k` on is there.
abbrev pub IsClear : ℕ → Dict Bytes → Type 0
IsClear k store = (j : ℕ) → k ≤ j → lookup (key_of j) store ≡ none

pub IsClear-insert :
    (k : ℕ) (store : Dict Bytes) (piece : Bytes)
    → IsClear k store
    → IsClear (k + 1) (insert (key_of k) piece store)
IsClear-insert k store piece h j le =
    lookup-insert (key_of k) (key_of j) piece store
    ∙ rw (key_of-differ j k (λ e. absurd (omega (arith, e, le)))) (h j (omega arith))

length-insert :
    (k : String) (piece : Bytes) (store : Dict Bytes)
    → lookup k store ≡ none
    → length (insert k piece store) ≡ suc (length store)
unfolding insert lookup
length-insert k piece [] h = refl
length-insert k piece ((j, old) ∷ store) h = elim (Bool-cases (str_eq j k)) [
  | inl same ↦ absurd (ground (arith, rw same at h))
  | inr other ↦ rw other (omega (arith, length-insert k piece store (rw other at h)))
]

length-insert_le :
    (k : String) (piece : Bytes) (store : Dict Bytes) → length store ≤ length (insert k piece store)
unfolding insert
length-insert_le k piece [] = omega arith
length-insert_le k piece ((j, old) ∷ store) = elim (Bool-cases (str_eq j k)) [
  | inl same ↦ rw same (omega arith)
  | inr other ↦ rw other (omega (arith, length-insert_le k piece store))
]

length-write_pieces :
    (rounds size : ℕ) (store : Dict Bytes) (metastr : Bytes) (k : ℕ)
    → length store ≤ length (write_pieces rounds size store metastr k)
unfolding write_pieces
length-write_pieces zero size store metastr k = omega arith
length-write_pieces (suc rounds) size store [] k = omega arith
length-write_pieces (suc rounds) size store (b ∷ bs) k =
    let next = insert (key_of k) (take size (b ∷ bs)) store in
    omega (
      arith,
      length-insert_le (key_of k) (take size (b ∷ bs)) store,
      length-write_pieces rounds size next (drop size (b ∷ bs)) (k + 1),
    )

-- Reading from a piece on gives what writing from it on has written.
read_written :
    (rounds more size : ℕ) (store held : Dict Bytes) (metastr read_so_far : Bytes) (k : ℕ)
    → 0 < size
    → length metastr ≤ rounds
    → IsClear k store
    → ((j : ℕ)
        → lookup (key_of j) held ≡ lookup (key_of j) (write_pieces rounds size store metastr k))
    → length (write_pieces rounds size store metastr k) < more + length store
    → read_pieces more held k read_so_far ≡ read_so_far ++ metastr
unfolding write_pieces read_pieces
read_written rounds zero size store held metastr read_so_far k pos fits clear same enough =
    absurd (omega (arith, length-write_pieces rounds size store metastr k))
read_written zero (suc more) size store held [] read_so_far k pos fits clear same enough =
    ap (after_piece read_so_far (λ chunk. read_pieces more held (k + 1) (read_so_far ++ chunk)))
      (same k ∙ clear k (omega arith))
    ∙ sym (append-nil read_so_far)
read_written zero (suc more) size store held (b ∷ bs) read_so_far k pos fits clear same enough =
    absurd (omega arith)
read_written (suc rounds) (suc more) size store held [] read_so_far k pos fits clear same enough =
    ap (after_piece read_so_far (λ chunk. read_pieces more held (k + 1) (read_so_far ++ chunk)))
      (same k ∙ clear k (omega arith))
    ∙ sym (append-nil read_so_far)
read_written (suc rounds) (suc more) size store held (b ∷ bs) read_so_far k pos fits clear same
      enough =
    let piece = take size (b ∷ bs) in
    let rest = drop size (b ∷ bs) in
    let next = insert (key_of k) piece store in
    let here : lookup (key_of k) held ≡ some piece =
      same k
      ∙ lookup-write_pieces rounds size next rest (k + 1) k (omega arith)
      ∙ lookup-insert (key_of k) (key_of k) piece store
      ∙ rw (eq_refl (key_of k)) refl in
    ap (after_piece read_so_far (λ chunk. read_pieces more held (k + 1) (read_so_far ++ chunk)))
      here
    ∙ read_written rounds more size next held rest (read_so_far ++ piece) (k + 1) pos
        (omega (arith, length-drop size (b ∷ bs))) (IsClear-insert k store piece clear) same
        (omega (arith, length-insert (key_of k) piece store (clear k (omega arith))))
    ∙ append_assoc read_so_far piece rest
    ∙ ap (λ l. read_so_far ++ l) (take-append-drop size (b ∷ bs))

bytes_eq_refl : (xs : Bytes) → bytes_eq xs xs ≡ true
bytes_eq_refl [] = refl
bytes_eq_refl (x ∷ xs) = ground (arith, bytes_eq_refl xs)

checked_same :
    (md5 : Bytes → Bytes) (add_missing_checksum : Bool) (store : Dict Bytes) (metadata : Bytes)
    → check_metadata md5 add_missing_checksum store metadata (some (md5 metadata))
      ≡ ok (metadata, store)
unfolding check_metadata
checked_same md5 add_missing_checksum store metadata = ground (arith, bytes_eq_refl (md5 metadata))

-- Metadata that is written to a file without any, in pieces of any positive size, is read back as it
-- was, and its checksum holds, whatever the digest; the attributes stay as they were written.
pub read_metadata-write_metadata :
    (md5 : Bytes → Bytes) (add_missing_checksum : Bool) (size : ℕ) (store : Dict Bytes) (b : ℕ)
    (bs : Bytes)
    → 0 < size
    → IsClear 0 store
    → read_metadata md5 add_missing_checksum (write_metadata md5 size store (b ∷ bs))
      ≡ ok (b ∷ bs, write_metadata md5 size store (b ∷ bs))
unfolding read_metadata write_metadata
read_metadata-write_metadata md5 add_missing_checksum size store b bs pos clear =
    let metastr = b ∷ bs in
    let pieces = write_pieces (length metastr) size store metastr 0 in
    let held = write_metadata md5 size store metastr in
    let is : read_pieces (suc (length held)) held 0 [] ≡ metastr =
      read_written (length metastr) (suc (length held)) size store held metastr [] 0 pos
        (omega arith) clear
        (λ j.
          lookup-insert checksum_key (key_of j) (md5 metastr) pieces ∙ rw (checksum_apart j) refl)
        (omega (arith, length-insert_le checksum_key (md5 metastr) pieces)) in
    let checksum : lookup checksum_key held ≡ some (md5 metastr) =
      lookup-insert checksum_key checksum_key (md5 metastr) pieces in
    rw (is, checksum) (checked_same md5 add_missing_checksum held metastr)
