-- ===== src/Mdns/Packets/Names.antt =====
-- The names that compute_space/src/compute_space/core/mdns/packets.py writes and reads.
use mathlib.Core.List.{append-nil, append_assoc}
use cloud_in_a_bottle.Shared.{
  ==_refl, All, List, List_eq, Text, [], ap, arith, bind-eq-ok, drop, drop-add-length, drop-append,
  false, join, join-split, leb, length, length-append, none, ok, ok-inj, refl, some, split, suc,
  sym, take-append, true, zero, ℕ, ℕ_eq, ◌%◌, ◌*◌, ◌++◌, ◌+◌, ◌<◌, ◌==◌, ◌∙◌, ◌∷◌, ◌≡◌, ◌≤◌,
}
use cloud_in_a_bottle.Mdns.Bytes.{Bytes, decode-encode, encode, decode}
use cloud_in_a_bottle.Mdns.Packets.{
  encode_labels, end_of_name, end_or, label_bytes, label_part, label_to, name_part, name_part_of,
  read_name_from, read_round, encode_name, max_rounds, read_name, pointer_part, pointer_to,
}

-- A label that fits the length byte of a name: 1 to 63 bytes.
abbrev pub IsLabel : Text → Type 0
IsLabel label = (bs : Bytes) × (encode label ≡ ok bs) × (1 ≤ length bs) × (length bs ≤ 63)

label_part-append :
    (label : Text) (bs rest : Bytes) (offset : ℕ)
    → decode bs ≡ some label
    → label_part (length bs) (bs ++ rest) offset ≡ label_to label (offset + length (length bs ∷ bs))
unfolding label_part
label_part-append label bs rest offset h =
    rw (take-append bs rest, ==_refl (length bs), h)
      (ap (λ n. label_to label (offset + n)) (omega arith))

pub name_part-label :
    (buf : Bytes) (offset : ℕ) (label : Text) (bs rest : Bytes)
    → decode bs ≡ some label
    → 1 ≤ length bs
    → length bs ≤ 63
    → drop offset buf ≡ length bs ∷ bs ++ rest
    → name_part buf offset ≡ label_to label (offset + length (length bs ∷ bs))
unfolding name_part name_part_of
name_part-label buf offset label bs rest h some_byte short at_offset =
    let below_pointer : leb 192 (length bs) ≡ false = ground arith in
    let below_reserved : leb 64 (length bs) ≡ false = ground arith in
    let not_root : (length bs == 0) ≡ false = ground arith in
    rw (at_offset, below_pointer, below_reserved, not_root)
      (label_part-append label bs rest offset h)

pub name_part-end :
    (buf : Bytes) (offset : ℕ) (rest : Bytes)
    → drop offset buf ≡ 0 ∷ rest
    → name_part buf offset ≡ end_of_name
unfolding name_part name_part_of
name_part-end buf offset rest at_offset = rw at_offset refl

pub name_part-pointer :
    (buf : Bytes) (offset high low : ℕ) (rest : Bytes)
    → drop offset buf ≡ high ∷ low ∷ rest
    → 192 ≤ high
    → name_part buf offset ≡ pointer_to (high % 64 * 256 + low)
unfolding name_part name_part_of pointer_part
name_part-pointer buf offset high low rest at_offset marked =
    let pointer : leb 192 high ≡ true = ground arith in rw (at_offset, pointer) refl

encode_labels-cons :
    (label : Text) (labels : List Text) (encoded bs : Bytes)
    → encode label ≡ ok encoded
    → length encoded ≤ 63
    → encode_labels (label ∷ labels) ≡ ok bs
    → (later : Bytes) × (encode_labels labels ≡ ok later)
      × ((length encoded ∷ encoded) ++ later ≡ bs)
unfolding encode_labels label_bytes
encode_labels-cons label labels encoded bs eq short h =
    let fits : leb 256 (length encoded) ≡ false = ground arith in
    let (later, rest, e) =
      bind-eq-ok (encode_labels labels) (λ later. ok ((length encoded ∷ encoded) ++ later))
        (rw (eq, fits) at h) in
    (later, rest, ok-inj e)

module _ (str_lower : Text → Text) where
  -- The labels that are written at an offset are the ones that are read there.
  read_name_from-encode_labels :
      (labels : List Text) (bs : Bytes) (rounds : ℕ) (buf : Bytes) (offset : ℕ) (rest : Bytes)
      (earlier : List Text)
      → All IsLabel labels
      → encode_labels labels ≡ ok bs
      → length labels < rounds
      → drop offset buf ≡ bs ++ rest
      → read_name_from str_lower rounds buf offset earlier none
        ≡ ok (str_lower (join b'.' (earlier ++ labels)), offset + length bs)
  unfolding read_name_from read_round encode_labels label_bytes end_or
  read_name_from-encode_labels labels bs zero buf offset rest earlier fit h enough at_offset =
      absurd (omega arith)
  read_name_from-encode_labels [] bs (suc rounds) buf offset rest earlier fit h enough at_offset =
      let e : 0 ∷ [] ≡ bs = ok-inj h in
      rw
        (
          ← e,
          name_part-end buf offset rest (at_offset ∙ ap (λ xs. xs ++ rest) (sym e)),
          append-nil earlier,
        )
        refl
  read_name_from-encode_labels (label ∷ labels) bs (suc rounds) buf offset rest earlier
        ((encoded, eq, some_byte, short), fit) h enough at_offset =
      let (later, later_eq, e) = encode_labels-cons label labels encoded bs eq short h in
      let whole : drop offset buf ≡ (length encoded ∷ encoded) ++ (later ++ rest) =
        at_offset
        ∙ ap (λ xs. xs ++ rest) (sym e)
        ∙ append_assoc (length encoded ∷ encoded) later rest in
      let next = offset + length (length encoded ∷ encoded) in
      let read =
        read_name_from-encode_labels labels later rounds buf next rest (earlier ++ label ∷ []) fit
          later_eq (omega arith)
          (drop-add-length offset buf (length encoded ∷ encoded) (later ++ rest) whole) in
      let past : next + length later ≡ offset + length bs =
        omega (arith, ap length e, length-append (length encoded ∷ encoded) later) in
      rw
        (name_part-label buf offset label encoded (later ++ rest) (decode-encode label encoded eq)
          some_byte short whole)
        (read
          ∙ ap (λ xs. ok (str_lower (join b'.' xs), next + length later))
              (append_assoc earlier (label ∷ []) labels)
          ∙ ap (λ n. ok (str_lower (join b'.' (earlier ++ label ∷ labels)), n)) past)

  pub read_name-encode_name_at :
      (name : Text) (buf : Bytes) (offset : ℕ) (bs rest : Bytes)
      → All IsLabel (split b'.' name)
      → length (split b'.' name) < max_rounds
      → encode_name name ≡ ok bs
      → drop offset buf ≡ bs ++ rest
      → read_name str_lower buf offset ≡ ok (str_lower name, offset + length bs)
  unfolding read_name encode_name
  read_name-encode_name_at name buf offset bs rest fit enough h at_offset =
      read_name_from-encode_labels (split b'.' name) bs max_rounds buf offset rest [] fit h enough
        at_offset
      ∙ ap (λ s. ok (str_lower s, offset + length bs)) (join-split b'.' name)

  -- The name that is written at an offset is the name that is read there, as str.lower gives it, up to where the
  -- writing ends, if its labels take 1 to 63 bytes and are fewer than 128.
  pub read_name-encode_name :
      (name : Text) (prefix bs rest : Bytes)
      → All IsLabel (split b'.' name)
      → length (split b'.' name) < max_rounds
      → encode_name name ≡ ok bs
      → read_name str_lower (prefix ++ bs ++ rest) (length prefix)
        ≡ ok (str_lower name, length prefix + length bs)
  read_name-encode_name name prefix bs rest fit enough h =
      read_name-encode_name_at name (prefix ++ bs ++ rest) (length prefix) bs rest fit enough h
        (ap (drop (length prefix)) (append_assoc prefix bs rest) ∙ drop-append prefix (bs ++ rest))
