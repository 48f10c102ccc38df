-- ===== src/Mdns/Packets/Grammar.antt =====
-- A description of the names of a packet that has no loop and no bound on it (RFC 1035, sections 3.1 and
-- 4.1.4), and how _read_name of compute_space/src/compute_space/core/mdns/packets.py reads them.
use mathlib.Core.Path.{subst}
use mathlib.Core.List.{append_assoc, append-nil}
use cloud_in_a_bottle.Shared.{
  ==_iff, Bool-cases, List, List_eq, Option, Option-cases, Result, Text, [], ap, arith, drop, false,
  inl, inr, join, leb, length, none, ok, ok-inj, refl, some, suc, sym, take, take-append-drop, zero,
  ℕ, ℕ_eq, ◌%◌, ◌*◌, ◌++◌, ◌+◌, ◌<◌, ◌==◌, ◌↔◌, ◌∙◌, ◌∷◌, ◌≡◌, ◌≤◌,
}
use cloud_in_a_bottle.Mdns.Bytes.{Bytes, decode, MdnsError}
use cloud_in_a_bottle.Mdns.Packets.{
  NamePart, end_of_name, label_part, label_to, malformed, name_part, name_part_of, pointer_to,
  end_or, pointer_part, read_name_from, read_round, max_rounds, read_name,
}
use cloud_in_a_bottle.Mdns.Packets.Names.{name_part-label, name_part-end, name_part-pointer}

module _ (buf : Bytes) where
  -- The end of a name, a pointer with its target, or a label with the offset past it.
  abbrev pub PartAt : ℕ → NamePart → Type 0
  PartAt offset (malformed why) = Unit
  PartAt offset end_of_name = (rest : Bytes) × (drop offset buf ≡ 0 ∷ rest)
  PartAt offset (pointer_to target) =
      (high : ℕ) × (low : ℕ) × (rest : Bytes) × (drop offset buf ≡ high ∷ low ∷ rest)
      × (192 ≤ high)
      × (high % 64 * 256 + low ≡ target)
  PartAt offset (label_to label after) =
      (bs : Bytes) × (rest : Bytes) × (drop offset buf ≡ length bs ∷ bs ++ rest)
      × (1 ≤ length bs)
      × (length bs ≤ 63)
      × (decode bs ≡ some label)
      × (offset + length (length bs ∷ bs) ≡ after)

  -- A name of so many labels and pointers at an offset: its labels, and where it ends.
  pub data NameAt : ℕ → ℕ → List Text → ℕ → Type 0 where
    name_end : {offset : ℕ} → PartAt offset end_of_name → NameAt 0 offset [] (offset + 1)
    name_label :
        {n offset after end : ℕ} {label : Text} {labels : List Text}
        → PartAt offset (label_to label after)
        → NameAt n after labels end
        → NameAt (suc n) offset (label ∷ labels) end
    name_pointer :
        {n offset target end : ℕ} {labels : List Text}
        → PartAt offset (pointer_to target)
        → NameAt n target labels end
        → NameAt (suc n) offset labels (offset + 2)

  label_part-PartAt :
      (offset length' : ℕ) (after : Bytes)
      → drop offset buf ≡ length' ∷ after
      → length' < 64
      → (length' == 0) ≡ false
      → PartAt offset (label_part length' after offset)
  unfolding label_part
  label_part-PartAt offset length' after at_offset short not_root =
      elim (Bool-cases (length (take length' after) == length')) [
        | inr truncated ↦ rw truncated tt
        | inl whole ↦ elim (Option-cases (decode (take length' after))) [
          | inl bad ↦ rw (whole, bad) tt
          | inr (label, e) ↦
              let bs = take length' after in
              let n : length bs ≡ length' = (==_iff (length bs) length').0 whole in
              rw (whole, e)
                (
                  bs,
                  drop length' after,
                  at_offset
                      ∙ ap (λ k. k ∷ after) (sym n)
                      ∙ ap (◌∷◌ (length bs)) (sym (take-append-drop length' after)),
                  ground (arith, ==_iff length' 0),
                  omega (arith, n, short),
                  e,
                  omega (arith, n),
                )
        ]
      ]

  pointer_part-PartAt :
      (offset high : ℕ) (after : Bytes)
      → drop offset buf ≡ high ∷ after
      → 192 ≤ high
      → PartAt offset (pointer_part high after)
  unfolding pointer_part
  pointer_part-PartAt offset high [] at_offset marked = tt
  pointer_part-PartAt offset high (low ∷ rest) at_offset marked =
      (high, low, rest, at_offset, marked, refl)

  name_part_of-PartAt :
      (offset : ℕ) (rest : Bytes)
      → drop offset buf ≡ rest
      → PartAt offset (name_part_of rest offset)
  unfolding name_part_of
  name_part_of-PartAt offset [] at_offset = tt
  name_part_of-PartAt offset (length' ∷ after) at_offset = elim (Bool-cases (leb 192 length')) [
    | inl marked ↦ rw marked (pointer_part-PartAt offset length' after at_offset (ground arith))
    | inr unmarked ↦ elim (Bool-cases (leb 64 length')) [
      | inl reserved ↦ rw (unmarked, reserved) tt
      | inr short ↦ elim (Bool-cases (length' == 0)) [
        | inl root ↦
            rw (unmarked, short, root)
              (after, at_offset ∙ ap (λ k. k ∷ after) ((==_iff length' 0).0 root))
        | inr not_root ↦
            rw (unmarked, short, not_root)
              (label_part-PartAt offset length' after at_offset (ground arith) not_root)
      ]
    ]
  ]

  name_part-PartAt : (offset : ℕ) → PartAt offset (name_part buf offset)
  unfolding name_part
  name_part-PartAt offset = name_part_of-PartAt offset (drop offset buf) refl

  module _ (str_lower : Text → Text) where
    -- A name of fewer parts than rounds, after the earlier labels, and the end of it unless it is known.
    abbrev IsRead : ℕ → ℕ → List Text → Option ℕ → Text × ℕ → Type 0
    IsRead rounds offset earlier known (name, end) =
        (n : ℕ) × (labels : List Text) × (after : ℕ) × (n < rounds)
        × NameAt n offset labels after
        × (name ≡ str_lower (join b'.' (earlier ++ labels)))
        × (end ≡ end_or known after)

    read_round-IsRead :
        (rounds offset : ℕ) (earlier : List Text) (known : Option ℕ)
        (next : ℕ → List Text → Option ℕ → Result MdnsError (Text × ℕ)) (result : Text × ℕ)
        → ((off : ℕ) (labels : List Text) (o : Option ℕ)
            → next off labels o ≡ ok result
            → IsRead rounds off labels o result)
        → (part : NamePart) → PartAt offset part
        → read_round str_lower next part offset earlier known ≡ ok result
        → IsRead (suc rounds) offset earlier known result
    unfolding read_round end_or
    read_round-IsRead rounds offset earlier known next result later (malformed why) is returned =
        absurd (ground arith)
    read_round-IsRead rounds offset earlier known next result later end_of_name is returned =
        rw (← (ok-inj returned)) (
          0,
          [],
          offset + 1,
          omega arith,
          name_end is,
          ap (λ xs. str_lower (join b'.' xs)) (sym (append-nil earlier)),
          refl,
        )
    read_round-IsRead rounds offset earlier known next result later (pointer_to target) is
          returned =
        let (n, labels, after, few, named, same, ends) =
          later target earlier (some (end_or known (offset + 2))) returned in
        (suc n, labels, offset + 2, omega (arith, few), name_pointer is named, same, ends)
    read_round-IsRead rounds offset earlier known next result later (label_to label behind) is
          returned =
        let (n, labels, after, few, named, same, ends) =
          later behind (earlier ++ label ∷ []) known returned in
        (
          suc n,
          label ∷ labels,
          after,
          omega (arith, few),
          name_label is named,
          same ∙ ap (λ xs. str_lower (join b'.' xs)) (append_assoc earlier (label ∷ []) labels),
          ends,
        )

    read_name_from-IsRead :
        (rounds offset : ℕ) (earlier : List Text) (known : Option ℕ) (result : Text × ℕ)
        → read_name_from str_lower rounds buf offset earlier known ≡ ok result
        → IsRead rounds offset earlier known result
    unfolding read_name_from
    read_name_from-IsRead zero offset earlier known result h = absurd (ground arith)
    read_name_from-IsRead (suc rounds) offset earlier known result h =
        read_round-IsRead rounds offset earlier known (read_name_from str_lower rounds buf) result
          (λ off labels o. read_name_from-IsRead rounds off labels o result) (name_part buf offset)
          (name_part-PartAt offset) h

    read_name_from_of_NameAt :
        (rounds : ℕ) {n : ℕ} {offset : ℕ} {labels : List Text} {after : ℕ}
        → NameAt n offset labels after
        → (earlier : List Text) (known : Option ℕ) → n < rounds
        → read_name_from str_lower rounds buf offset earlier known
          ≡ ok (str_lower (join b'.' (earlier ++ labels)), end_or known after)
    unfolding read_name_from read_round end_or
    read_name_from_of_NameAt zero named earlier known enough = absurd (omega arith)
    read_name_from_of_NameAt (suc rounds) (name_end (rest, at_offset)) earlier known enough =
        rw (name_part-end buf _ rest at_offset, append-nil earlier) refl
    read_name_from_of_NameAt (suc rounds)
          (name_label {end = end} {label = label} {labels = labels}
            (bs, rest, at_offset, some_byte, short, text, e)
            named)
          earlier known enough =
        rw (name_part-label buf _ label bs rest text some_byte short at_offset, e)
          (read_name_from_of_NameAt rounds named (earlier ++ label ∷ []) known (omega arith)
            ∙ ap (λ xs. ok (str_lower (join b'.' xs), end_or known end))
                (append_assoc earlier (label ∷ []) labels))
    read_name_from_of_NameAt (suc rounds)
          (name_pointer {offset = at} (high, low, rest, at_offset, marked, e) named) earlier known
          enough =
        rw (name_part-pointer buf _ high low rest at_offset marked, e)
          (read_name_from_of_NameAt rounds named earlier (some (end_or known (at + 2)))
            (omega arith))

    -- A name is read at an offset exactly when one of fewer than 128 labels and pointers stands there: it is
    -- what str.lower gives for its labels with dots between them, and is read with the offset past it.
    pub read_name_iff :
        (offset : ℕ) (name : Text) (end : ℕ)
        → (read_name str_lower buf offset ≡ ok (name, end)) ↔ (
            (n : ℕ) × (labels : List Text) × (n < max_rounds)
            × NameAt n offset labels end
            × (name ≡ str_lower (join b'.' labels)))
    unfolding read_name end_or
    read_name_iff offset name end = (
      λ h.
          (let (n, labels, after, few, named, same, ends) =
              read_name_from-IsRead max_rounds offset [] none (name, end) h in
            (n, labels, few, subst (λ e. NameAt n offset labels e) (sym ends) named, same)),
      λ (n, labels, few, named, same).
          read_name_from_of_NameAt max_rounds named [] none few ∙ ap (λ s. ok (s, end)) (sym same),
    )
