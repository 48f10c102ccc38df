-- ===== src/Mdns/Packets/Bounds.antt =====
-- How far _read_name and parse_query of compute_space/src/compute_space/core/mdns/packets.py read.
use cloud_in_a_bottle.Shared.{
  Bool-cases, List, List_eq, Text, arith, bind-eq-ok, drop-eq-cons, if◌then◌else◌, inl, inr, leb,
  length, ltb, ok, ok-inj, raise, refl, some, suc, zero, ℕ, ℕ_eq, ◌*◌, ◌+◌, ◌<◌, ◌>>=◌, ◌∷◌, ◌≡◌,
  ◌≤◌,
}
use cloud_in_a_bottle.Mdns.Bytes.{Bytes, truncated_question}
use cloud_in_a_bottle.Mdns.Packets.{
  Question, parse_questions, read_name, Query, parse_query, word_at,
}
use cloud_in_a_bottle.Mdns.Packets.Grammar.{
  NameAt, name_label, name_end, name_pointer, read_name_iff,
}

module _ (buf : Bytes) where
  NameAt-bounds :
      {n : ℕ} {offset : ℕ} {labels : List Text} {end : ℕ}
      → NameAt buf n offset labels end
      → (offset < end) × (end ≤ length buf)
  NameAt-bounds (name_end {offset = offset} (rest, at_offset)) =
      omega (arith, drop-eq-cons offset buf 0 rest at_offset)
  NameAt-bounds
        (name_label {offset = offset} (bs, rest, at_offset, some_byte, short, text, e) named) =
      let (past, inside) = NameAt-bounds named in (omega (arith, e, past), inside)
  NameAt-bounds (name_pointer {offset = offset} (high, low, rest, at_offset, marked, e) named) =
      omega (arith, drop-eq-cons offset buf high (low ∷ rest) at_offset)

  module _ (str_lower : Text → Text) where
    pub read_name-bounds :
        (offset : ℕ) (name : Text) (end : ℕ)
        → read_name str_lower buf offset ≡ ok (name, end)
        → (offset < end) × (end ≤ length buf)
    read_name-bounds offset name end h =
        let (n, labels, few, named, same) = (read_name_iff buf str_lower offset name end).0 h in
        NameAt-bounds named

    parse_questions-bounds :
        (n offset : ℕ) (questions : List Question)
        → offset ≤ length buf
        → parse_questions str_lower n buf offset ≡ ok questions
        → (length questions ≡ n) × (offset + 5 * n ≤ length buf)
    unfolding parse_questions
    parse_questions-bounds zero offset questions inside h =
        rw (← (ok-inj h)) (refl, omega (arith, inside))
    parse_questions-bounds (suc n) offset questions inside h =
        let ((name, end), named, h2) =
          bind-eq-ok (read_name str_lower buf offset)
            (λ named.
              if ltb (length buf) (named.1 + 4)
              then raise truncated_question
              else (parse_questions str_lower n buf (named.1 + 4) >>= (λ later.
                  ok (record { name = named.0; qtype = word_at buf named.1 } ∷ later))))
            h in
        let (past, _) = read_name-bounds offset name end named in
        elim (Bool-cases (ltb (length buf) (end + 4))) [
          | inl short ↦ absurd (ground arith)
          | inr whole ↦
              let (later, rest, e) =
                bind-eq-ok (parse_questions str_lower n buf (end + 4))
                  (λ later. ok (record { name = name; qtype = word_at buf end } ∷ later))
                  (rw whole at h2) in
              let (counted, inside2) =
                parse_questions-bounds n (end + 4) later (ground arith) rest in
              rw (← (ok-inj e)) (omega (arith, counted), omega (arith, past, inside2))
        ]

    -- Each question of a query takes 5 bytes at least, after the 12 of the header; there are as many as
    -- the header says.
    pub parse_query-bounds :
        (q : Query)
        → parse_query str_lower buf ≡ ok (some q)
        → (length q.questions ≡ word_at buf 4) × (12 + 5 * length q.questions ≤ length buf)
    unfolding parse_query
    parse_query-bounds q h = elim (Bool-cases (ltb (length buf) 12)) [
      | inl short ↦ absurd (ground arith)
      | inr header ↦ elim (Bool-cases (leb 2048 (word_at buf 2))) [
        | inl response ↦ absurd (ground arith)
        | inr query ↦
            let (questions, parsed, e) =
              bind-eq-ok (parse_questions str_lower (word_at buf 4) buf 12)
                (λ questions. ok (some (record { id = word_at buf 0; questions = questions })))
                (rw (header, query) at h) in
            let (counted, inside) =
              parse_questions-bounds (word_at buf 4) 12 questions (ground arith) parsed in
            let same : questions ≡ q.questions = cc in
            rw (← same) (counted, omega (arith, counted, inside))
      ]
    ]
