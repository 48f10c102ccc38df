-- ===== src/Mdns/Packets/Queries.antt =====
-- Which packets parse_query of compute_space/src/compute_space/core/mdns/packets.py takes for queries: those
-- with questions as _encode_name and struct write them, and none that build_response wrote.
use mathlib.Core.List.{append_assoc}
use cloud_in_a_bottle.Shared.{
  All, Bool-cases, List, List_eq, Result, Text, [], ap, arith, bind-eq-ok, drop, drop-add-length,
  drop-append, drop-eq-cons, false, inl, inr, leb, length, length-append, ltb, map, none, ok,
  ok-inj, refl, some, split, suc, sym, zero, ℕ, ℕ_eq, ◌%◌, ◌++◌, ◌+◌, ◌/◌, ◌<◌, ◌>>=◌, ◌∙◌, ◌∷◌,
  ◌≡◌,
}
use cloud_in_a_bottle.Mdns.Bytes.{Bytes, pack16, MdnsError}
use cloud_in_a_bottle.Mdns.Packets.{
  Question, byte_at, max_rounds, word_at, class_in, encode_name, parse_questions, question_bytes,
  read_name, build_response, parse_query, concat, response_flags,
}
use cloud_in_a_bottle.Mdns.Packets.Names.{IsLabel, read_name-encode_name_at}

-- A question that the wire can carry and `_read_name` can read.
abbrev pub IsQuestion : Question → Type 0
IsQuestion q = All IsLabel (split b'.' q.name) × (length (split b'.' q.name) < max_rounds)

byte_at-append : (xs ys : Bytes) (i : ℕ) → i < length xs → byte_at (xs ++ ys) i ≡ byte_at xs i
byte_at-append [] ys i h = absurd (omega arith)
byte_at-append (x ∷ xs) ys zero h = refl
byte_at-append (x ∷ xs) ys (suc i) h = byte_at-append xs ys i (omega arith)

byte_at-drop : (xs : Bytes) (m i : ℕ) → byte_at xs (m + i) ≡ byte_at (drop m xs) i
byte_at-drop xs zero i = ap (byte_at xs) (omega arith)
byte_at-drop [] (suc m) i = refl
byte_at-drop (x ∷ xs) (suc m) i =
    ap (byte_at (x ∷ xs)) {y = suc (m + i)} (omega arith) ∙ byte_at-drop xs m i

pub word_at-append :
    (xs ys : Bytes) (i : ℕ) → i + 1 < length xs → word_at (xs ++ ys) i ≡ word_at xs i
unfolding word_at
word_at-append xs ys i h =
    rw (byte_at-append xs ys i (omega arith), byte_at-append xs ys (i + 1) h) refl

pub pack16-eq-ok :
    (n : ℕ) (bs : Bytes) → pack16 n ≡ ok bs → (n / 256 ∷ n % 256 ∷ [] ≡ bs) × (n < 65536)
unfolding pack16
pack16-eq-ok n bs h = elim (Bool-cases (ltb n 65536)) [
  | inl fits ↦ (ok-inj (rw fits at h), ground arith)
  | inr wide ↦ absurd (ground arith)
]

-- A chain that packs a number goes on with its two bytes.
pack16-bind :
    {W : Type 0} (n : ℕ) (next : Bytes → Result MdnsError W) {w : W}
    → (pack16 n >>= next) ≡ ok w
    → (n < 65536) × (next (n / 256 ∷ n % 256 ∷ []) ≡ ok w)
pack16-bind n next h =
    let (bs, packed, later) = bind-eq-ok (pack16 n) next h in
    let (e, fits) = pack16-eq-ok n bs packed in (fits, ap next e ∙ later)

-- The number that was packed at an offset.
pub word_at-pack16 :
    (n m : ℕ) (buf rest : Bytes) → drop m buf ≡ n / 256 ∷ n % 256 ∷ rest → word_at buf m ≡ n
unfolding word_at
word_at-pack16 n m buf rest here =
    let high : byte_at buf m ≡ n / 256 =
      ap (byte_at buf) (omega arith) ∙ byte_at-drop buf m 0 ∙ ap (λ xs. byte_at xs 0) here in
    let low : byte_at buf (m + 1) ≡ n % 256 = byte_at-drop buf m 1 ∙ ap (λ xs. byte_at xs 1) here in
    rw (high, low) (omega arith)

-- The bytes of a question: its name, its type and the class IN.
question_bytes-cons :
    (q : Question) (questions : List Question) (bs : Bytes)
    → question_bytes (q ∷ questions) ≡ ok bs
    → (name : Bytes) × (later : Bytes) × (encode_name q.name ≡ ok name)
      × (q.qtype < 65536)
      × (question_bytes questions ≡ ok later)
      × (name ++ (q.qtype / 256 ∷ q.qtype % 256 ∷ 0 ∷ 1 ∷ later) ≡ bs)
unfolding question_bytes
question_bytes-cons q questions bs h =
    let (name, named, h1) = bind-eq-ok (encode_name q.name) _ h in
    let (fits, h2) = pack16-bind q.qtype _ h1 in
    let (_, h3) = pack16-bind class_in _ h2 in
    let (later, later_eq, h4) = bind-eq-ok (question_bytes questions) _ h3 in
    let high_low = q.qtype / 256 ∷ q.qtype % 256 ∷ [] in
    (
      name,
      later,
      named,
      fits,
      later_eq,
      sym (
            append_assoc (name ++ high_low) (0 ∷ 1 ∷ []) later
            ∙ append_assoc name high_low (0 ∷ 1 ∷ later))
          ∙ ok-inj h4,
    )

module _ (str_lower : Text → Text) where
  abbrev pub lowered : Question → Question
  lowered q = record { name = str_lower q.name; qtype = q.qtype }

  parse_questions-question_bytes :
      (questions : List Question) (buf : Bytes) (offset : ℕ) (bs rest : Bytes)
      → All IsQuestion questions
      → question_bytes questions ≡ ok bs
      → drop offset buf ≡ bs ++ rest
      → parse_questions str_lower (length questions) buf offset ≡ ok (map lowered questions)
  unfolding parse_questions
  parse_questions-question_bytes [] buf offset bs rest fit h at_offset = refl
  parse_questions-question_bytes (q ∷ questions) buf offset bs rest ((labels, few), fit) h
        at_offset =
      let (name, later, named, _, later_eq, e) = question_bytes-cons q questions bs h in
      let fixed = q.qtype / 256 ∷ q.qtype % 256 ∷ 0 ∷ 1 ∷ [] in
      let end = offset + length name in
      let whole : drop offset buf ≡ name ++ (fixed ++ (later ++ rest)) =
        at_offset ∙ ap (λ xs. xs ++ rest) (sym e) ∙ append_assoc name (fixed ++ later) rest in
      let typed : drop end buf ≡ fixed ++ (later ++ rest) =
        drop-add-length offset buf name (fixed ++ (later ++ rest)) whole in
      let read : read_name str_lower buf offset ≡ ok (str_lower q.name, end) =
        read_name-encode_name_at str_lower q.name buf offset name (fixed ++ (later ++ rest)) labels
          few named whole in
      let inside : ltb (length buf) (end + 4) ≡ false =
        ground (arith, drop-eq-cons end buf (q.qtype / 256) _ typed) in
      let after : drop (end + 4) buf ≡ later ++ rest =
        drop-add-length end buf fixed (later ++ rest) typed in
      rw
        (
          read,
          inside,
          word_at-pack16 q.qtype end buf _ typed,
          parse_questions-question_bytes questions buf (end + 4) later rest fit later_eq after,
        )
        refl

  -- A packet of a 12-byte header without a response or opcode bit, which counts the questions, and of the
  -- questions as they are written, is a query: its id is the header's first word, and its questions are
  -- those ones, with what str.lower gives for their names.
  pub parse_query-question_bytes :
      (questions : List Question) (header bs rest : Bytes)
      → All IsQuestion questions
      → question_bytes questions ≡ ok bs
      → length header ≡ 12
      → word_at header 2 < 2048
      → word_at header 4 ≡ length questions
      → parse_query str_lower (header ++ (bs ++ rest))
        ≡ ok (some (record { id = word_at header 0; questions = map lowered questions }))
  unfolding parse_query
  parse_query-question_bytes questions header bs rest fit h size query counted =
      let buf = header ++ (bs ++ rest) in
      let word : (i : ℕ) → i + 1 < 12 → word_at buf i ≡ word_at header i =
        λ i inside. word_at-append header (bs ++ rest) i (omega (arith, size, inside)) in
      let whole : ltb (length buf) 12 ≡ false = ground (arith, length-append header (bs ++ rest)) in
      let bits : leb 2048 (word_at buf 2) ≡ false = ground (arith, word 2 (omega arith)) in
      let after : drop 12 buf ≡ bs ++ rest =
        ap (λ n. drop n buf) (sym size) ∙ drop-append header (bs ++ rest) in
      rw
        (
          whole,
          bits,
          word 4 (omega arith),
          counted,
          word 0 (omega arith),
          parse_questions-question_bytes questions buf 12 bs rest fit h after,
        )
        refl

-- The header of a response, in bytes.
abbrev pub response_header : ℕ → ℕ → ℕ → ℕ → Bytes
response_header query_id questions answers additionals =
    query_id / 256
    ∷ query_id % 256
    ∷ 132
    ∷ 0
    ∷ questions / 256
    ∷ questions % 256
    ∷ answers / 256
    ∷ answers % 256
    ∷ 0
    ∷ 0
    ∷ additionals / 256
    ∷ additionals % 256
    ∷ []

pub build_response-eq-ok :
    (query_id : ℕ) (questions : List Question) (answers additionals : List Bytes) (bs : Bytes)
    → build_response query_id questions answers additionals ≡ ok bs
    → (asked : Bytes) × (question_bytes questions ≡ ok asked)
      × (response_header query_id (length questions) (length answers) (length additionals)
            ++ (asked ++ concat answers ++ concat additionals)
          ≡ bs)
unfolding build_response
build_response-eq-ok query_id questions answers additionals bs h =
    let (_, h1) = pack16-bind query_id _ h in
    let (_, h2) = pack16-bind response_flags _ h1 in
    let (_, h3) = pack16-bind (length questions) _ h2 in
    let (_, h4) = pack16-bind (length answers) _ h3 in
    let (_, h5) = pack16-bind 0 _ h4 in
    let (_, h6) = pack16-bind (length additionals) _ h5 in
    let (asked, echoed, h7) = bind-eq-ok (question_bytes questions) _ h6 in
    (asked, echoed, ok-inj h7)

module _ (str_lower : Text → Text) where
  -- What `build_response` writes is not taken for a query.
  pub parse_query-build_response :
      (query_id : ℕ) (questions : List Question) (answers additionals : List Bytes) (bs : Bytes)
      → build_response query_id questions answers additionals ≡ ok bs
      → parse_query str_lower bs ≡ ok none
  unfolding parse_query word_at
  parse_query-build_response query_id questions answers additionals bs h =
      let (_, _, e) = build_response-eq-ok query_id questions answers additionals bs h in
      rw (← e) (ground arith)
