-- ===== src/Mdns/Packets.antt =====
-- compute_space/src/compute_space/core/mdns/packets.py: the DNS packets that the responder reads and writes.
pub mod Bounds
pub mod Grammar
pub mod Names
pub mod Queries
use cloud_in_a_bottle.Shared.{
  Bool, List, List_eq, Option, Result, Text, [], drop, if◌then◌else◌, join, leb, length, ltb, none,
  not, ok, raise, some, split, suc, take, zero, ℕ, ℕ_eq, ◌%◌, ◌*◌, ◌++◌, ◌+◌, ◌==◌, ◌>>=◌, ◌∷◌,
}
use cloud_in_a_bottle.Mdns.Bytes.{
  Bytes, MdnsError, decode, encode, name_past_end, not_a_byte, not_utf8, pack16, pack32,
  pointer_loop, reserved_label, short_header, truncated_label, truncated_pointer,
  truncated_question, word16,
}

abbrev pub type_a : ℕ
type_a = 1

abbrev pub type_aaaa : ℕ
type_aaaa = 28

abbrev pub type_nsec : ℕ
type_nsec = 47

abbrev pub type_any : ℕ
type_any = 255

abbrev pub class_in : ℕ
class_in = 1

abbrev pub cache_flush_bit : ℕ
cache_flush_bit = 32768

-- `_FLAG_RESPONSE | _FLAG_AUTHORITATIVE`
abbrev pub response_flags : ℕ
response_flags = 33792

pub record Question : Type 0 where
  pub name : Text
  pub qtype : ℕ

pub record Query : Type 0 where
  pub id : ℕ
  pub questions : List Question

-- What stands at an offset of a name: `length & 0xC0` is `0xC0` from 192 on, and 0 below 64.
pub data NamePart : Type 0 where
  malformed : MdnsError → NamePart
  end_of_name : NamePart
  pointer_to : ℕ → NamePart
  label_to : Text → ℕ → NamePart

unfoldable pub pointer_part : ℕ → Bytes → NamePart
pointer_part length' [] = malformed truncated_pointer
pointer_part length' (low ∷ after) = pointer_to (length' % 64 * 256 + low)

unfoldable pub label_part : ℕ → Bytes → ℕ → NamePart
label_part length' after offset =
    if not (length (take length' after) == length')
    then malformed truncated_label
    else elim (decode (take length' after)) [
      | none ↦ malformed not_utf8
      | some label ↦ label_to label (offset + (1 + length'))
    ]

unfoldable pub name_part_of : Bytes → ℕ → NamePart
name_part_of [] offset = malformed name_past_end
name_part_of (length' ∷ after) offset =
    if leb 192 length'
    then pointer_part length' after
    else if leb 64 length'
    then malformed reserved_label
    else if length' == 0
    then end_of_name
    else label_part length' after offset

unfoldable pub name_part : Bytes → ℕ → NamePart
name_part buf offset = name_part_of (drop offset buf) offset

-- `end if end is not None else default`
unfoldable pub end_or : Option ℕ → ℕ → ℕ
end_or none default = default
end_or (some end) default = end

abbrev pub max_rounds : ℕ
max_rounds = 128

abbrev pub byte_at : Bytes → ℕ → ℕ
byte_at [] i = 0
byte_at (b ∷ bs) zero = b
byte_at (b ∷ bs) (suc i) = byte_at bs i

-- `!H` at an offset; the callers have compared the length.
unfoldable pub word_at : Bytes → ℕ → ℕ
word_at buf i = word16 (byte_at buf i) (byte_at buf (i + 1))

-- A label may hold any letter of Unicode: `str.lower`, with Python's table of them, is a parameter.
module _ (str_lower : Text → Text) where
  -- One round, with the rounds that follow it: the offset, the labels so far, and where the name ends once
  -- a pointer was followed.
  unfoldable pub read_round :
      (ℕ → List Text → Option ℕ → Result MdnsError (Text × ℕ))
      → NamePart
      → ℕ
      → List Text
      → Option ℕ
      → Result MdnsError (Text × ℕ)
  read_round next (malformed why) offset labels end = raise why
  read_round next end_of_name offset labels end =
      ok (str_lower (join b'.' labels), end_or end (offset + 1))
  read_round next (pointer_to target) offset labels end =
      next target labels (some (end_or end (offset + 2)))
  read_round next (label_to label after) offset labels end = next after (labels ++ label ∷ []) end

  -- The loop, with the number of rounds left.
  unfoldable pub read_name_from : ℕ → Bytes → ℕ → List Text → Option ℕ → Result MdnsError (Text × ℕ)
  read_name_from zero buf offset labels end = raise pointer_loop
  read_name_from (suc rounds) buf offset labels end =
      read_round (read_name_from rounds buf) (name_part buf offset) offset labels end

  unfoldable pub read_name : Bytes → ℕ → Result MdnsError (Text × ℕ)
  read_name buf offset = read_name_from max_rounds buf offset [] none

  unfoldable pub parse_questions : ℕ → Bytes → ℕ → Result MdnsError (List Question)
  parse_questions zero buf offset = ok []
  parse_questions (suc n) buf offset = read_name buf offset >>= (λ named.
      if ltb (length buf) (named.1 + 4)
      then raise truncated_question
      else (parse_questions n buf (named.1 + 4)
          >>= (λ later. ok (record { name = named.0; qtype = word_at buf named.1 } ∷ later))))

  -- `flags & (_FLAG_RESPONSE | _OPCODE_MASK)`: some bit from 0x0800 on is set.
  unfoldable pub parse_query : Bytes → Result MdnsError (Option Query)
  parse_query buf =
      if ltb (length buf) 12
      then raise short_header
      else if leb 2048 (word_at buf 2)
      then ok none
      else (parse_questions (word_at buf 4) buf 12
          >>= (λ questions. ok (some (record { id = word_at buf 0; questions = questions }))))

-- `bytes([len(label)]) + label`
unfoldable pub label_bytes : Bytes → Result MdnsError Bytes
label_bytes label = if leb 256 (length label) then raise not_a_byte else ok (length label ∷ label)

unfoldable pub encode_labels : List Text → Result MdnsError Bytes
encode_labels [] = ok (0 ∷ [])
encode_labels (label ∷ labels) = do
  encoded ← encode label
  here ← label_bytes encoded
  later ← encode_labels labels
  ok (here ++ later)

unfoldable pub encode_name : Text → Result MdnsError Bytes
encode_name name = encode_labels (split b'.' name)

unfoldable pub record_bytes : Text → ℕ → ℕ → Bool → Bytes → Result MdnsError Bytes
record_bytes name rtype ttl cache_flush rdata = do
  owner ← encode_name name
  rtype' ← pack16 rtype
  rclass ← pack16 (class_in + (if cache_flush then cache_flush_bit else 0))
  ttl' ← pack32 ttl
  rdlength ← pack16 (length rdata)
  ok (owner ++ (rtype' ++ rclass ++ ttl' ++ rdlength) ++ rdata)

unfoldable pub nsec_a_only : Text → ℕ → Bool → Result MdnsError Bytes
nsec_a_only name ttl cache_flush = do
  next ← encode_name name
  record_bytes name type_nsec ttl cache_flush (next ++ 0 ∷ 1 ∷ 64 ∷ [])

unfoldable pub question_bytes : List Question → Result MdnsError Bytes
question_bytes [] = ok []
question_bytes (q ∷ questions) = do
  name ← encode_name q.name
  qtype ← pack16 q.qtype
  qclass ← pack16 class_in
  later ← question_bytes questions
  ok ((name ++ qtype ++ qclass) ++ later)

unfoldable pub concat : List Bytes → Bytes
concat [] = []
concat (bs ∷ parts) = bs ++ concat parts

unfoldable pub build_response : ℕ → List Question → List Bytes → List Bytes → Result MdnsError Bytes
build_response query_id questions answers additionals = do
  id ← pack16 query_id
  flags ← pack16 response_flags
  qdcount ← pack16 (length questions)
  ancount ← pack16 (length answers)
  nscount ← pack16 0
  arcount ← pack16 (length additionals)
  asked ← question_bytes questions
  ok (
      (id ++ flags ++ qdcount ++ ancount ++ nscount ++ arcount)
      ++ asked
      ++ concat answers
      ++ concat additionals)

-- `socket.inet_aton` is the C library's.
module _ (inet_aton : Text → Result MdnsError Bytes) where
  unfoldable pub a_record : Text → Text → ℕ → Bool → Result MdnsError Bytes
  a_record name ip ttl cache_flush = do
    address ← inet_aton ip
    record_bytes name type_a ttl cache_flush address
