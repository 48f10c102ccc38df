-- ===== src/Mdns/Tests.antt =====
-- Runs of the mDNS responder's definitions, and the properties at concrete inputs.
use cloud_in_a_bottle.Shared.{
  List, List_eq, Result, String_eq, Text, [], arith, codes, ends_with, join, length, lower, map,
  none, ok, refl, some, split, true, ℕ, ℕ_eq, ◌*◌, ◌++◌, ◌+◌, ◌<◌, ◌↔◌, ◌∷◌, ◌≡◌, ◌≤◌,
}
use cloud_in_a_bottle.Mdns.Bytes.{
  Bytes, decode, decode_from, is_scalar, MdnsError, encode, pack16, pack32, utf8_char,
}
use cloud_in_a_bottle.Mdns.Packets.{
  Query, Question, end_or, label_part, name_part, name_part_of, parse_query, parse_questions,
  pointer_part, read_name, read_name_from, read_round, word_at, build_response, concat,
  encode_labels, encode_name, label_bytes, max_rounds, nsec_a_only, question_bytes, record_bytes,
}
use cloud_in_a_bottle.Mdns.Answers.{
  mdns_port, answer_question, answer_questions, build_answer, is_ours, reply_bytes,
}
use cloud_in_a_bottle.Mdns.Responder.{handle}
use cloud_in_a_bottle.Mdns.Packets.Queries.{parse_query-question_bytes, IsQuestion, lowered}
use cloud_in_a_bottle.Mdns.Packets.Grammar.{read_name_iff, NameAt}
use cloud_in_a_bottle.Mdns.Packets.Bounds.{parse_query-bounds}
use cloud_in_a_bottle.Mdns.Answers.Replies.{asked, build_answer-eq-none_iff}
use cloud_in_a_bottle.Mdns.Responder.Silence.{handle-build_answer}

abbrev packed_name : Bytes
packed_name = 3 ∷ 65 ∷ 112 ∷ 112 ∷ 5 ∷ 108 ∷ 111 ∷ 99 ∷ 97 ∷ 108 ∷ 0 ∷ []

-- `App.local`, and then a pointer to it.
abbrev lower_name : Bytes
lower_name = 3 ∷ 97 ∷ 112 ∷ 112 ∷ 5 ∷ 108 ∷ 111 ∷ 99 ∷ 97 ∷ 108 ∷ 0 ∷ []

abbrev query_packet : Bytes
query_packet =
    (0 ∷ 7 ∷ 0 ∷ 0 ∷ 0 ∷ 2 ∷ 0 ∷ 0 ∷ 0 ∷ 0 ∷ 0 ∷ 0 ∷ [])
    ++ packed_name
    ++ (0 ∷ 1 ∷ 0 ∷ 1 ∷ [])
    ++ (192 ∷ 12 ∷ 0 ∷ 28 ∷ 0 ∷ 1 ∷ [])

abbrev app_local : Text
app_local = codes "app.local"

abbrev two_questions : List Question
two_questions =
    record { name = app_local; qtype = 1 } ∷ record { name = app_local; qtype = 28 } ∷ []

parsed : parse_query lower query_packet ≡ ok (some (record { id = 7; questions = two_questions }))
unfolding parse_query parse_questions read_name read_name_from read_round name_part name_part_of
    label_part pointer_part end_or decode decode_from word_at lower join is_scalar
parsed = refl

-- An inet_aton that knows one address.
abbrev address : Text → Result MdnsError Bytes
address ip = ok (192 ∷ 168 ∷ 1 ∷ 2 ∷ [])

abbrev ntoa : Bytes → Text
ntoa bs = codes "192.168.1.2"

abbrev asking : Query
asking = record {
  id = 7;
  questions =
      record { name = app_local; qtype = 28 } ∷ record { name = codes "other"; qtype = 1 } ∷ [];
}

abbrev locals : List Text
locals = codes "local" ∷ []

-- The reply to a legacy querier: an NSEC record of ten seconds for the one question under `local`.
abbrev legacy_reply : Bytes
legacy_reply =
    (0 ∷ 7 ∷ 132 ∷ 0 ∷ 0 ∷ 1 ∷ 0 ∷ 1 ∷ 0 ∷ 0 ∷ 0 ∷ 0 ∷ [])
    ++ (lower_name ++ (0 ∷ 28 ∷ 0 ∷ 1 ∷ []))
    ++ (lower_name ++ (0 ∷ 47 ∷ 0 ∷ 1 ∷ 0 ∷ 0 ∷ 0 ∷ 10 ∷ 0 ∷ 14 ∷ []))
    ++ (lower_name ++ (0 ∷ 1 ∷ 64 ∷ []))

replied : build_answer address locals (codes "192.168.1.2") asking 40000 ≡ ok (some legacy_reply)
unfolding build_answer answer_questions answer_question is_ours ends_with nsec_a_only record_bytes
    encode_name encode_labels label_bytes split encode utf8_char is_scalar pack16 pack32 reply_bytes
    build_response question_bytes concat
replied = refl

silent : build_answer address [] (codes "192.168.1.2") asking 40000 ≡ ok none
unfolding build_answer answer_questions answer_question is_ours reply_bytes
silent = refl

app_local-IsQuestion : IsQuestion (record { name = app_local; qtype = 1 })
unfolding split encode utf8_char is_scalar
app_local-IsQuestion = (
  (
    (97 ∷ 112 ∷ 112 ∷ [], refl, ground arith, ground arith),
    ((108 ∷ 111 ∷ 99 ∷ 97 ∷ 108 ∷ [], refl, ground arith, ground arith), tt),
  ),
  ground arith,
)

abbrev query_header : Bytes
query_header = 0 ∷ 7 ∷ 0 ∷ 0 ∷ 0 ∷ 1 ∷ 0 ∷ 0 ∷ 0 ∷ 0 ∷ 0 ∷ 0 ∷ []

abbrev one_question : List Question
one_question = record { name = app_local; qtype = 1 } ∷ []

asked_bytes : question_bytes one_question ≡ ok (lower_name ++ (0 ∷ 1 ∷ 0 ∷ 1 ∷ []))
unfolding question_bytes encode_name encode_labels label_bytes split encode utf8_char is_scalar
    pack16
asked_bytes = refl

asked_word : word_at query_header 4 ≡ 1
unfolding word_at
asked_word = refl

flags_word : word_at query_header 2 < 2048
unfolding word_at
flags_word = ground arith

parse_query-question_bytes_example :
    parse_query lower (query_header ++ ((lower_name ++ (0 ∷ 1 ∷ 0 ∷ 1 ∷ [])) ++ (9 ∷ [])))
    ≡ ok (
        some (record { id = word_at query_header 0; questions = map (lowered lower) one_question }))
parse_query-question_bytes_example =
    parse_query-question_bytes lower one_question query_header (lower_name ++ (0 ∷ 1 ∷ 0 ∷ 1 ∷ []))
      (9 ∷ []) (app_local-IsQuestion, tt) asked_bytes refl flags_word asked_word

read_name_iff_example : (read_name lower query_packet 27 ≡ ok (app_local, 29)) ↔ (
    (n : ℕ) × (labels : List Text) × (n < max_rounds)
    × NameAt query_packet n 27 labels 29
    × (app_local ≡ lower (join b'.' labels)))
read_name_iff_example = read_name_iff query_packet lower 27 app_local 29

parse_query-bounds_example :
    (length two_questions ≡ word_at query_packet 4)
    × (12 + 5 * length two_questions ≤ length query_packet)
parse_query-bounds_example =
    parse_query-bounds query_packet lower (record { id = 7; questions = two_questions }) parsed

build_answer-eq-none_iff_example :
    (build_answer address [] (codes "192.168.1.2") asking 40000 ≡ ok none) ↔ (asked [] asking ≡ [])
build_answer-eq-none_iff_example =
    build_answer-eq-none_iff address [] (codes "192.168.1.2") asking 40000

handle-build_answer_example :
    handle address ntoa lower legacy_reply
      (record { ifindex = 2; local_addr = 192 ∷ 168 ∷ 1 ∷ 3 ∷ [] })
      (record { host = codes "192.168.1.2"; port = mdns_port })
      (record { domains = locals; listening = true })
    ≡ ok none
handle-build_answer_example =
    handle-build_answer lower address ntoa locals (codes "192.168.1.2") asking 40000 legacy_reply
      replied (record { ifindex = 2; local_addr = 192 ∷ 168 ∷ 1 ∷ 3 ∷ [] })
      (record { host = codes "192.168.1.2"; port = mdns_port })
      (record { domains = locals; listening = true })
