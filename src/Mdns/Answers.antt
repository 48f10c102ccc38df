-- ===== src/Mdns/Answers.antt =====
-- compute_space/src/compute_space/core/mdns/answers.py, and what `_handle` of mdns/responder.py does with a
-- packet: which queries are answered, and with what.
pub mod Published
pub mod Replies
use cloud_in_a_bottle.Shared.{
  Bool, List, List_eq, Option, Result, Text, [], any, ends_with, if◌then◌else◌, none, not, ok, some,
  ℕ, ℕ_eq, ◌++◌, ◌==◌, ◌>>=◌, ◌||◌, ◌∷◌,
}
use cloud_in_a_bottle.Mdns.Packets.{
  Question, Query, a_record, build_response, nsec_a_only, type_a, type_aaaa, type_any,
}
use cloud_in_a_bottle.Mdns.Bytes.{Bytes, MdnsError}

abbrev pub mdns_port : ℕ
mdns_port = 5353

abbrev pub ttl : ℕ
ttl = 120

abbrev pub legacy_ttl : ℕ
legacy_ttl = 10

unfoldable pub is_ours : Text → List Text → Bool
is_ours name domains = any (λ domain. ends_with (b'.' ∷ domain) name) domains

-- The lists that the loop appends to.
pub record Gathered : Type 0 where
  pub answers : List Bytes
  pub additionals : List Bytes
  pub answered : List Question

-- The packet for the answers, echoing the questions to a legacy querier alone.
unfoldable pub reply_bytes :
    Bool → ℕ → List Question → List Bytes → List Bytes → Result MdnsError (Option Bytes)
reply_bytes legacy id answered [] additionals = ok none
reply_bytes legacy id answered (answer ∷ answers) additionals =
    (if legacy
      then build_response id answered (answer ∷ answers) additionals
      else build_response 0 [] (answer ∷ answers) additionals)
    >>= (λ bytes. ok (some bytes))

module _ (inet_aton : Text → Result MdnsError Bytes) (domains : List Text) (ip : Text) where
  -- The records for one question: none where the loop goes on to the next.
  unfoldable pub answer_question : ℕ → Bool → Question → Gathered → Result MdnsError Gathered
  answer_question ttl' cache_flush q g =
      if not (is_ours q.name domains)
      then ok g
      else if (q.qtype == type_a) || (q.qtype == type_any)
      then (a_record inet_aton q.name ip ttl' cache_flush >>= (λ answer.
          nsec_a_only q.name ttl' cache_flush >>= (λ additional. ok (record {
            answers = g.answers ++ answer ∷ [];
            additionals = g.additionals ++ additional ∷ [];
            answered = g.answered ++ q ∷ [];
          }))))
      else if q.qtype == type_aaaa
      then (nsec_a_only q.name ttl' cache_flush >>= (λ answer.
          ok (record g { answers = g.answers ++ answer ∷ []; answered = g.answered ++ q ∷ [] })))
      else ok g

  unfoldable pub answer_questions : ℕ → Bool → List Question → Gathered → Result MdnsError Gathered
  answer_questions ttl' cache_flush [] g = ok g
  answer_questions ttl' cache_flush (q ∷ questions) g =
      answer_question ttl' cache_flush q g >>= answer_questions ttl' cache_flush questions

  unfoldable pub build_answer : Query → ℕ → Result MdnsError (Option Bytes)
  build_answer query source_port =
      let legacy = not (source_port == mdns_port) in
      answer_questions (if legacy then legacy_ttl else ttl) (not legacy) query.questions
        (record { answers = []; additionals = []; answered = [] })
      >>= (λ g. reply_bytes legacy query.id g.answered g.answers g.additionals)
