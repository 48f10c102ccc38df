-- ===== src/Mdns/Responder/Silence.antt =====
-- What the responder of compute_space/src/compute_space/core/mdns/responder.py does with another's reply.
use cloud_in_a_bottle.Shared.{
  Bool, Bool-cases, List, List_eq, Result, String_eq, Text, [], ap, arith, bind-eq-ok, codes, false,
  if◌then◌else◌, inl, inr, none, not, ok, refl, some, sym, true, ℕ, ℕ_eq, ◌==◌, ◌∙◌, ◌∷◌, ◌≡◌,
}
use cloud_in_a_bottle.Mdns.Bytes.{Bytes, MdnsError}
use cloud_in_a_bottle.Mdns.Packets.{Query, Question, build_response, parse_query}
use cloud_in_a_bottle.Mdns.Answers.{
  build_answer, answer_questions, legacy_ttl, mdns_port, reply_bytes, ttl,
}
use cloud_in_a_bottle.Mdns.Responder.{
  Address, MdnsResponder, PacketInfo, answer_to, handle, parsed_or_none,
}
use cloud_in_a_bottle.Mdns.Packets.Queries.{parse_query-build_response}

module _ (str_lower : Text → Text) where
  reply_bytes-silent :
      (legacy : Bool) (id : ℕ) (answered : List Question) (answers additionals : List Bytes)
      (reply : Bytes)
      → reply_bytes legacy id answered answers additionals ≡ ok (some reply)
      → parse_query str_lower reply ≡ ok none
  unfolding reply_bytes
  reply_bytes-silent legacy id answered [] additionals reply h = absurd (ground arith)
  reply_bytes-silent true id answered (answer ∷ answers) additionals reply h =
      let (bytes, built, e) =
        bind-eq-ok (build_response id answered (answer ∷ answers) additionals) _ h in
      let same : bytes ≡ reply = cc in
      ap (parse_query str_lower) (sym same)
      ∙ parse_query-build_response str_lower id answered (answer ∷ answers) additionals bytes built
  reply_bytes-silent false id answered (answer ∷ answers) additionals reply h =
      let (bytes, built, e) = bind-eq-ok (build_response 0 [] (answer ∷ answers) additionals) _ h in
      let same : bytes ≡ reply = cc in
      ap (parse_query str_lower) (sym same)
      ∙ parse_query-build_response str_lower 0 [] (answer ∷ answers) additionals bytes built

  module _ (inet_aton : Text → Result MdnsError Bytes) (inet_ntoa : Bytes → Text) where
    handle_of_none :
        (packet : Bytes) (info : PacketInfo) (addr : Address) (r : MdnsResponder)
        → parse_query str_lower packet ≡ ok none
        → handle inet_aton inet_ntoa str_lower packet info addr r ≡ ok none
    unfolding handle parsed_or_none answer_to
    handle_of_none packet info addr r h =
        elim (Bool-cases (inet_ntoa info.local_addr == codes "0.0.0.0")) [
          | inl unset ↦ rw unset refl
          | inr set ↦ rw (set, h) refl
        ]

    -- Nobody answers a reply: whichever responder gets the packet that another made for some query, it
    -- sends nothing.
    pub handle-build_answer :
        (domains : List Text) (ip : Text) (query : Query) (source_port : ℕ) (reply : Bytes)
        → build_answer inet_aton domains ip query source_port ≡ ok (some reply)
        → (info : PacketInfo) (addr : Address) (r : MdnsResponder)
        → handle inet_aton inet_ntoa str_lower reply info addr r ≡ ok none
    unfolding build_answer
    handle-build_answer domains ip query source_port reply h info addr r =
        let (g, _, replied) =
          bind-eq-ok
            (answer_questions inet_aton domains ip
              (if not (source_port == mdns_port) then legacy_ttl else ttl)
              (not (not (source_port == mdns_port))) query.questions
              (record { answers = []; additionals = []; answered = [] }))
            _ h in
        handle_of_none reply info addr r (
          reply_bytes-silent (not (source_port == mdns_port)) query.id g.answered g.answers
            g.additionals reply replied)
