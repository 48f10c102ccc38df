-- ===== src/Mdns/Answers/Replies.antt =====
-- The replies of build_answer of compute_space/src/compute_space/core/mdns/answers.py.
use cloud_in_a_bottle.Shared.{
  All-of_mem, Bool, List, List_eq, Result, Text, [], ap, arith, bind-eq-ok, filter, if◌then◌else◌,
  length, mem_of_filter, none, not, ok, refl, sym, true, ℕ, ℕ_eq, ◌++◌, ◌==◌, ◌>>=◌, ◌↔◌, ◌∙◌, ◌∷◌,
  ◌≡◌,
}
use cloud_in_a_bottle.Mdns.Bytes.{Bytes, MdnsError}
use cloud_in_a_bottle.Mdns.Packets.{Question, Query, build_response, concat, question_bytes}
use cloud_in_a_bottle.Mdns.Packets.Queries.{response_header}
use cloud_in_a_bottle.Mdns.Answers.{
  Gathered, answer_questions, legacy_ttl, mdns_port, reply_bytes, ttl, build_answer,
}
use cloud_in_a_bottle.Mdns.Answers.Published.{
  answer_questions-filter, is_answerable, answer_questions-IsAnswered, AreRecords,
  AreRecords-length, IsAnswered, additional_of, answer_of, answer_questions-IsAnswered,
  asks_address,
}

abbrev nothing : Gathered
nothing = record { answers = []; additionals = []; answered = [] }

-- The questions of a query that are answerable, in their order.
abbrev pub asked : List Text → Query → List Question
asked domains query = filter (is_answerable domains) query.questions

abbrev pub is_legacy : ℕ → Bool
is_legacy source_port = not (source_port == mdns_port)

eq-nil_of_length : {A : Type 0} (xs : List A) → length xs ≡ 0 → xs ≡ []
eq-nil_of_length [] h = refl
eq-nil_of_length (x ∷ xs) h = absurd (omega (arith, h))

reply_bytes-eq-none :
    (legacy : Bool) (id : ℕ) (answered : List Question) (answers additionals : List Bytes)
    → reply_bytes legacy id answered answers additionals ≡ ok none
    → answers ≡ []
unfolding reply_bytes
reply_bytes-eq-none legacy id answered [] additionals h = refl
reply_bytes-eq-none legacy id answered (answer ∷ answers) additionals h =
    let (bytes, _, e) =
      bind-eq-ok
        (if legacy
          then build_response id answered (answer ∷ answers) additionals
          else build_response 0 [] (answer ∷ answers) additionals)
        _ h in
    absurd (ground arith)

-- A reply with an id that echoes some questions and answers others: the header with the four counts, the
-- bytes of the echoed questions, an answer to each of the others in its order, and the additional record
-- of each of those that asks for an address.
abbrev pub IsReply :
    (Text → Result MdnsError Bytes)
    → Text
    → ℕ
    → Bool
    → ℕ
    → List Question
    → List Question
    → Bytes
    → Type 0
IsReply inet_aton ip ttl' cache_flush id echoed questions reply =
    (asked : Bytes) × (answers : List Bytes) × (additionals : List Bytes) × (question_bytes echoed
      ≡ ok asked)
    × AreRecords (answer_of inet_aton ip ttl' cache_flush) questions answers
    × AreRecords (additional_of ttl' cache_flush) (filter asks_address questions) additionals
    × (response_header id (length echoed) (length questions)
            (length (filter asks_address questions))
          ++ (asked ++ concat answers ++ concat additionals)
        ≡ reply)

module _ (inet_aton : Text → Result MdnsError Bytes) (domains : List Text) (ip : Text) where
  abbrev ttl_of : ℕ → ℕ
  ttl_of source_port = if is_legacy source_port then legacy_ttl else ttl

  abbrev gathered : Query → ℕ → Result MdnsError Gathered
  gathered query source_port =
      answer_questions inet_aton domains ip (if is_legacy source_port then legacy_ttl else ttl)
        (not (is_legacy source_port)) query.questions nothing

  gathered-asked :
      (query : Query) (source_port : ℕ) (g : Gathered)
      → gathered query source_port ≡ ok g
      → IsAnswered inet_aton domains ip
          (ttl_of source_port)
          (not (is_legacy source_port))
          (asked domains query)
          nothing
          g
  gathered-asked query source_port g h =
      answer_questions-IsAnswered inet_aton domains ip (ttl_of source_port)
        (not (is_legacy source_port)) (asked domains query) nothing g
        (All-of_mem (λ q. is_answerable domains q ≡ true) (asked domains query)
          (λ q m. (mem_of_filter (is_answerable domains) query.questions q m).1))
        (sym (answer_questions-filter inet_aton domains ip _ _ query.questions _) ∙ h)

  -- There is no reply exactly when no question of the query is answerable; the other queries have a
  -- reply, or raise.
  pub build_answer-eq-none_iff :
      (query : Query) (source_port : ℕ)
      → (build_answer inet_aton domains ip query source_port ≡ ok none) ↔ (asked domains query ≡ [])
  unfolding build_answer reply_bytes answer_questions
  build_answer-eq-none_iff query source_port = (
    λ h.
        (let (g, got, silent) = bind-eq-ok (gathered query source_port) _ h in
          let (answers, _, are, _, a, _, _) = gathered-asked query source_port g got in
          eq-nil_of_length (asked domains query) (
            sym (AreRecords-length _ (asked domains query) answers are)
            ∙ sym (ap length a)
            ∙ ap length (
                reply_bytes-eq-none (is_legacy source_port) query.id g.answered g.answers
                  g.additionals silent))),
    λ h.
        ap
          (λ r. r >>= (λ (g : Gathered).
            reply_bytes (is_legacy source_port) query.id g.answered g.answers g.additionals))
          (answer_questions-filter inet_aton domains ip _ _ query.questions _
            ∙ ap
                (λ qs.
                  answer_questions inet_aton domains ip
                    (if is_legacy source_port then legacy_ttl else ttl)
                    (not (is_legacy source_port)) qs nothing)
                h),
  )
