-- ===== src/Mdns/Answers/Published.antt =====
-- Which questions build_answer of compute_space/src/compute_space/core/mdns/answers.py answers, and how its
-- reply counts them.
use mathlib.Core.Path.{subst}
use mathlib.Core.List.{append-nil, append_assoc}
use cloud_in_a_bottle.Shared.{
  All, Bool, Bool-cases, List, List_eq, Result, Text, [], ap, arith, bind-congr, bind-eq-ok, false,
  filter, filter-append, if◌then◌else◌, inl, inr, length, ok, ok-inj, refl, sym, true, ℕ, ℕ_eq,
  ◌&&◌, ◌++◌, ◌==◌, ◌||◌, ◌∙◌, ◌∷◌, ◌≡◌,
}
use cloud_in_a_bottle.Mdns.Bytes.{Bytes, MdnsError}
use cloud_in_a_bottle.Mdns.Packets.{Question, type_a, type_aaaa, type_any, a_record, nsec_a_only}
use cloud_in_a_bottle.Mdns.Answers.{Gathered, answer_question, answer_questions, is_ours}

-- A question for an address, or any record, of a name under one of the domains.
abbrev pub is_answerable : List Text → Question → Bool
is_answerable domains q =
    is_ours q.name domains
    && ((q.qtype == type_a) || (q.qtype == type_any) || (q.qtype == type_aaaa))

abbrev pub asks_address : Question → Bool
asks_address q = (q.qtype == type_a) || (q.qtype == type_any)

-- The records of some questions, in their order.
abbrev pub AreRecords : (Question → Result MdnsError Bytes) → List Question → List Bytes → Type 0
AreRecords record_of [] [] = Unit
AreRecords record_of [] (bs ∷ records) = ⊥
AreRecords record_of (q ∷ questions) [] = ⊥
AreRecords record_of (q ∷ questions) (bs ∷ records) =
    (record_of q ≡ ok bs) × AreRecords record_of questions records

pub AreRecords-length :
    (record_of : Question → Result MdnsError Bytes) (questions : List Question)
    (records : List Bytes)
    → AreRecords record_of questions records
    → length records ≡ length questions
AreRecords-length record_of [] [] are = refl
AreRecords-length record_of [] (bs ∷ records) are = absurd are
AreRecords-length record_of (q ∷ questions) [] are = absurd are
AreRecords-length record_of (q ∷ questions) (bs ∷ records) (_, are) =
    omega (arith, AreRecords-length record_of questions records are)

pub AreRecords-append :
    (record_of : Question → Result MdnsError Bytes) (xs ys : List Question) (as' bs : List Bytes)
    → AreRecords record_of xs as'
    → AreRecords record_of ys bs
    → AreRecords record_of (xs ++ ys) (as' ++ bs)
AreRecords-append record_of [] ys [] bs are later = later
AreRecords-append record_of [] ys (a ∷ as') bs are later = absurd are
AreRecords-append record_of (x ∷ xs) ys [] bs are later = absurd are
AreRecords-append record_of (x ∷ xs) ys (a ∷ as') bs (is, are) later =
    (is, AreRecords-append record_of xs ys as' bs are later)

-- The answer to a question: the address, or for an AAAA question that there is none of that type.
abbrev pub answer_of :
    (Text → Result MdnsError Bytes) → Text → ℕ → Bool → Question → Result MdnsError Bytes
answer_of inet_aton ip ttl' cache_flush q =
    if asks_address q
    then a_record inet_aton q.name ip ttl' cache_flush
    else nsec_a_only q.name ttl' cache_flush

-- What comes with the answer to a question for an address.
abbrev pub additional_of : ℕ → Bool → Question → Result MdnsError Bytes
additional_of ttl' cache_flush q = nsec_a_only q.name ttl' cache_flush

module _ (inet_aton : Text → Result MdnsError Bytes) (domains : List Text) (ip : Text) (ttl' : ℕ)
    (cache_flush : Bool) where
  answer_question-passes :
      (q : Question) (g : Gathered)
      → is_answerable domains q ≡ false
      → answer_question inet_aton domains ip ttl' cache_flush q g ≡ ok g
  unfolding answer_question
  answer_question-passes q g h = ground arith

  -- The questions that are not answerable make no difference.
  pub answer_questions-filter :
      (questions : List Question) (g : Gathered)
      → answer_questions inet_aton domains ip ttl' cache_flush questions g
        ≡ answer_questions inet_aton domains ip ttl' cache_flush
            (filter (is_answerable domains) questions)
            g
  unfolding answer_questions
  answer_questions-filter [] g = refl
  answer_questions-filter (q ∷ questions) g = elim (Bool-cases (is_answerable domains q)) [
    | inl ours ↦ rw ours (
        bind-congr (answer_question inet_aton domains ip ttl' cache_flush q g) _ _
          (λ next. answer_questions-filter questions next))
    | inr other ↦ rw (other, answer_question-passes q g other) (answer_questions-filter questions g)
  ]

  -- What the loop over answerable questions appends to the three lists.
  abbrev pub IsAnswered : List Question → Gathered → Gathered → Type 0
  IsAnswered questions g after =
      (answers : List Bytes) × (additionals : List Bytes) × AreRecords
        (answer_of inet_aton ip ttl' cache_flush) questions answers
      × AreRecords (additional_of ttl' cache_flush) (filter asks_address questions) additionals
      × (after.answers ≡ g.answers ++ answers)
      × (after.additionals ≡ g.additionals ++ additionals)
      × (after.answered ≡ g.answered ++ questions)

  answer_of_address :
      (q : Question)
      → asks_address q ≡ true
      → answer_of inet_aton ip ttl' cache_flush q ≡ a_record inet_aton q.name ip ttl' cache_flush
  answer_of_address q address = rw address refl

  answer_of_other :
      (q : Question)
      → asks_address q ≡ false
      → answer_of inet_aton ip ttl' cache_flush q ≡ nsec_a_only q.name ttl' cache_flush
  answer_of_other q other = rw other refl

  additionals_of_address :
      (q : Question) (additional : Bytes)
      → asks_address q ≡ true
      → nsec_a_only q.name ttl' cache_flush ≡ ok additional
      → AreRecords (additional_of ttl' cache_flush) (filter asks_address (q ∷ [])) (additional ∷ [])
  additionals_of_address q additional address added = rw address (added, tt)

  additionals_of_other :
      (q : Question)
      → asks_address q ≡ false
      → AreRecords (additional_of ttl' cache_flush) (filter asks_address (q ∷ [])) []
  additionals_of_other q other = rw other tt

  answer_question-IsAnswered :
      (q : Question) (g after : Gathered)
      → is_answerable domains q ≡ true
      → answer_question inet_aton domains ip ttl' cache_flush q g ≡ ok after
      → IsAnswered (q ∷ []) g after
  unfolding answer_question
  answer_question-IsAnswered q g after ours h =
      let here : is_ours q.name domains ≡ true = ground arith in
      elim (Bool-cases (asks_address q)) [
        | inl address ↦
            let (answer, answered, k) =
              bind-eq-ok (a_record inet_aton q.name ip ttl' cache_flush) _
                (rw (here, address) at h) in
            let (additional, added, e) = bind-eq-ok (nsec_a_only q.name ttl' cache_flush) _ k in
            let appended = ok-inj e in
            (
              answer ∷ [],
              additional ∷ [],
              (answer_of_address q address ∙ answered, tt),
              additionals_of_address q additional address added,
              sym (ap (λ (x : Gathered). x.answers) appended),
              sym (ap (λ (x : Gathered). x.additionals) appended),
              sym (ap (λ (x : Gathered). x.answered) appended),
            )
        | inr other ↦
            let aaaa : (q.qtype == type_aaaa) ≡ true = ground arith in
            let (answer, answered, e) =
              bind-eq-ok (nsec_a_only q.name ttl' cache_flush) _ (rw (here, other, aaaa) at h) in
            let appended = ok-inj e in
            (
              answer ∷ [],
              [],
              (answer_of_other q other ∙ answered, tt),
              additionals_of_other q other,
              sym (ap (λ (x : Gathered). x.answers) appended),
              sym (ap (λ (x : Gathered). x.additionals) appended) ∙ sym (append-nil g.additionals),
              sym (ap (λ (x : Gathered). x.answered) appended),
            )
      ]

  IsAnswered-append :
      (xs ys : List Question) (g next after : Gathered)
      → IsAnswered xs g next
      → IsAnswered ys next after
      → IsAnswered (xs ++ ys) g after
  IsAnswered-append xs ys g next after (as1, bs1, are1, with1, a1, b1, q1)
        (as2, bs2, are2, with2, a2, b2, q2) =
      (
        as1 ++ as2,
        bs1 ++ bs2,
        AreRecords-append (answer_of inet_aton ip ttl' cache_flush) xs ys as1 as2 are1 are2,
        subst (λ qs. AreRecords (additional_of ttl' cache_flush) qs (bs1 ++ bs2))
            (sym (filter-append asks_address xs ys))
            (AreRecords-append (additional_of ttl' cache_flush) (filter asks_address xs)
              (filter asks_address ys) bs1 bs2 with1 with2),
        a2 ∙ ap (λ l. l ++ as2) a1 ∙ append_assoc g.answers as1 as2,
        b2 ∙ ap (λ l. l ++ bs2) b1 ∙ append_assoc g.additionals bs1 bs2,
        q2 ∙ ap (λ l. l ++ ys) q1 ∙ append_assoc g.answered xs ys,
      )

  -- Each question that is answerable is answered, in its order.
  pub answer_questions-IsAnswered :
      (questions : List Question) (g after : Gathered)
      → All (λ q. is_answerable domains q ≡ true) questions
      → answer_questions inet_aton domains ip ttl' cache_flush questions g ≡ ok after
      → IsAnswered questions g after
  unfolding answer_questions
  answer_questions-IsAnswered [] g after ours h = rw (← (ok-inj h)) (
    [],
    [],
    tt,
    tt,
    sym (append-nil g.answers),
    sym (append-nil g.additionals),
    sym (append-nil g.answered),
  )
  answer_questions-IsAnswered (q ∷ questions) g after (here, ours) h =
      let (next, h1, h2) =
        bind-eq-ok (answer_question inet_aton domains ip ttl' cache_flush q g) _ h in
      IsAnswered-append (q ∷ []) questions g next after
        (answer_question-IsAnswered q g next here h1)
        (answer_questions-IsAnswered questions next after ours h2)
