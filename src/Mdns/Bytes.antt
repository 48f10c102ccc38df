-- ===== src/Mdns/Bytes.antt =====
-- The bytes of a packet: what compute_space/src/compute_space/core/mdns/packets.py uses of `struct` with
-- "!H" and "!I", and of UTF-8. A mask of low bits is a remainder, a shift a quotient.
use cloud_in_a_bottle.Shared.{
  Bool, Bool-cases, List, List_eq, Option, Result, Text, [], arith, bind-eq-ok, if◌then◌else◌, inl,
  inr, leb, ltb, none, ok, ok-inj, raise, refl, some, suc, true, when_set, zero, ℕ, ℕ_eq, ◌%◌, ◌&&◌,
  ◌*◌, ◌++◌, ◌+◌, ◌-◌, ◌/◌, ◌<◌, ◌>>=◌, ◌||◌, ◌∷◌, ◌≡◌, ◌≤◌,
}

abbrev pub Bytes : Type 0
Bytes = List ℕ

pub data MdnsError : Type 0 where
  -- `MalformedPacket`, by its message.
  name_past_end : MdnsError
  truncated_pointer : MdnsError
  reserved_label : MdnsError
  truncated_label : MdnsError
  not_utf8 : MdnsError
  pointer_loop : MdnsError
  short_header : MdnsError
  truncated_question : MdnsError
  -- `struct.error`, `ValueError` of `bytes` on a number past 255, `UnicodeEncodeError`, and the
  -- `OSError` of an address.
  not_in_format : MdnsError
  not_a_byte : MdnsError
  not_encodable : MdnsError
  illegal_address : MdnsError

abbrev pub IsByte : ℕ → Type 0
IsByte b = b < 256

unfoldable pub pack16 : ℕ → Result MdnsError Bytes
pack16 n = if ltb n 65536 then ok (n / 256 ∷ n % 256 ∷ []) else raise not_in_format

unfoldable pub pack32 : ℕ → Result MdnsError Bytes
pack32 n =
    if ltb n 4294967296
    then ok (n / 16777216 ∷ n / 65536 % 256 ∷ n / 256 % 256 ∷ n % 256 ∷ [])
    else raise not_in_format

abbrev pub word16 : ℕ → ℕ → ℕ
word16 high low = high * 256 + low

-- A surrogate, or a number past the last code point.
unfoldable pub is_scalar : ℕ → Bool
is_scalar c = ltb c 55296 || (leb 57344 c && ltb c 1114112)

unfoldable pub utf8_char : ℕ → Bytes
utf8_char c =
    if ltb c 128
    then c ∷ []
    else if ltb c 2048
    then (192 + c / 64) ∷ (128 + c % 64) ∷ []
    else if ltb c 65536
    then (224 + c / 4096) ∷ (128 + c / 64 % 64) ∷ (128 + c % 64) ∷ []
    else (240 + c / 262144) ∷ (128 + c / 4096 % 64) ∷ (128 + c / 64 % 64) ∷ (128 + c % 64) ∷ []

-- `s.encode()`
unfoldable pub encode : Text → Result MdnsError Bytes
encode [] = ok []
encode (c ∷ s) =
    if is_scalar c then encode s >>= (λ bs. ok (utf8_char c ++ bs)) else raise not_encodable

-- `b.decode("utf-8")`, with the continuation bytes that are missing, the bits read of them, and the
-- least number that needs as many bytes.
unfoldable pub decode_from : ℕ → ℕ → ℕ → Bytes → Option Text
decode_from zero bits least [] = some []
decode_from (suc missing) bits least [] = none
decode_from zero bits least (b ∷ bs) =
    if ltb b 128
    then when_set (decode_from 0 0 0 bs) (λ s. some (b ∷ s))
    else if ltb b 192
    then none
    else if ltb b 224
    then decode_from 1 (b - 192) 128 bs
    else if ltb b 240
    then decode_from 2 (b - 224) 2048 bs
    else if ltb b 248
    then decode_from 3 (b - 240) 65536 bs
    else none
decode_from (suc zero) bits least (b ∷ bs) =
    let c = bits * 64 + (b - 128) in
    if (leb 128 b && ltb b 192) && (leb least c && is_scalar c)
    then when_set (decode_from 0 0 0 bs) (λ s. some (c ∷ s))
    else none
decode_from (suc (suc more)) bits least (b ∷ bs) =
    if leb 128 b && ltb b 192 then decode_from (suc more) (bits * 64 + (b - 128)) least bs else none

unfoldable pub decode : Bytes → Option Text
decode bs = decode_from 0 0 0 bs

is_scalar-lt : (c : ℕ) → is_scalar c ≡ true → c < 1114112
unfolding is_scalar
is_scalar-lt c h = ground arith

module _ (c : ℕ) (bs : Bytes) (s : Text) (scalar : is_scalar c ≡ true)
    (later : decode_from 0 0 0 bs ≡ some s) where
  decode_one_byte : ltb c 128 ≡ true → decode_from 0 0 0 (c ∷ bs) ≡ some (c ∷ s)
  unfolding decode_from
  decode_one_byte low = rw (low, later) refl

  decode_two_bytes :
      128 ≤ c → c < 2048 → decode_from 0 0 0 ((192 + c / 64) ∷ (128 + c % 64) ∷ bs) ≡ some (c ∷ s)
  unfolding decode_from
  decode_two_bytes low high =
      let e : (192 + c / 64 - 192) * 64 + (128 + c % 64 - 128) ≡ c = omega arith in
      rw e (ground arith)

  decode_three_bytes :
      2048 ≤ c
      → c < 65536
      → decode_from 0 0 0 ((224 + c / 4096) ∷ (128 + c / 64 % 64) ∷ (128 + c % 64) ∷ bs)
        ≡ some (c ∷ s)
  unfolding decode_from
  decode_three_bytes low high =
      let e : ((224 + c / 4096 - 224) * 64 + (128 + c / 64 % 64 - 128)) * 64 + (128 + c % 64 - 128)
          ≡ c =
        omega arith in
      rw e (ground arith)

  decode_four_bytes :
      65536 ≤ c
      → c < 1114112
      → decode_from 0 0 0
          ((240 + c / 262144) ∷ (128 + c / 4096 % 64) ∷ (128 + c / 64 % 64) ∷ (128 + c % 64) ∷ bs)
        ≡ some (c ∷ s)
  unfolding decode_from
  decode_four_bytes low high =
      let e : (((240 + c / 262144 - 240) * 64 + (128 + c / 4096 % 64 - 128)) * 64
                + (128 + c / 64 % 64 - 128))
              * 64
            + (128 + c % 64 - 128)
          ≡ c =
        omega arith in
      rw e (ground arith)

  decode_utf8_char : decode_from 0 0 0 (utf8_char c ++ bs) ≡ some (c ∷ s)
  unfolding utf8_char
  decode_utf8_char = elim (Bool-cases (ltb c 128)) [
    | inl one ↦ rw one (decode_one_byte one)
    | inr past_one ↦ elim (Bool-cases (ltb c 2048)) [
      | inl two ↦ rw (past_one, two) (decode_two_bytes (ground arith) (ground arith))
      | inr past_two ↦ elim (Bool-cases (ltb c 65536)) [
        | inl three ↦
            rw (past_one, past_two, three) (decode_three_bytes (ground arith) (ground arith))
        | inr past_three ↦
            rw (past_one, past_two, past_three)
              (decode_four_bytes (ground arith) (is_scalar-lt c scalar))
      ]
    ]
  ]

-- What `encode` writes, `decode` reads back.
pub decode-encode : (s : Text) (bs : Bytes) → encode s ≡ ok bs → decode bs ≡ some s
unfolding encode decode decode_from
decode-encode [] bs returned = rw (← (ok-inj returned)) refl
decode-encode (c ∷ s) bs returned = elim (Bool-cases (is_scalar c)) [
  | inr bad ↦ absurd (ground arith)
  | inl scalar ↦
      let (rest, here, e) =
        bind-eq-ok (encode s) (λ later. ok (utf8_char c ++ later)) (rw scalar at returned) in
      rw (← (ok-inj e)) (decode_utf8_char c rest s scalar (decode-encode s rest here))
]
