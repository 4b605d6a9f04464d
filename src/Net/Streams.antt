-- ===== src/Net/Streams.antt =====
-- A buffer that holds part of a frame waits for more, and a decoded frame encodes to the bytes it
-- was read from.
use mathlib.Core.List.{append_assoc}
use native.Mathlib.Nat.{suc-add, zero-add}
use red_culture_service.Common.{
  ℕ, zero, suc, ◌+◌, ◌*◌, ◌/◌, ◌%◌, ◌^◌, ◌≤◌, ◌<◌, ◌≡◌, ◌≢◌, refl, List, [], ◌∷◌, ◌++◌, some, arith,
  ltb, length, take, drop, Bool-cases, inl, inr, sym, ap, ◌∙◌, All, length-append, length-take,
  length-drop, take-append-drop, get_or-append,
}
use red_culture_service.Net.Frames.{
  Message, default_max_payload_size, to_u16, of_u16, read_u16_be, read_u32_be, write_u16_be,
  write_u32_be, encode_header, decode_header, encode, incomplete, decoded, decode_body, try_decode,
}
use red_culture_service.Net.FrameLaws.{header_of, encode-parts, length-encode_header, size_field}

read_u32-append : (xs ys : List ℕ) → 4 ≤ length xs → read_u32_be (xs ++ ys) ≡ read_u32_be xs
unfolding read_u32_be
read_u32-append xs ys h = cc (
  get_or-append xs ys 0 0 (omega arith),
  get_or-append xs ys 1 0 (omega arith),
  get_or-append xs ys 2 0 (omega arith),
  get_or-append xs ys 3 0 (omega arith),
)

short_buffer :
    (buffer : List ℕ) (n max : ℕ)
    → (8 ≤ length buffer → read_u32_be buffer ≡ n)
    → n ≤ max
    → length buffer < 8 + n
    → try_decode buffer max ≡ incomplete
unfolding try_decode decode_header decode_body
short_buffer buffer n max size fits short = elim (Bool-cases (ltb (length buffer) 8)) [
  | inl few ↦ rw few
  | inr enough ↦ let e : read_u32_be buffer ≡ n = size (ground arith) in ground arith
]

-- A proper prefix of a frame decodes to nothing yet, if the receiver's limit admits the payload: the
-- buffer waits for the rest.
pub decode_prefix :
    (m : Message) (bytes before after : List ℕ) (max : ℕ)
    → length m.payload ≤ max
    → encode m ≡ some bytes
    → bytes ≡ before ++ after
    → after ≢ []
    → try_decode before max ≡ incomplete
decode_prefix m bytes before [] max fits e split more = absurd (more refl)
decode_prefix m bytes before (b ∷ after) max fits e split more =
    let (shape, small) = encode-parts m bytes e in
    let h = header_of m in
    let size : h.payload_size ≡ length m.payload = omega arith in
    let n = length-append (encode_header h) m.payload in
    let k = length-append before (b ∷ after) in
    let len : length before < 8 + length m.payload = omega (
      arith,
      length-encode_header h [],
      ap (λ (l : List ℕ). length l) split,
      ap (λ (l : List ℕ). length l) shape,
    ) in
    short_buffer before (length m.payload) max
      (λ long.
        sym (read_u32-append before (b ∷ after) (omega arith))
        ∙ ap read_u32_be (sym split ∙ shape)
        ∙ size_field h m.payload (omega arith)
        ∙ size)
      fits len

to_u16-of_u16 : (code : ℕ) → to_u16 (of_u16 code) ≡ code
unfolding to_u16 of_u16
to_u16-of_u16 code = ground arith

abbrev pub IsBytes : List ℕ → Type 0
IsBytes = All (λ b. b < 256)

module _ (a b c d : ℕ) where
  byte_3 :
      a < 256
      → b < 256
      → c < 256
      → d < 256
      → (a * 2 ^ 24 + b * 2 ^ 16 + c * 2 ^ 8 + d) / 2 ^ 24 % 256 ≡ a
  byte_3 p q r s = omega arith

  byte_2 :
      b < 256 → c < 256 → d < 256 → (a * 2 ^ 24 + b * 2 ^ 16 + c * 2 ^ 8 + d) / 2 ^ 16 % 256 ≡ b
  byte_2 q r s = omega arith

  byte_1 : c < 256 → d < 256 → (a * 2 ^ 24 + b * 2 ^ 16 + c * 2 ^ 8 + d) / 2 ^ 8 % 256 ≡ c
  byte_1 r s = omega arith

  byte_0 : d < 256 → (a * 2 ^ 24 + b * 2 ^ 16 + c * 2 ^ 8 + d) % 256 ≡ d
  byte_0 s = omega arith

word_1 : (a b : ℕ) → a < 256 → b < 256 → (a * 2 ^ 8 + b) / 2 ^ 8 % 256 ≡ a
word_1 a b p q = omega arith

word_0 : (a b : ℕ) → b < 256 → (a * 2 ^ 8 + b) % 256 ≡ b
word_0 a b q = omega arith

-- The header that is read from eight bytes is written as the same bytes.
encode-decode_header :
    (buffer : List ℕ)
    → 8 ≤ length buffer
    → IsBytes buffer
    → encode_header (record {
      payload_size = read_u32_be buffer;
      type = of_u16 (read_u16_be (drop 4 buffer));
      flags = read_u16_be (drop 6 buffer);
    })
      ≡ take 8 buffer
unfolding encode_header read_u32_be read_u16_be write_u32_be write_u16_be
encode-decode_header (a ∷ b ∷ c ∷ d ∷ e ∷ f ∷ g ∷ h ∷ rest) long v =
    let code : to_u16 (of_u16 (e * 2 ^ 8 + f)) ≡ e * 2 ^ 8 + f = to_u16-of_u16 (e * 2 ^ 8 + f) in
    rw code (
      cc (
        byte_3 a b c d (omega arith) (omega arith) (omega arith) (omega arith),
        byte_2 a b c d (omega arith) (omega arith) (omega arith),
        byte_1 a b c d (omega arith) (omega arith),
        byte_0 a b c d (omega arith),
        word_1 e f (omega arith) (omega arith),
        word_0 e f (omega arith),
        word_1 g h (omega arith) (omega arith),
        word_0 g h (omega arith),
      ))
encode-decode_header buffer long v = absurd (omega arith)

-- What `tryDecode` takes off the buffer, and puts into the message.
decoded-parts :
    (buffer : List ℕ) (max : ℕ) (m : Message) (rest : List ℕ)
    → try_decode buffer max ≡ decoded m rest
    → let n = read_u32_be buffer in
      (8 + n ≤ length buffer)
      × (n ≤ max)
      × (m ≡ record {
        type = of_u16 (read_u16_be (drop 4 buffer));
        flags = read_u16_be (drop 6 buffer);
        payload = take n (drop 8 buffer);
      })
      × (rest ≡ drop (8 + n) buffer)
unfolding try_decode decode_header decode_body
decoded-parts buffer max m rest e = ground arith

drop-add : (k n : ℕ) (xs : List ℕ) → drop (k + n) xs ≡ drop n (drop k xs)
drop-add zero n xs = rw zero-add
drop-add (suc k) n [] = rw suc-add (empty_drop n)
  where
    empty_drop : (j : ℕ) → ◌≡◌ {A = List ℕ} [] (drop j [])
    empty_drop zero = refl
    empty_drop (suc j) = refl
drop-add (suc k) n (x ∷ xs) = rw suc-add (drop-add k n xs)

encoded :
    (buffer : List ℕ) (n : ℕ)
    → IsBytes buffer
    → 8 + n ≤ length buffer
    → n ≡ read_u32_be buffer
    → length (take n (drop 8 buffer)) ≡ n
    → n ≤ default_max_payload_size
    → encode (record {
      type = of_u16 (read_u16_be (drop 4 buffer));
      flags = read_u16_be (drop 6 buffer);
      payload = take n (drop 8 buffer);
    })
      ≡ some (take 8 buffer ++ take n (drop 8 buffer))
unfolding encode
encoded buffer n v long is_n size small =
    let exact : length (take n (drop 8 buffer)) % 2 ^ 32 ≡ read_u32_be buffer = omega arith in
    ground (arith, exact, encode-decode_header buffer (omega arith) v)

-- A message that `tryDecode` takes off a buffer of bytes encodes to the very bytes that are gone, if
-- the receiver's limit is no larger than the sender's.
pub encode-decode :
    (buffer : List ℕ) (max : ℕ) (m : Message) (rest : List ℕ)
    → IsBytes buffer
    → max ≤ default_max_payload_size
    → try_decode buffer max ≡ decoded m rest
    → (frame : List ℕ) × (encode m ≡ some frame) × (frame ++ rest ≡ buffer)
encode-decode buffer max m rest v limit e =
    let (long, fits, shape, left) = decoded-parts buffer max m rest e in
    let n = read_u32_be buffer in
    let body = take n (drop 8 buffer) in
    let size : length body ≡ n =
      length-take n (drop 8 buffer) (omega (arith, length-drop 8 buffer)) in
    (
      take 8 buffer ++ body,
      rw shape (encoded buffer n v long refl size (omega arith)),
      rw
          (
            left,
            append_assoc (take 8 buffer) body (drop (8 + n) buffer),
            drop-add 8 n buffer,
            take-append-drop n (drop 8 buffer),
          )
          (take-append-drop 8 buffer),
    )
