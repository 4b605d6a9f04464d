-- ===== src/Net/FrameLaws.antt =====
-- Frames survive the way through the byte stream, in both directions.
use mathlib.Core.List.{append_assoc}
use red_culture_service.Common.{
  ℕ, ◌+◌, ◌%◌, ◌^◌, ◌≤◌, ◌<◌, ◌≡◌, refl, List, ◌++◌, some, arith, length, drop, sym, length-append,
  take-append, drop-append,
}
use red_culture_service.Net.Frames.{
  MessageType, unknown, heartbeat, text, binary, other, Message, FrameHeader, header_size,
  default_max_payload_size, to_u16, of_u16, read_u16_be, read_u32_be, write_u16_be, write_u32_be,
  encode_header, decode_header, encode, decoded, decode_body, try_decode,
}

-- A value of the enum: a named one, or a 16-bit code without a name.
abbrev pub IsType : MessageType → Type 0
IsType (other code) = (4 ≤ code) × (code < 2 ^ 16)
IsType _ = Unit

of_u16-to_u16 : (t : MessageType) → IsType t → of_u16 (to_u16 t) ≡ t
unfolding of_u16 to_u16
of_u16-to_u16 (other code) h = ground arith
of_u16-to_u16 unknown h = refl
of_u16-to_u16 heartbeat h = refl
of_u16-to_u16 text h = refl
of_u16-to_u16 binary h = refl

to_u16-lt : (t : MessageType) → IsType t → to_u16 t < 2 ^ 16
unfolding to_u16
to_u16-lt (other code) h = h.1
to_u16-lt unknown h = omega arith
to_u16-lt heartbeat h = omega arith
to_u16-lt text h = omega arith
to_u16-lt binary h = omega arith

read-write_u32 : (n : ℕ) (rest : List ℕ) → n < 2 ^ 32 → read_u32_be (write_u32_be n ++ rest) ≡ n
unfolding read_u32_be write_u32_be
read-write_u32 n rest h = omega arith

read-write_u16 : (n : ℕ) (rest : List ℕ) → n < 2 ^ 16 → read_u16_be (write_u16_be n ++ rest) ≡ n
unfolding read_u16_be write_u16_be
read-write_u16 n rest h = omega arith

pub record IsMessage (m : Message) : Type 0 where
  pub type : IsType m.type
  pub flags : m.flags < 2 ^ 16

module _ (h : FrameHeader) (rest : List ℕ) where
  pub size_field : h.payload_size < 2 ^ 32 → read_u32_be (encode_header h ++ rest) ≡ h.payload_size
  unfolding encode_header write_u32_be read_u32_be
  size_field small = omega arith

  type_field :
      to_u16 h.type < 2 ^ 16 → read_u16_be (drop 4 (encode_header h ++ rest)) ≡ to_u16 h.type
  unfolding encode_header write_u32_be write_u16_be read_u16_be
  type_field small = omega arith

  flags_field : h.flags < 2 ^ 16 → read_u16_be (drop 6 (encode_header h ++ rest)) ≡ h.flags
  unfolding encode_header write_u32_be write_u16_be read_u16_be
  flags_field small = omega arith

  pub length-encode_header : length (encode_header h) ≡ 8
  unfolding encode_header write_u32_be write_u16_be
  length-encode_header = refl

-- A header is read back from the start of a buffer.
pub decode-encode_header :
    (h : FrameHeader) (rest : List ℕ) (max : ℕ)
    → h.payload_size < 2 ^ 32
    → h.payload_size ≤ max
    → IsType h.type
    → h.flags < 2 ^ 16
    → decode_header (encode_header h ++ rest) max ≡ some h
unfolding decode_header
decode-encode_header h rest max small fits t f = ground (
  arith,
  size_field h rest small,
  type_field h rest (to_u16-lt h.type t),
  flags_field h rest f,
  of_u16-to_u16 h.type t,
)

abbrev pub header_of : Message → FrameHeader
header_of m = record { payload_size = length m.payload % 2 ^ 32; type = m.type; flags = m.flags }

pub encode-parts :
    (m : Message) (bytes : List ℕ)
    → encode m ≡ some bytes
    → (bytes ≡ encode_header (header_of m) ++ m.payload)
      × (length m.payload ≤ default_max_payload_size)
unfolding encode
encode-parts m bytes e = ground arith

drop_frame :
    (h : FrameHeader) (body rest : List ℕ)
    → h.payload_size ≡ length body
    → drop (header_size + h.payload_size) (encode_header h ++ (body ++ rest)) ≡ rest
drop_frame h body rest e =
    let n : length (encode_header h ++ body) ≡ header_size + h.payload_size =
      omega (arith, length-append (encode_header h) body, length-encode_header h rest) in
    rw (← append_assoc (encode_header h) body rest)
      (drop-append (header_size + h.payload_size) (encode_header h ++ body) rest n)

-- A frame followed by any bytes decodes to its message and leaves those bytes, if the message's type
-- and flags are 16-bit words of the protocol and the receiver's limit admits the payload.
pub decode-encode :
    (m : Message) (bytes rest : List ℕ) (max : ℕ)
    → IsMessage m
    → length m.payload ≤ max
    → encode m ≡ some bytes
    → try_decode (bytes ++ rest) max ≡ decoded m rest
unfolding try_decode decode_body
decode-encode m bytes rest max v fits e =
    let (shape, small) = encode-parts m bytes e in
    let h = header_of m in
    let size : h.payload_size ≡ length m.payload = omega arith in
    let whole : bytes ++ rest ≡ encode_header h ++ (m.payload ++ rest) =
      rw shape (append_assoc (encode_header h) m.payload rest) in
    let header =
      decode-encode_header h (m.payload ++ rest) max (omega arith) (omega arith) v.type v.flags in
    let len : length (encode_header h ++ (m.payload ++ rest))
        ≡ 8 + (length m.payload + length rest) =
      omega (
        arith,
        length-append (encode_header h) (m.payload ++ rest),
        length-append m.payload rest,
        length-encode_header h (m.payload ++ rest),
      ) in
    rw whole (
      ground (
        arith,
        header,
        len,
        drop-append 8 (encode_header h) (m.payload ++ rest) (length-encode_header h rest),
        take-append h.payload_size m.payload rest (sym size),
        drop_frame h m.payload rest size,
      ))
