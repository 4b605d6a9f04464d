-- ===== src/Net/Frames.antt =====
-- src/net/message.cpp and include/rcs/net/message.hpp. A byte is a number below 256; where the code
-- joins shifted bytes by `|`, the bits do not overlap, and the sum is the same number.
use red_culture_service.Common.{
  ℕ, ◌+◌, ◌*◌, ◌/◌, ◌%◌, ◌^◌, List, [], ◌∷◌, ◌++◌, Option, none, some, ltb, if◌then◌else◌, length,
  take, drop, get_or, ◌==◌,
}

-- A 16-bit code without a name in the enum is still a value of it.
pub data MessageType : Type 0 where
  unknown heartbeat text binary : MessageType
  other : ℕ → MessageType

pub record Message : Type 0 where
  pub type : MessageType
  pub flags : ℕ
  pub payload : List ℕ

pub record FrameHeader : Type 0 where
  pub payload_size : ℕ
  pub type : MessageType
  pub flags : ℕ

abbrev pub header_size : ℕ
header_size = 8

abbrev pub default_max_payload_size : ℕ
default_max_payload_size = 1024 * 1024

-- The two `static_cast`s.
unfoldable pub to_u16 : MessageType → ℕ
to_u16 unknown = 0
to_u16 heartbeat = 1
to_u16 text = 2
to_u16 binary = 3
to_u16 (other code) = code

unfoldable pub of_u16 : ℕ → MessageType
of_u16 code =
    if code == 0
    then unknown
    else if code == 1
    then heartbeat
    else if code == 2
    then text
    else if code == 3
    then binary
    else other code

abbrev pub byte_at : List ℕ → ℕ → ℕ
byte_at bytes i = get_or bytes i 0

unfoldable pub read_u16_be : List ℕ → ℕ
read_u16_be bytes = byte_at bytes 0 * 2 ^ 8 + byte_at bytes 1

unfoldable pub read_u32_be : List ℕ → ℕ
read_u32_be bytes =
    byte_at bytes 0 * 2 ^ 24 + byte_at bytes 1 * 2 ^ 16 + byte_at bytes 2 * 2 ^ 8 + byte_at bytes 3

unfoldable pub write_u16_be : ℕ → List ℕ
write_u16_be value = (value / 2 ^ 8 % 256) ∷ (value % 256) ∷ []

unfoldable pub write_u32_be : ℕ → List ℕ
write_u32_be value =
    (value / 2 ^ 24 % 256) ∷ (value / 2 ^ 16 % 256) ∷ (value / 2 ^ 8 % 256) ∷ (value % 256) ∷ []

unfoldable pub encode_header : FrameHeader → List ℕ
encode_header header =
    write_u32_be header.payload_size
    ++ (write_u16_be (to_u16 header.type) ++ write_u16_be header.flags)

-- `none` is the exception `length_error`.
unfoldable pub decode_header : List ℕ → ℕ → Option FrameHeader
decode_header bytes max_payload_size =
    if ltb max_payload_size (read_u32_be bytes)
    then none
    else some (record {
      payload_size = read_u32_be bytes;
      type = of_u16 (read_u16_be (drop 4 bytes));
      flags = read_u16_be (drop 6 bytes);
    })

-- `none` is the exception `length_error`.
unfoldable pub encode : Message → Option (List ℕ)
encode message =
    if ltb default_max_payload_size (length message.payload)
    then none
    else some (
        encode_header (record {
          payload_size = length message.payload % 2 ^ 32;
          type = message.type;
          flags = message.flags;
        })
        ++ message.payload)

-- What `tryDecode` does to the buffer: nothing yet, the exception, or a message and what is left.
pub data Decoded : Type 0 where
  incomplete : Decoded
  too_large : Decoded
  decoded : Message → List ℕ → Decoded

unfoldable pub decode_body : List ℕ → FrameHeader → Decoded
decode_body buffer header =
    let frame_size = header_size + header.payload_size in
    if ltb (length buffer) frame_size
    then incomplete
    else decoded
        (record {
          type = header.type;
          flags = header.flags;
          payload = take header.payload_size (drop header_size buffer);
        })
        (drop frame_size buffer)

unfoldable pub try_decode : List ℕ → ℕ → Decoded
try_decode buffer max_payload_size =
    if ltb (length buffer) header_size
    then incomplete
    else elim (decode_header buffer max_payload_size) [
      | none ↦ too_large
      | some header ↦ decode_body buffer header
    ]

-- Texts are given by their bytes.
unfoldable pub make_text_message : List ℕ → Message
make_text_message bytes = record { type = text; flags = 0; payload = bytes }

unfoldable pub payload_as_string : Message → List ℕ
payload_as_string message = message.payload
