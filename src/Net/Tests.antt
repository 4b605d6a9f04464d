-- ===== src/Net/Tests.antt =====
-- Runs of the codec and of the limiter, and the theorems at concrete inputs.
use Prim.Native.Nat.{min}
use red_culture_service.Common.{
  ℕ, ◌-◌, ◌*◌, ◌≤◌, ◌≡◌, refl, List, [], ◌∷◌, ◌++◌, some, arith, length,
}
use red_culture_service.Net.Frames.{
  text, Message, to_u16, of_u16, read_u16_be, read_u32_be, write_u16_be, write_u32_be,
  encode_header, decode_header, encode, incomplete, decoded, decode_body, try_decode,
}
use red_culture_service.Net.FrameLaws.{decode-encode}
use red_culture_service.Net.Streams.{decode_prefix, encode-decode}
use red_culture_service.Net.RateLimiter.{RateLimiter, start, roll, count_event, allow}
use red_culture_service.Net.RateLaws.{granted, granted_in_window, granted-le-twice}

program : Unit {0}
unfolding to_u16 of_u16 read_u16_be read_u32_be write_u16_be write_u32_be encode_header
    decode_header encode decode_body try_decode start roll count_event allow granted
program = tt

abbrev hello : Message
hello = record { type = text; flags = 7; payload = 104 ∷ 105 ∷ [] }

abbrev frame : List ℕ
frame = 0 ∷ 0 ∷ 0 ∷ 2 ∷ 0 ∷ 2 ∷ 0 ∷ 7 ∷ 104 ∷ 105 ∷ []

decode-encode_example : try_decode (frame ++ (9 ∷ [])) 1024 ≡ decoded hello (9 ∷ [])
unfolding program
decode-encode_example =
    decode-encode hello frame (9 ∷ []) 1024 (record { type = tt; flags = omega arith })
      (omega arith) refl

decode_prefix_example : try_decode (0 ∷ 0 ∷ 0 ∷ 2 ∷ 0 ∷ 2 ∷ 0 ∷ 7 ∷ 104 ∷ []) 1024 ≡ incomplete
unfolding program
decode_prefix_example =
    decode_prefix hello frame (0 ∷ 0 ∷ 0 ∷ 2 ∷ 0 ∷ 2 ∷ 0 ∷ 7 ∷ 104 ∷ []) (105 ∷ []) 1024
      (omega arith) refl refl (λ e. cc)

encode-decode_example :
    (bytes : List ℕ) × (encode hello ≡ some bytes) × (bytes ++ (9 ∷ []) ≡ frame ++ (9 ∷ []))
unfolding program
encode-decode_example =
    encode-decode (frame ++ (9 ∷ [])) 1024 hello (9 ∷ []) (omega arith) (omega arith) refl

abbrev limiter : RateLimiter
limiter = record { max_events = 2; window = 1000; used_events = 1; window_started_at = 500 }

granted_in_window_example :
    granted limiter (600 ∷ 700 ∷ 800 ∷ []) ≡ min (length {A = ℕ} (600 ∷ 700 ∷ 800 ∷ [])) (2 - 1)
granted_in_window_example =
    granted_in_window limiter (600 ∷ 700 ∷ 800 ∷ []) (omega arith) (omega arith) (omega arith)

granted-le-twice_example : granted limiter (1400 ∷ 1500 ∷ 1600 ∷ 1700 ∷ []) ≤ 2 * 2
granted-le-twice_example =
    granted-le-twice limiter 1400 (1400 ∷ 1500 ∷ 1600 ∷ 1700 ∷ []) (omega arith) (omega arith)
      (omega arith)

-- Across the end of a window three of the four get through.
three_get_through : granted limiter (1400 ∷ 1500 ∷ 1600 ∷ 1700 ∷ []) ≡ 3
unfolding program
three_get_through = refl
