-- ===== src/WebSocket/RoundTrip.antt =====
-- The frames of the framer and of the client, read back.
use mathlib.Core.Path.{ap₂}
use dpdk_cex_source.Base.{
  ltb→lt, ltb-false→le, ℕ, ◌+◌, ◌/◌, ◌%◌, ◌^◌, ◌≤◌, ◌<◌, ◌≡◌, refl, ◌∙◌, Bool, true, false,
  if◌then◌else◌, ltb, ◌==◌, List, ◌∷◌, ◌++◌, Option, none, some, length, get_or, arith, ◌⊎◌, inl,
  inr, Bool-cases, length-append,
}
use dpdk_cex_source.Base.Bytes.{be16, of_be16-be16}
use dpdk_cex_source.WebSocket.{
  MaskKey, key_bytes, mask_from, mask_bit, length_bytes, masked_payload, header_len, frame_message,
  swap16, client_frame, client_length_bytes, Frame, read_length, read_payload, parse_frame,
}
use dpdk_cex_source.WebSocket.Xor.{IsBytes, length-mask_from}
use dpdk_cex_source.WebSocket.Framing.{read_length_frame, read_payload_plain, read_payload_masked}

unmasked_bit :
    (b0 n : ℕ) (rest : List ℕ) → (get_or (b0 ∷ length_bytes 0 n ++ rest) 1 0 / 128 % 2 == 1) ≡ false
unmasked_bit b0 n rest = ground arith

masked_bit :
    (b0 n : ℕ) (rest : List ℕ)
    → (get_or (b0 ∷ length_bytes 128 n ++ rest) 1 0 / 128 % 2 == 1) ≡ true
masked_bit b0 n rest = ground arith

two_bytes :
    (b0 bit n : ℕ) (rest : List ℕ) → ltb (length (b0 ∷ length_bytes bit n ++ rest)) 2 ≡ false
two_bytes b0 bit n rest = ground arith

parse_found :
    (data' : List ℕ) (off n : ℕ) (payload : List ℕ)
    → ltb (length data') 2 ≡ false
    → read_length data' ≡ some (off, n)
    → read_payload data' off n ≡ some payload
    → parse_frame data'
      ≡ some (record {
        fin = get_or data' 0 0 / 128 % 2 == 1;
        opcode = get_or data' 0 0 % 16;
        payload = payload;
      })
unfolding parse_frame
parse_found data' off n payload a b c = rw (a, b) (rw c refl)

header_size : (b0 bit n : ℕ) → length (b0 ∷ length_bytes bit n) ≤ 10
header_size b0 bit n = ground arith

parse_plain :
    (b0 : ℕ) (payload : List ℕ)
    → 14 + length payload < 2 ^ 64
    → parse_frame (b0 ∷ length_bytes 0 (length payload) ++ payload)
      ≡ some (record { fin = b0 / 128 % 2 == 1; opcode = b0 % 16; payload = payload })
parse_plain b0 payload fits =
    let n = length payload in
    parse_found (b0 ∷ length_bytes 0 n ++ payload) (length (b0 ∷ length_bytes 0 n)) n payload
      (two_bytes b0 0 n payload) (read_length_frame b0 0 n payload refl (omega arith))
      (read_payload_plain (b0 ∷ length_bytes 0 n) payload (unmasked_bit b0 n payload)
        (omega (arith, header_size b0 0 n)))

parse_masked :
    (b0 : ℕ) (payload : List ℕ) (k : MaskKey)
    → IsBytes payload
    → 14 + length payload < 2 ^ 64
    → parse_frame (b0 ∷ length_bytes 128 (length payload) ++ (key_bytes k ++ mask_from k 0 payload))
      ≡ some (record { fin = b0 / 128 % 2 == 1; opcode = b0 % 16; payload = payload })
parse_masked b0 payload k bs fits =
    let n = length payload in
    let rest = key_bytes k ++ mask_from k 0 payload in
    parse_found (b0 ∷ length_bytes 128 n ++ rest) (length (b0 ∷ length_bytes 128 n)) n payload
      (two_bytes b0 128 n rest) (read_length_frame b0 128 n rest refl (omega arith))
      (read_payload_masked (b0 ∷ length_bytes 128 n) payload k bs (masked_bit b0 n rest)
        (omega (arith, header_size b0 128 n)))

first_byte : (o : ℕ) → ((128 + o % 16) / 128 % 2 == 1) ≡ true
first_byte o = ground arith

opcode_bits : (o : ℕ) → (128 + o % 16) % 16 ≡ o % 16
opcode_bits o = omega arith

abbrev frame_of : List ℕ → Bool → ℕ → Option Frame
frame_of payload fin opcode = some (record { fin = fin; opcode = opcode; payload = payload })

-- The bytes of a message that fits the buffer.
message : List ℕ → ℕ → Option MaskKey → List ℕ
message payload opcode key =
    (128 + opcode % 16) ∷ length_bytes (mask_bit key) (length payload) ++ masked_payload key payload

parse-message :
    (payload : List ℕ) (opcode : ℕ) (key : Option MaskKey)
    → IsBytes payload
    → 14 + length payload < 2 ^ 64
    → parse_frame (message payload opcode key)
      ≡ some (record { fin = true; opcode = opcode % 16; payload = payload })
unfolding message
parse-message payload opcode none bs fits =
    parse_plain (128 + opcode % 16) payload fits
    ∙ ap₂ (frame_of payload) (first_byte opcode) (opcode_bits opcode)
parse-message payload opcode (some k) bs fits =
    parse_masked (128 + opcode % 16) payload k bs fits
    ∙ ap₂ (frame_of payload) (first_byte opcode) (opcode_bits opcode)

length-message :
    (payload : List ℕ) (opcode : ℕ) (key : Option MaskKey)
    → length (message payload opcode key) ≡ header_len key (length payload) + length payload
unfolding message
length-message payload opcode none =
    ground (arith, length-append (length_bytes 0 (length payload)) payload)
length-message payload opcode (some k) = ground (
  arith,
  length-append (length_bytes 128 (length payload)) (key_bytes k ++ mask_from k 0 payload),
  length-append (key_bytes k) (mask_from k 0 payload),
  length-mask_from k 0 payload,
)

-- The framer refuses exactly the messages that do not fit the buffer with their header. Any other is
-- written in as many bytes as its result says, and the client reads back the whole payload, a
-- final frame and the lowest four bits of the opcode, masked or not, at every size.
pub parse_frame-frame_message :
    (buffer_len : ℕ) (payload : List ℕ) (opcode : ℕ) (key : Option MaskKey)
    → IsBytes payload
    → 14 + length payload < 2 ^ 64
    → let need = header_len key (length payload) + length payload in
      ((buffer_len < need) × (frame_message buffer_len payload opcode key ≡ none))
      ⊎ ((frame : List ℕ) × (frame_message buffer_len payload opcode key ≡ some frame)
          × (length frame ≡ need)
          × (need ≤ buffer_len)
          × (parse_frame frame
              ≡ some (record { fin = true; opcode = opcode % 16; payload = payload })))
unfolding frame_message message
parse_frame-frame_message buffer_len payload opcode key bs fits =
    elim (Bool-cases (ltb buffer_len (header_len key (length payload) + length payload))) [
      | inl small ↦ inl (
        ltb→lt buffer_len (header_len key (length payload) + length payload) small,
        rw small refl,
      )
      | inr large ↦ inr (
        message payload opcode key,
        rw large refl,
        length-message payload opcode key,
        ltb-false→le buffer_len (header_len key (length payload) + length payload) large,
        parse-message payload opcode key bs fits,
      )
    ]

fin_bit : (fin : Bool) (o : ℕ) → (((if fin then 128 else 0) + o % 16) / 128 % 2 == 1) ≡ fin
fin_bit true o = ground arith
fin_bit false o = ground arith

fin_opcode : (fin : Bool) (o : ℕ) → ((if fin then 128 else 0) + o % 16) % 16 ≡ o % 16
fin_opcode true o = omega arith
fin_opcode false o = omega arith

short_length : (n : ℕ) → n ≤ 125 → client_length_bytes n ≡ length_bytes 128 n
short_length n h = ground arith

-- The client's own frames are read back if the payload is at most 125 bytes long.
pub parse_frame-client_frame :
    (payload : List ℕ) (opcode : ℕ) (fin : Bool) (k : MaskKey)
    → IsBytes payload
    → length payload ≤ 125
    → parse_frame (client_frame payload opcode fin k)
      ≡ some (record { fin = fin; opcode = opcode % 16; payload = payload })
unfolding client_frame
parse_frame-client_frame payload opcode fin k bs short = rw (short_length (length payload) short) (
    parse_masked ((if fin then 128 else 0) + opcode % 16) payload k bs (omega arith)
    ∙ ap₂ (frame_of payload) (fin_bit fin opcode) (fin_opcode fin opcode))

long_length : (n : ℕ) → 125 < n → n ≤ 65535 → client_length_bytes n ≡ (128 + 126) ∷ be16 (swap16 n)
long_length n h k = ground arith

swap16_grows : (n : ℕ) → n ≤ 65535 → n / 2 ^ 8 < n % 2 ^ 8 → n < swap16 n
swap16_grows n h k = omega arith

swap16_fits : (n : ℕ) → swap16 n < 2 ^ 16
swap16_fits n = omega arith

parse_frame_short :
    (b0 s : ℕ) (rest : List ℕ)
    → s < 2 ^ 16
    → length rest < 4 + s
    → parse_frame (b0 ∷ (128 + 126) ∷ be16 s ++ rest) ≡ none
unfolding parse_frame
parse_frame_short b0 s rest h k = ground (arith, of_be16-be16 s h)

-- The length of a longer payload, up to 65535 bytes, is written with its two bytes swapped: if its low
-- byte is the greater one, the reader waits for bytes that never come.
pub client_frame_unreadable :
    (payload : List ℕ) (opcode : ℕ) (fin : Bool) (k : MaskKey)
    → 125 < length payload
    → length payload ≤ 65535
    → length payload / 2 ^ 8 < length payload % 2 ^ 8
    → parse_frame (client_frame payload opcode fin k) ≡ none
unfolding client_frame
client_frame_unreadable payload opcode fin k long small swapped =
    let n = length payload in
    rw (long_length n long small) (
      parse_frame_short ((if fin then 128 else 0) + opcode % 16) (swap16 n)
        (key_bytes k ++ mask_from k 0 payload) (swap16_fits n)
        (omega (arith, swap16_grows n small swapped, length-mask_from k 0 payload)))
