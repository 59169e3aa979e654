-- ===== src/WebSocket.antt =====
-- WebSocket frames: WebSocketFramer::frame_message of src/modules/network/websocket_framer.h, and the
-- bytes that generate_websocket_frame writes and process_websocket_frame reads in
-- src/modules/network/websocket_client.cpp. The machine is little-endian, so a value that
-- `rte_cpu_to_be_16` swapped has its bytes in network order in memory. A masking key comes from the
-- cycle counter or a random generator and is a parameter.
pub mod Xor
pub mod Framing
pub mod RoundTrip
mod Tests
use dpdk_cex_source.Base.{
  ℕ, zero, suc, ◌+◌, ◌*◌, ◌/◌, ◌%◌, ◌^◌, Bool, true, false, if◌then◌else◌, ltb, leb, ◌==◌, List, [],
  ◌∷◌, ◌++◌, Option, none, some, length, get_or,
}
use dpdk_cex_source.Base.Bytes.{be16, be64, of_be16, of_be64, u64}

-- `x ^ y` of the lowest `n` bits.
unfoldable pub xor_bits : ℕ → ℕ → ℕ → ℕ
xor_bits zero x y = 0
xor_bits (suc n) x y = (x % 2 + y % 2) % 2 + 2 * xor_bits n (x / 2) (y / 2)

pub record MaskKey : Type 0 where
  pub k0 : ℕ
  pub k1 : ℕ
  pub k2 : ℕ
  pub k3 : ℕ

abbrev pub key_bytes : MaskKey → List ℕ
key_bytes k = k.k0 ∷ k.k1 ∷ k.k2 ∷ k.k3 ∷ []

-- `masking_key[i % 4]`
abbrev pub key_at : MaskKey → ℕ → ℕ
key_at k i = get_or (key_bytes k) (i % 4) 0

-- The bytes from the `i`-th on, each with its byte of the key.
unfoldable pub mask_from : MaskKey → ℕ → List ℕ → List ℕ
mask_from k i [] = []
mask_from k i (x ∷ xs) = xor_bits 8 x (key_at k i) ∷ mask_from k (i + 1) xs

abbrev pub mask_bit : Option MaskKey → ℕ
mask_bit none = 0
mask_bit (some k) = 128

abbrev pub length_bytes : ℕ → ℕ → List ℕ
length_bytes bit n =
    if ltb n 126
    then (bit + n) ∷ []
    else if leb n 65535
    then (bit + 126) ∷ be16 n
    else (bit + 127) ∷ be64 n

abbrev pub masked_payload : Option MaskKey → List ℕ → List ℕ
masked_payload none payload = payload
masked_payload (some k) payload = key_bytes k ++ mask_from k 0 payload

abbrev pub header_len : Option MaskKey → ℕ → ℕ
header_len key n =
    2
    + (if ltb n 126 then 0 else if leb n 65535 then 2 else 8)
    + (elim key [ none ↦ 0 | some k ↦ 4 ])

-- The bytes written to the buffer, whose number is the result; none for the result 0.
unfoldable pub frame_message : ℕ → List ℕ → ℕ → Option MaskKey → Option (List ℕ)
frame_message buffer_len payload opcode key =
    let n = length payload in
    if ltb buffer_len (header_len key n + n)
    then none
    else some ((128 + opcode % 16) ∷ length_bytes (mask_bit key) n ++ masked_payload key payload)

-- The length bytes of generate_websocket_frame: the swapped value is pushed from its high byte.
abbrev pub swap16 : ℕ → ℕ
swap16 n = n % 2 ^ 8 * 2 ^ 8 + n / 2 ^ 8 % 2 ^ 8

abbrev pub swap64 : ℕ → ℕ
swap64 n =
    of_be64 (n % 2 ^ 8) (n / 2 ^ 8 % 2 ^ 8) (n / 2 ^ 16 % 2 ^ 8) (n / 2 ^ 24 % 2 ^ 8)
      (n / 2 ^ 32 % 2 ^ 8) (n / 2 ^ 40 % 2 ^ 8) (n / 2 ^ 48 % 2 ^ 8) (n / 2 ^ 56 % 2 ^ 8)

abbrev pub client_length_bytes : ℕ → List ℕ
client_length_bytes n =
    if leb n 125
    then (128 + n) ∷ []
    else if leb n 0xFFFF
    then (128 + 126) ∷ be16 (swap16 n)
    else (128 + 127) ∷ be64 (swap64 n)

-- `frame_data` of generate_websocket_frame.
unfoldable pub client_frame : List ℕ → ℕ → Bool → MaskKey → List ℕ
client_frame payload opcode fin k =
    ((if fin then 128 else 0) + opcode % 16) ∷ client_length_bytes (length payload)
    ++ (key_bytes k ++ mask_from k 0 payload)

pub record Frame : Type 0 where
  pub fin : Bool
  pub opcode : ℕ
  pub payload : List ℕ

-- The `n` bytes from `i` on; a read past the end gives 0.
unfoldable pub bytes_at : List ℕ → ℕ → ℕ → List ℕ
bytes_at data' i zero = []
bytes_at data' i (suc n) = get_or data' i 0 ∷ bytes_at data' (i + 1) n

-- The header of process_websocket_frame: where the payload length ends, and the length.
abbrev pub read_length : List ℕ → Option (ℕ × ℕ)
read_length data' =
    let at = λ (i : ℕ). get_or data' i 0 in
    let payload_len_byte = at 1 % 128 in
    if leb payload_len_byte 125
    then some (2, payload_len_byte)
    else if payload_len_byte == 126
    then if ltb (length data') 4 then none else some (4, of_be16 (at 2) (at 3))
    else if ltb (length data') 10
    then none
    else some (10, of_be64 (at 2) (at 3) (at 4) (at 5) (at 6) (at 7) (at 8) (at 9))

abbrev pub key_from : List ℕ → ℕ → MaskKey
key_from data' i = record {
  k0 = get_or data' i 0;
  k1 = get_or data' (i + 1) 0;
  k2 = get_or data' (i + 2) 0;
  k3 = get_or data' (i + 3) 0;
}

-- From the offset behind the length on; the sum of the test is a 64-bit one.
abbrev pub read_payload : List ℕ → ℕ → ℕ → Option (List ℕ)
read_payload data' offset payload_len =
    if get_or data' 1 0 / 128 % 2 == 1
    then if ltb (length data') (u64 (offset + 4 + payload_len))
      then none
      else some (mask_from (key_from data' offset) 0 (bytes_at data' (offset + 4) payload_len))
    else if ltb (length data') (u64 (offset + payload_len))
    then none
    else some (bytes_at data' offset payload_len)

-- The frame that process_websocket_frame finds at the start of the data; `none` where it returns.
unfoldable pub parse_frame : List ℕ → Option Frame
parse_frame data' = if ltb (length data') 2 then none else elim (read_length data') [
  | none ↦ none
  | some r ↦ elim (read_payload data' r.0 r.1) [
    | none ↦ none
    | some payload ↦ some (record {
      fin = get_or data' 0 0 / 128 % 2 == 1;
      opcode = get_or data' 0 0 % 16;
      payload = payload;
    })
  ]
]
