-- ===== src/WebSocket/Tests.antt =====
-- Runs of the framer and of the client's frames on concrete payloads.
use dpdk_cex_source.Base.{
  ℕ, ◌+◌, ◌<◌, ◌≤◌, ◌≡◌, true, List, [], ◌∷◌, none, some, length, replicate, arith, ◌⊎◌,
}
use dpdk_cex_source.WebSocket.{MaskKey, header_len, frame_message, client_frame, parse_frame}
use dpdk_cex_source.WebSocket.Xor.{IsBytes}
use dpdk_cex_source.WebSocket.RoundTrip.{parse_frame-frame_message, client_frame_unreadable}

abbrev key : MaskKey
key = record { k0 = 0x11; k1 = 0x22; k2 = 0x33; k3 = 0x44 }

abbrev hello : List ℕ
hello = 104 ∷ 105 ∷ []

hello-IsBytes : IsBytes hello
hello-IsBytes = (omega arith, (omega arith, tt))

parse_frame-frame_message_example :
    ((64 < header_len (some key) (length hello) + length hello)
      × (frame_message 64 hello 1 (some key) ≡ none))
    ⊎ ((frame : List ℕ) × (frame_message 64 hello 1 (some key) ≡ some frame)
        × (length frame ≡ header_len (some key) (length hello) + length hello)
        × (header_len (some key) (length hello) + length hello ≤ 64)
        × (parse_frame frame ≡ some (record { fin = true; opcode = 1; payload = hello })))
parse_frame-frame_message_example =
    parse_frame-frame_message 64 hello 1 (some key) hello-IsBytes (omega arith)

-- 200 bytes: the length is written as 51200.
abbrev subscription : List ℕ
subscription = replicate 200 120

client_frame_unreadable_example : parse_frame (client_frame subscription 1 true key) ≡ none
client_frame_unreadable_example =
    client_frame_unreadable subscription 1 true key (omega arith) (omega arith) (omega arith)
