-- ===== src/Upgrade.antt =====
-- WebSocketClient::handle_tcp_data and handle_tls_data of src/modules/network/websocket_client.cpp: the
-- answer to the upgrade request, and frames that come over TLS. The class calls neither of the two.
-- SHA1 and the base-64 BIO of OpenSSL are parameters.
pub mod Accept
mod Tests
use dpdk_cex_source.Base.{
  ◌≡◌, ◌≢◌, ℕ, zero, suc, Bool, true, false, ◌&&◌, if◌then◌else◌, List, [], ◌∷◌, ◌++◌, Option, none,
  some, length, drop, bytes_eq,
}
use dpdk_cex_source.Base.Text.{bytes}
use dpdk_cex_source.Packet.{Mbuf}
use dpdk_cex_source.MicroTcp.{Dpdk}
use dpdk_cex_source.Json.{Dom, Numbers}
use dpdk_cex_source.OrderBook.Manager.{OrderBookManager}
use dpdk_cex_source.Subscriptions.{WsState, ws_disconnected, ws_connected}
use dpdk_cex_source.TlsSocket.{
  OpenSsl, Returned, count, none_yet, failed, Pending, encrypted, drained, read_error, decrypt,
  read_encrypted, write_encrypted, is_handshake_complete,
}
use dpdk_cex_source.Handshake.{WsClient, pushed, crlf, send_tcp}
use dpdk_cex_source.Messages.{Receiver, process_websocket_frame}

abbrev pub is_prefix : List ℕ → List ℕ → Bool
is_prefix [] s = true
is_prefix (p ∷ ps) [] = false
is_prefix (p ∷ ps) (c ∷ s) = bytes_eq (p ∷ []) (c ∷ []) && is_prefix ps s

-- `s.find(text)`, as what begins there.
unfoldable pub find : List ℕ → List ℕ → Option (List ℕ)
find text [] = if is_prefix text [] then some [] else none
find text (c ∷ s) =
    let later = find text s in if is_prefix text (c ∷ s) then some (c ∷ s) else later

-- The bytes before the first `text`, all of them if there is none.
unfoldable pub before : List ℕ → List ℕ → List ℕ
before text [] = []
before text (c ∷ s) = let later = before text s in if is_prefix text (c ∷ s) then [] else c ∷ later

abbrev pub is_found : Option (List ℕ) → Bool
is_found none = false
is_found (some s) = true

abbrev pub guid : List ℕ
guid = bytes "258EAFA5-E914-47DA-95CA-C5AB0DC85B11"

abbrev pub accept_header : List ℕ
accept_header = bytes "Sec-WebSocket-Accept: "

-- Of OpenSSL: SHA1, and what is in a memory BIO after one BIO_write through a BIO_f_base64, with no
-- flag set, and a BIO_flush.
pub record Crypto : Type 0 where
  pub sha1 : List ℕ → List ℕ
  pub bio_base64 : List ℕ → List ℕ

-- What OpenSSL documents: a hash has SHA_DIGEST_LENGTH = 20 bytes, and without BIO_FLAGS_BASE64_NO_NL
-- the encoder ends what it has put out with a newline.
pub record IsOpenSsl (crypto : Crypto) : Type 0 where
  pub length-sha1 : (input : List ℕ) → length (crypto.sha1 input) ≡ 20
  pub base64_line :
      (bs : List ℕ) → length bs ≢ 0 → (text : List ℕ) × (crypto.bio_base64 bs ≡ text ++ (10 ∷ []))

unfoldable pub sha1_base64 : Crypto → List ℕ → List ℕ
sha1_base64 crypto input = crypto.bio_base64 (crypto.sha1 input)

-- `key_bytes` are the eight bytes of the random number.
unfoldable pub generate_websocket_key : Crypto → List ℕ → List ℕ
unfolding sha1_base64
generate_websocket_key crypto key_bytes = sha1_base64 crypto key_bytes

module _ (crypto : Crypto) where
  -- The comparison of the hashes, from the header on.
  abbrev pub compared : List ℕ → Option (List ℕ) → WsState
  compared ws_key none = ws_disconnected
  compared ws_key (some header) =
      if bytes_eq (before crlf (drop (length accept_header) header))
        (sha1_base64 crypto (ws_key ++ guid))
      then ws_connected
      else ws_disconnected

  -- The state behind an HTTP answer.
  unfoldable pub answered : List ℕ → List ℕ → WsState
  unfolding find before
  answered ws_key http_response =
      if is_found (find (bytes "101 Switching Protocols") http_response)
        && is_found (find (bytes "Sec-WebSocket-Accept:") http_response)
      then compared ws_key (find accept_header http_response)
      else ws_disconnected

-- The client with its books and the messages that the callback has received.
pub record Session (T Q : Type 0) : Type 0 where
  pub client : WsClient T
  pub order_book_manager : OrderBookManager Q
  pub delivered : List (List ℕ)

module _ {T E Q : Type 0} (d : Dpdk) (o : OpenSsl T) (dom : Dom E) (numbers : Numbers Q)
    (le_zero : Q → Bool) (crypto : Crypto) where
  -- `true` says that an exception leaves the method.
  abbrev pub Handled : Type 0
  Handled = Bool × (Session T Q × List (Option Mbuf))

  abbrev pub with_frame : Session T Q → Bool × Receiver Q → Bool × Session T Q
  with_frame s (threw, r) = (
    threw,
    record s {
      client = record s.client { state = r.state };
      order_book_manager = r.order_book_manager;
      delivered = r.delivered;
    },
  )

  -- The decrypted data: the answer to the request, or a frame.
  unfoldable pub on_decrypted : Session T Q → List ℕ → Bool × Session T Q
  unfolding answered process_websocket_frame
  on_decrypted s decrypted_data =
      if is_handshake_complete o s.client.tls_socket
      then with_frame s (
          process_websocket_frame dom numbers le_zero
            (record {
              state = s.client.state;
              order_book_manager = s.order_book_manager;
              delivered = s.delivered;
            })
            decrypted_data)
      else (
        false,
        record s {
          client = record s.client { state = answered crypto s.client.ws_key decrypted_data };
        },
      )

  -- The packet with the output of TLS, if there is some.
  abbrev pub send_pending : Session T Q → T × Pending → Session T Q × List (Option Mbuf)
  send_pending s (t, encrypted bs) =
      let (c, sent) = send_tcp d (record s.client { tls_socket = t }) bs in
      (record s { client = c }, sent)
  send_pending s (t, drained) = (record s { client = record s.client { tls_socket = t } }, [])
  send_pending s (t, read_error) = (record s { client = record s.client { tls_socket = t } }, [])

  abbrev pub then_send : Bool × Session T Q → Handled
  then_send (true, s) = (true, (s, []))
  then_send (false, s) = (false, send_pending s (read_encrypted o s.client.tls_socket))

  abbrev pub if_decrypted : Session T Q → Returned → List ℕ → Bool × Session T Q
  if_decrypted s (count n) data' = on_decrypted s data'
  if_decrypted s none_yet data' = (false, s)
  if_decrypted s failed data' = (false, s)

  unfoldable pub handle_tls_data : Session T Q → List ℕ → Handled
  unfolding on_decrypted
  handle_tls_data s tls_payload =
      let ((t, r), decrypted_data) = decrypt o s.client.tls_socket tls_payload [] in
      then_send
        (if_decrypted (record s { client = record s.client { tls_socket = t } }) r decrypted_data)

  unfoldable pub handle_tcp_data : Session T Q → List ℕ → Handled
  unfolding handle_tls_data
  handle_tcp_data s [] = (false, (s, []))
  handle_tcp_data s (x ∷ xs) =
      handle_tls_data
        (record s {
          client = record s.client {
            tls_socket = (write_encrypted o s.client.tls_socket (x ∷ xs)).0;
          };
        })
        []
