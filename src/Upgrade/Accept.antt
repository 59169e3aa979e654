-- ===== src/Upgrade/Accept.antt =====
-- What WebSocketClient of src/modules/network/websocket_client.cpp makes of the answer to its upgrade
-- request, and that data handed to handle_tcp_data are never decrypted.
use dpdk_cex_source.Base.{
  ◌&&◌, Bool-cases, inl, inr, arith, ℕ, ◌≡◌, ◌↔◌, refl, sym, ap, ◌∙◌, Bool, true, false, ◌==◌,
  if◌then◌else◌, List, [], ◌∷◌, ◌++◌, none, some, All, drop-length_append, bytes_eq, bytes_eq→eq,
  bytes_eq_refl,
}
use dpdk_cex_source.Base.Text.{bytes}
use dpdk_cex_source.MicroTcp.{Dpdk}
use dpdk_cex_source.Json.{Dom, Numbers}
use dpdk_cex_source.Subscriptions.{WsState, ws_disconnected, ws_connected}
use dpdk_cex_source.TlsSocket.{
  OpenSsl, Pending, encrypted, drained, read_error, decrypt, read_encrypted, write_encrypted,
}
use dpdk_cex_source.Handshake.{crlf, send_tcp}
use dpdk_cex_source.Upgrade.{
  Crypto, IsOpenSsl, sha1_base64, generate_websocket_key, find, before, is_found, guid,
  accept_header, compared, answered, Session, send_pending, handle_tls_data, handle_tcp_data,
}

-- A line ends at the first carriage return and line feed.
before-crlf :
    (line rest : List ℕ)
    → All (λ c. (13 == c) ≡ false) line
    → before crlf (line ++ (crlf ++ rest)) ≡ line
unfolding before
before-crlf [] rest h = refl
before-crlf (c ∷ line) rest h = rw (h.0, before-crlf line rest h.1) refl

if-connected : (b : Bool) → (if b then ws_connected else ws_disconnected) ≡ ws_connected → b ≡ true
if-connected true e = refl
if-connected false e = cc

module _ (crypto : Crypto) where
  compared_iff :
      (ws_key hash rest : List ℕ)
      → All (λ c. (13 == c) ≡ false) hash
      → (compared crypto ws_key (some (accept_header ++ (hash ++ (crlf ++ rest)))) ≡ (
          if bytes_eq hash (sha1_base64 crypto (ws_key ++ guid))
          then ws_connected
          else ws_disconnected))
  compared_iff ws_key hash rest h =
      ap
        (λ (received : List ℕ).
          if bytes_eq received (sha1_base64 crypto (ws_key ++ guid))
          then ws_connected
          else ws_disconnected)
        (ap (before crlf) (drop-length_append accept_header (hash ++ (crlf ++ rest)))
          ∙ before-crlf hash rest h)

  answered-compared :
      (ws_key http_response header : List ℕ)
      → is_found (find (bytes "101 Switching Protocols") http_response) ≡ true
      → is_found (find (bytes "Sec-WebSocket-Accept:") http_response) ≡ true
      → find accept_header http_response ≡ some header
      → answered crypto ws_key http_response ≡ compared crypto ws_key (some header)
  unfolding answered
  answered-compared ws_key http_response header switching named e = rw (switching, named, e) refl

  -- An answer that switches protocols and has the accept header is taken for the right one exactly
  -- if the header's value, up to the end of its line, is the hash of the client's key with the GUID
  -- of WebSocket. The value must hold no carriage return.
  answered_iff :
      (ws_key http_response hash rest : List ℕ)
      → All (λ c. (13 == c) ≡ false) hash
      → is_found (find (bytes "101 Switching Protocols") http_response) ≡ true
      → is_found (find (bytes "Sec-WebSocket-Accept:") http_response) ≡ true
      → find accept_header http_response ≡ some (accept_header ++ (hash ++ (crlf ++ rest)))
      → (answered crypto ws_key http_response ≡ ws_connected)
        ↔ (hash ≡ sha1_base64 crypto (ws_key ++ guid))
  answered_iff ws_key http_response hash rest h switching named e =
      let same =
        answered-compared ws_key http_response _ switching named e
        ∙ compared_iff ws_key hash rest h in
      (
        λ k.
            bytes_eq→eq hash (sha1_base64 crypto (ws_key ++ guid))
              (if-connected (bytes_eq hash (sha1_base64 crypto (ws_key ++ guid))) (sym same ∙ k)),
        λ k.
            same
            ∙ ap (λ (b : Bool). if b then ws_connected else ws_disconnected)
                (ap (bytes_eq hash) (sym k) ∙ bytes_eq_refl hash),
      )

  -- The last byte of a text that a newline ends.
  ends_line :
      (text line : List ℕ) → line ≡ text ++ (10 ∷ []) → All (λ c. (10 == c) ≡ false) line → ⊥
  ends_line [] [] e h = cc
  ends_line [] (c ∷ line) e h = ground (arith, e, h.0)
  ends_line (t ∷ text) [] e h = cc
  ends_line (t ∷ text) (c ∷ line) e h = ends_line text line (cons_tail e) h.1
    where
      cons_tail : (c ∷ line) ≡ (t ∷ (text ++ (10 ∷ []))) → line ≡ text ++ (10 ∷ [])
      cons_tail q = cc

  sha1_base64_line :
      (input : List ℕ)
      → IsOpenSsl crypto
      → (text : List ℕ) × (sha1_base64 crypto input ≡ text ++ (10 ∷ []))
  unfolding sha1_base64
  sha1_base64_line input v =
      v.base64_line (crypto.sha1 input) (λ z. ground (arith, v.length-sha1 input, z))

  refused :
      (ws_key hash : List ℕ)
      → IsOpenSsl crypto
      → All (λ c. (10 == c) ≡ false) hash
      → bytes_eq hash (sha1_base64 crypto (ws_key ++ guid)) ≡ false
  refused ws_key hash v no_line =
      let (text, line) = sha1_base64_line (ws_key ++ guid) v in
      elim (Bool-cases (bytes_eq hash (sha1_base64 crypto (ws_key ++ guid)))) [
        | inl same ↦ absurd (ends_line text hash (bytes_eq→eq hash _ same ∙ line) no_line)
        | inr other ↦ other
      ]

  -- No answer whose accept header is one line opens the connection, not even one with the right hash:
  -- sha1_base64 ends its text with a newline, and no value of a header line, up to the carriage
  -- return and line feed that end it, holds one. The value must hold neither of the two characters,
  -- and OpenSSL's encoder must end a line as documented. The key that the client makes for itself
  -- ends with a newline too.
  pub answered-refuses :
      (ws_key http_response hash rest key_bytes : List ℕ)
      → IsOpenSsl crypto
      → All (λ c. (13 == c) ≡ false) hash
      → All (λ c. (10 == c) ≡ false) hash
      → find accept_header http_response ≡ some (accept_header ++ (hash ++ (crlf ++ rest)))
      → (answered crypto ws_key http_response ≡ ws_disconnected)
        × ((text : List ℕ) × (generate_websocket_key crypto key_bytes ≡ text ++ (10 ∷ [])))
  unfolding answered generate_websocket_key
  answered-refuses ws_key http_response hash rest key_bytes v no_return no_line e = (
    rw e (
        either
          (is_found (find (bytes "101 Switching Protocols") http_response)
            && is_found (find (bytes "Sec-WebSocket-Accept:") http_response))
          (compared_iff ws_key hash rest no_return
            ∙ ap (λ (b : Bool). if b then ws_connected else ws_disconnected)
                (refused ws_key hash v no_line))),
    sha1_base64_line key_bytes v,
  )
    where
      either :
          (b : Bool) {s : WsState}
          → s ≡ ws_disconnected
          → (if b then s else ws_disconnected) ≡ ws_disconnected
      either true h = h
      either false h = refl

module _ {T E Q : Type 0} (d : Dpdk) (o : OpenSsl T) (dom : Dom E) (numbers : Numbers Q)
    (le_zero : Q → Bool) (crypto : Crypto) where
  -- The state, the books and what was delivered are those of before.
  record IsIdle (s s' : Session T Q) : Type 0 where
    same_state : s'.client.state ≡ s.client.state
    same_books : s'.order_book_manager ≡ s.order_book_manager
    same_delivered : s'.delivered ≡ s.delivered

  send_pending-IsIdle :
      (s : Session T Q) (p : T × Pending)
      → IsIdle s (send_pending d o dom numbers le_zero crypto s p).0
  unfolding send_tcp
  send_pending-IsIdle s (t, encrypted bs) = record {
    same_state = refl;
    same_books = refl;
    same_delivered = refl;
  }
  send_pending-IsIdle s (t, drained) = record {
    same_state = refl;
    same_books = refl;
    same_delivered = refl;
  }
  send_pending-IsIdle s (t, read_error) = record {
    same_state = refl;
    same_books = refl;
    same_delivered = refl;
  }

  handle_tls_data-empty :
      (s : Session T Q)
      → o.bio_write s.client.tls_socket [] ≡ (s.client.tls_socket, none)
      → handle_tls_data d o dom numbers le_zero crypto s [] ≡ (
        false,
        send_pending d o dom numbers le_zero crypto s (read_encrypted o s.client.tls_socket),
      )
  unfolding handle_tls_data decrypt
  handle_tls_data-empty s e = rw e refl

  handle_tcp_data-idle :
      (s : Session T Q) (tcp_payload : List ℕ)
      → ((t : T) → o.bio_write t [] ≡ (t, none))
      → let (threw, r) = handle_tcp_data d o dom numbers le_zero crypto s tcp_payload in
        (threw ≡ false)
        × (r.0.client.state ≡ s.client.state)
        × (r.0.order_book_manager ≡ s.order_book_manager)
        × (r.0.delivered ≡ s.delivered)
  unfolding handle_tcp_data
  handle_tcp_data-idle s [] h = (refl, refl, refl, refl)
  handle_tcp_data-idle s (x ∷ xs) h =
      let s' = record s {
        client = record s.client {
          tls_socket = (write_encrypted o s.client.tls_socket (x ∷ xs)).0;
        };
      } in
      let v = send_pending-IsIdle s' (read_encrypted o s'.client.tls_socket) in
      rw (handle_tls_data-empty s' (h s'.client.tls_socket))
        (refl, v.same_state, v.same_books, v.same_delivered)
