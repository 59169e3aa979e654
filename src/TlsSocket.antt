-- ===== src/TlsSocket.antt =====
-- src/modules/network/tls_socket.h and tls_socket.cpp, class TlsSocket: TLS between two memory BIOs.
-- OpenSSL is a parameter: a value of `T` is the SSL object with its two BIOs. The contexts and keys
-- that the constructor makes are part of it, and the error texts leave no trace.
pub mod Laws
use dpdk_cex_source.Base.{ℕ, Bool, if◌then◌else◌, ltb, List, [], Option, none, some, length, take}

-- What a call returned: a positive number, or another, with what SSL_get_error tells of it.
pub data SslReturn : Type 0 where
  positive : ℕ → SslReturn
  wants_io other_error : SslReturn

-- What TlsSocket calls; a result `none` of a BIO is a return value that is not positive.
pub record OpenSsl (T : Type 0) : Type 0 where
  pub ssl_set_tlsext_host_name : T → List ℕ → T
  pub ssl_set1_host : T → List ℕ → T
  pub ssl_do_handshake : T → T × SslReturn
  pub ssl_is_init_finished : T → Bool
  pub ssl_write : T → List ℕ → T × SslReturn
  -- The number of bytes asked for; the bytes that are in the buffer afterwards.
  pub ssl_read : T → ℕ → (T × SslReturn) × List ℕ
  -- BIO_pending and BIO_read of wbio_, BIO_write of rbio_
  pub bio_pending : T → ℕ
  pub bio_read : T → ℕ → T × Option (List ℕ)
  pub bio_write : T → List ℕ → T × Option ℕ

-- The return values 1, 0 and -1 of do_handshake.
pub data HandshakeStatus : Type 0 where
  complete needs_io handshake_error : HandshakeStatus

-- The return values of encrypt and decrypt: a positive number, 0 and -1.
pub data Returned : Type 0 where
  count : ℕ → Returned
  none_yet failed : Returned

-- The return values of read_encrypted, the positive one with `out_data`.
pub data Pending : Type 0 where
  encrypted : List ℕ → Pending
  drained read_error : Pending

abbrev pub handshake_status : SslReturn → HandshakeStatus
handshake_status (positive n) = complete
handshake_status wants_io = needs_io
handshake_status other_error = handshake_error

abbrev pub returned : SslReturn → Returned
returned (positive n) = count n
returned wants_io = none_yet
returned other_error = failed

-- `out_data` of decrypt when SSL_read returned: it has the `in_len` bytes of the buffer before.
abbrev pub decrypted : SslReturn → ℕ → List ℕ → List ℕ
decrypted (positive n) in_len buffer = take n buffer
decrypted wants_io in_len buffer = []
decrypted other_error in_len buffer = buffer

module _ {T : Type 0} (o : OpenSsl T) where
  unfoldable pub set_hostname : T → List ℕ → T
  set_hostname t hostname = o.ssl_set1_host (o.ssl_set_tlsext_host_name t hostname) hostname

  unfoldable pub do_handshake : T → T × HandshakeStatus
  do_handshake t = let (t', r) = o.ssl_do_handshake t in (t', handshake_status r)

  -- The result, and `out_data`.
  unfoldable pub encrypt : T → List ℕ → List ℕ → (T × Returned) × List ℕ
  encrypt t in_data out_data =
      if o.ssl_is_init_finished t
      then (let (t', r) = o.ssl_write t in_data in ((t', returned r), out_data))
      else ((t, failed), out_data)

  abbrev pub read_decrypted : T → ℕ → (T × Returned) × List ℕ
  read_decrypted t in_len =
      let ((t', r), buffer) = o.ssl_read t in_len in ((t', returned r), decrypted r in_len buffer)

  abbrev pub decrypt_written : T × Option ℕ → ℕ → List ℕ → (T × Returned) × List ℕ
  decrypt_written (t, none) in_len out_data = ((t, failed), out_data)
  decrypt_written (t, some n) in_len out_data = read_decrypted t in_len

  unfoldable pub decrypt : T → List ℕ → List ℕ → (T × Returned) × List ℕ
  decrypt t in_data out_data = decrypt_written (o.bio_write t in_data) (length in_data) out_data

  abbrev pub pending_read : T × Option (List ℕ) → T × Pending
  pending_read (t, none) = (t, read_error)
  pending_read (t, some bs) = (t, encrypted bs)

  unfoldable pub read_encrypted : T → T × Pending
  read_encrypted t =
      if ltb 0 (o.bio_pending t)
      then pending_read (o.bio_read t (o.bio_pending t))
      else (t, drained)

  unfoldable pub write_encrypted : T → List ℕ → T × Option ℕ
  write_encrypted t in_data = o.bio_write t in_data

  unfoldable pub is_handshake_complete : T → Bool
  is_handshake_complete t = o.ssl_is_init_finished t
