-- ===== src/Handshake/Records.antt =====
-- The loop of process_rx over the TLS records of the received data, in
-- src/modules/network/websocket_client.cpp, against the feeding of a list of records.
use dpdk_cex_source.Base.{
  ℕ, ◌+◌, ◌≤◌, ◌≡◌, refl, false, ◌||◌, ltb, List, [], ◌∷◌, ◌++◌, some, arith, length, take, drop,
  length-append, take-length_append, drop-length_append,
}
use dpdk_cex_source.Base.Bytes.{of_be16}
use dpdk_cex_source.MicroTcp.{Dpdk}
use dpdk_cex_source.TlsSocket.{OpenSsl}
use dpdk_cex_source.Handshake.{WsClient, Reply}
use dpdk_cex_source.Handshake.Process.{next_record, feed_record, fed}

-- A TLS record: the type, the version, the length and the body.
pub record TlsRecord : Type 0 where
  pub type : ℕ
  pub major : ℕ
  pub minor : ℕ
  pub length_high : ℕ
  pub length_low : ℕ
  pub body : List ℕ

-- The type is one of the four, and the length is that of the body.
pub record IsRecord (r : TlsRecord) : Type 0 where
  pub type_low : 20 ≤ r.type
  pub type_high : r.type ≤ 23
  pub length_body : of_be16 r.length_high r.length_low ≡ length r.body

abbrev pub record_bytes : TlsRecord → List ℕ
record_bytes r = r.type ∷ r.major ∷ r.minor ∷ r.length_high ∷ r.length_low ∷ r.body

abbrev pub stream : List TlsRecord → List ℕ → List ℕ
stream [] tail = tail
stream (r ∷ rs) tail = record_bytes r ++ stream rs tail

not_short : (r : TlsRecord) (rest : List ℕ) → ltb (length (record_bytes r ++ rest)) 5 ≡ false
not_short r rest = ground arith

known_type : (r : TlsRecord) → IsRecord r → (ltb r.type 20 || ltb 23 r.type) ≡ false
known_type r v = ground (arith, v.type_low, v.type_high)

not_cut :
    (r : TlsRecord) (rest : List ℕ)
    → IsRecord r
    → ltb (length (record_bytes r ++ rest)) (5 + of_be16 r.length_high r.length_low) ≡ false
not_cut r rest v = ground (arith, v.length_body, length-append r.body rest)

size :
    (r : TlsRecord) → IsRecord r → 5 + of_be16 r.length_high r.length_low ≡ length (record_bytes r)
size r v = omega (arith, v.length_body)

take_record :
    (r : TlsRecord) (rest : List ℕ)
    → IsRecord r
    → take (5 + of_be16 r.length_high r.length_low) (record_bytes r ++ rest) ≡ record_bytes r
take_record r rest v = rw (size r v) (take-length_append (record_bytes r) rest)

drop_record :
    (r : TlsRecord) (rest : List ℕ)
    → IsRecord r
    → drop (5 + of_be16 r.length_high r.length_low) (record_bytes r ++ rest) ≡ rest
drop_record r rest v = rw (size r v) (drop-length_append (record_bytes r) rest)

pub next_record-append :
    (r : TlsRecord) (rest : List ℕ)
    → IsRecord r
    → next_record (record_bytes r ++ rest) ≡ some (record_bytes r, rest)
unfolding next_record
next_record-append r rest v =
    rw
      (
        not_short r rest,
        known_type r v,
        not_cut r rest v,
        take_record r rest v,
        drop_record r rest v,
      )
      refl

module _ {T : Type 0} (d : Dpdk) (o : OpenSsl T) where
  -- The records of a list fed one after the other, up to the one that completes the handshake.
  unfoldable pub feed_each : WsClient T → List TlsRecord → Reply T
  feed_each c [] = (c, [])
  feed_each c (r ∷ rs) = fed d o (feed_record d o c (record_bytes r)) (λ c'. feed_each c' rs)
