-- ===== src/TlsSocket/Laws.antt =====
-- What the documentation of OpenSSL says of the calls of src/modules/network/tls_socket.cpp.
use dpdk_cex_source.Base.{ℕ, ◌≡◌, ◌≢◌, List, [], ◌++◌, length, some}
use dpdk_cex_source.TlsSocket.{OpenSsl}

-- A memory BIO is a queue of bytes: what is read is taken from its front, and a read of a queue that
-- is not empty takes some of it.
pub record IsMemoryBio {T : Type 0} (o : OpenSsl T) : Type 0 where
  pub wbio : T → List ℕ
  pub bio_pending-length : (t : T) → o.bio_pending t ≡ length (wbio t)
  pub bio_read-front :
      (t : T) (n : ℕ)
      → n ≢ 0
      → wbio t ≢ []
      → (bs : List ℕ) × ((o.bio_read t n).1 ≡ some bs)
        × (bs ≢ [])
        × (wbio t ≡ bs ++ wbio (o.bio_read t n).0)
