-- ===== src/Handshake/Samples.antt =====
-- A small TLS library for the runs: its handshake sends one record and is finished at the second
-- call, and its output is read one byte at a time.
use dpdk_cex_source.Base.{
  ℕ, ◌≡◌, ◌≢◌, refl, Bool, true, false, List, [], ◌∷◌, ◌++◌, Option, none, some, length, arith,
}
use dpdk_cex_source.TlsSocket.{OpenSsl, SslReturn, positive, wants_io}
use dpdk_cex_source.TlsSocket.Laws.{IsMemoryBio}

pub data Stage : Type 0 where
  fresh waiting finished : Stage

pub record Toy : Type 0 where
  pub stage : Stage
  pub output : List ℕ

abbrev pub hello : List ℕ
hello = 22 ∷ 3 ∷ 1 ∷ 0 ∷ 1 ∷ 9 ∷ []

abbrev toy_handshake : Stage → List ℕ → Toy × SslReturn
toy_handshake fresh output = (record { stage = waiting; output = output ++ hello }, wants_io)
toy_handshake waiting output = (record { stage = finished; output = output }, positive 1)
toy_handshake finished output = (record { stage = finished; output = output }, positive 1)

abbrev pub is_finished : Stage → Bool
is_finished finished = true
is_finished _ = false

abbrev toy_read : Stage → List ℕ → Toy × Option (List ℕ)
toy_read s [] = (record { stage = s; output = [] }, none)
toy_read s (x ∷ xs) = (record { stage = s; output = xs }, some (x ∷ []))

abbrev pub toy : OpenSsl Toy
toy = record {
  ssl_set_tlsext_host_name = λ t name. t;
  ssl_set1_host = λ t name. t;
  ssl_do_handshake = λ t. toy_handshake t.stage t.output;
  ssl_is_init_finished = λ t. is_finished t.stage;
  ssl_write = λ t bs. (record { stage = t.stage; output = t.output ++ bs }, positive (length bs));
  ssl_read = λ t n. ((t, wants_io), []);
  bio_pending = λ t. length t.output;
  bio_read = λ t n. toy_read t.stage t.output;
  bio_write = λ t bs. (t, some (length bs));
}

pub toy_read-front :
    (s : Stage) (output : List ℕ)
    → output ≢ []
    → (bs : List ℕ) × ((toy_read s output).1 ≡ some bs)
      × (bs ≢ [])
      × (output ≡ bs ++ (toy_read s output).0.output)
toy_read-front s [] h = absurd (h refl)
toy_read-front s (x ∷ xs) h = (x ∷ [], refl, (λ e. ground (arith, e)), refl)

abbrev pub toy-IsMemoryBio : IsMemoryBio toy
toy-IsMemoryBio = record {
  wbio = λ t. t.output;
  bio_pending-length = λ t. refl;
  bio_read-front = λ t n h g. toy_read-front t.stage t.output g;
}
