-- ===== src/Upgrade/Tests.antt =====
-- The answer of a server to the request with the key of RFC 6455.
use dpdk_cex_source.Base.{
  ℕ, zero, suc, ◌≡◌, ◌+◌, ◌-◌, ◌*◌, ◌/◌, ◌%◌, ◌==◌, ltb, if◌then◌else◌, refl, List, [], ◌∷◌, ◌++◌,
  some, take, drop, replicate, length, length-take, length-append, arith,
}
use dpdk_cex_source.Base.Text.{bytes}
use dpdk_cex_source.Subscriptions.{ws_disconnected}
use dpdk_cex_source.Handshake.{crlf}
use dpdk_cex_source.Upgrade.{
  Crypto, IsOpenSsl, generate_websocket_key, find, answered, accept_header,
}
use dpdk_cex_source.Upgrade.Accept.{answered-refuses}

abbrev key : List ℕ
key = bytes "dGhl"

abbrev hash : List ℕ
hash = bytes "s3pP"

abbrev answer : List ℕ
answer =
    bytes "HTTP/1.1 101 Switching Protocols"
    ++ (crlf ++ (accept_header ++ (hash ++ (crlf ++ crlf))))

abbrev letter : ℕ → ℕ
letter n =
    if ltb n 26
    then n + 65
    else if ltb n 52
    then n + 71
    else if ltb n 62
    then n - 4
    else if n == 62
    then 43
    else 47

-- Base 64.
base64 : List ℕ → List ℕ
base64 [] = []
base64 (a ∷ []) = letter (a / 4) ∷ letter (a % 4 * 16) ∷ 61 ∷ 61 ∷ []
base64 (a ∷ b ∷ []) = letter (a / 4) ∷ letter (a % 4 * 16 + b / 16) ∷ letter (b % 16 * 4) ∷ 61 ∷ []
base64 (a ∷ b ∷ c ∷ bs) =
    letter (a / 4)
    ∷ letter (a % 4 * 16 + b / 16)
    ∷ letter (b % 16 * 4 + c / 64)
    ∷ letter (c % 64)
    ∷ base64 bs

-- A hash of the last 20 bytes stands for SHA-1.
abbrev last_bytes : List ℕ → List ℕ
last_bytes input = take 20 (drop (length input - 20) input ++ replicate 20 0)

abbrev crypto : Crypto
crypto = record { sha1 = last_bytes; bio_base64 = λ bs. base64 bs ++ (10 ∷ []) }

length-zeros : (n : ℕ) → length {A = ℕ} (replicate n 0) ≡ n
length-zeros zero = refl
length-zeros (suc n) = omega (arith, length-zeros n)

crypto-IsOpenSsl : IsOpenSsl crypto
crypto-IsOpenSsl = record {
  length-sha1 = λ input.
      let all = drop (length input - 20) input in
      omega (
        arith,
        length-take 20 (all ++ replicate 20 0),
        length-append all (replicate 20 0),
        length-zeros 20,
      );
  base64_line = λ bs h. (base64 bs, refl);
}

header_found : find accept_header answer ≡ some (accept_header ++ (hash ++ (crlf ++ crlf)))
unfolding find
header_found = refl

answered-refuses_example :
    (answered crypto key answer ≡ ws_disconnected)
    × ((text : List ℕ) × (generate_websocket_key crypto key ≡ text ++ (10 ∷ [])))
answered-refuses_example =
    answered-refuses crypto key answer hash crlf key crypto-IsOpenSsl
      (refl, (refl, (refl, (refl, tt)))) (refl, (refl, (refl, (refl, tt)))) header_found
