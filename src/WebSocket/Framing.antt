-- ===== src/WebSocket/Framing.antt =====
-- A frame that the framer writes is the frame that the client reads.
use mathlib.Core.Path.{ap₂}
use mathlib.Core.List.{append_assoc}
use native.Mathlib.Nat.{suc-add}
use native.Mathlib.Numerals.{add-one}
use dpdk_cex_source.Base.{
  ℕ, zero, suc, ◌+◌, ◌/◌, ◌%◌, ◌^◌, ◌≤◌, ◌<◌, ◌≡◌, refl, sym, ap, ◌∙◌, true, false, if◌then◌else◌,
  ltb, leb, ◌==◌, List, [], ◌∷◌, ◌++◌, none, some, length, get_or, arith, inl, inr, Bool-cases,
  length-append,
}
use dpdk_cex_source.Base.Bytes.{of_be16-be16, of_be64-be64, u64}
use dpdk_cex_source.WebSocket.{
  MaskKey, key_bytes, mask_from, length_bytes, bytes_at, read_length, key_from, read_payload,
}
use dpdk_cex_source.WebSocket.Xor.{IsBytes, length-mask_from, mask_from_self}

get_or-append : (xs ys : List ℕ) (j : ℕ) → get_or (xs ++ ys) (length xs + j) 0 ≡ get_or ys j 0
get_or-append [] ys j = ground arith
get_or-append (x ∷ xs) ys j = rw suc-add (get_or-append xs ys j)

get_or-cons : (x : ℕ) (xs : List ℕ) (i : ℕ) → get_or (x ∷ xs) (i + 1) 0 ≡ get_or xs i 0
get_or-cons x xs i = rw add-one refl

bytes_at-cons : (x : ℕ) (xs : List ℕ) (i n : ℕ) → bytes_at (x ∷ xs) (i + 1) n ≡ bytes_at xs i n
unfolding bytes_at
bytes_at-cons x xs i zero = refl
bytes_at-cons x xs i (suc n) = ap₂ ◌∷◌ (get_or-cons x xs i) (bytes_at-cons x xs (i + 1) n)

bytes_at_all : (ys : List ℕ) → bytes_at ys 0 (length ys) ≡ ys
unfolding bytes_at
bytes_at_all [] = refl
bytes_at_all (y ∷ ys) = ap (◌∷◌ y) (bytes_at-cons y ys 0 (length ys) ∙ bytes_at_all ys)

medium_fits : (n : ℕ) → leb n 65535 ≡ true → n < 2 ^ 16
medium_fits n h = ground arith

pub read_length_frame :
    (b0 bit n : ℕ) (rest : List ℕ)
    → bit % 128 ≡ 0
    → n < 2 ^ 64
    → read_length (b0 ∷ length_bytes bit n ++ rest) ≡ some (length (b0 ∷ length_bytes bit n), n)
read_length_frame b0 bit n rest e h = elim (Bool-cases (ltb n 126)) [
  | inl short ↦ ground arith
  | inr long ↦ elim (Bool-cases (leb n 65535)) [
    | inl medium ↦ rw (long, medium) (ground (arith, of_be16-be16 n (medium_fits n medium)))
    | inr huge ↦ rw (long, huge) (ground (arith, of_be64-be64 n h))
  ]
]

-- A test of the data's length against a sum that does not wrap.
enough :
    (size need : ℕ) (xs : List ℕ)
    → need ≤ size
    → size < 2 ^ 64
    → (if ltb size (u64 need) then none else some xs) ≡ some xs
enough size need xs h w = ground arith

plus_one : (n : ℕ) → n + 1 ≡ suc n
plus_one n = omega arith

bytes_at_all_rest : (hdr ys : List ℕ) → bytes_at (hdr ++ ys) (length hdr) (length ys) ≡ ys
bytes_at_all_rest [] ys = bytes_at_all ys
bytes_at_all_rest (x ∷ hdr) ys =
    ap (λ i. bytes_at (x ∷ hdr ++ ys) i (length ys)) (sym (plus_one (length hdr)))
    ∙ bytes_at-cons x (hdr ++ ys) (length hdr) (length ys)
    ∙ bytes_at_all_rest hdr ys

pub read_payload_plain :
    (hdr payload : List ℕ)
    → (get_or (hdr ++ payload) 1 0 / 128 % 2 == 1) ≡ false
    → length hdr + length payload < 2 ^ 64
    → read_payload (hdr ++ payload) (length hdr) (length payload) ≡ some payload
read_payload_plain hdr payload plain fits = rw plain (
    enough (length (hdr ++ payload)) (length hdr + length payload) _
      (omega (arith, length-append hdr payload)) (omega (arith, length-append hdr payload))
    ∙ ap some (bytes_at_all_rest hdr payload))

get_or_first : (xs ys : List ℕ) → get_or (xs ++ ys) (length xs) 0 ≡ get_or ys 0 0
get_or_first [] ys = refl
get_or_first (x ∷ xs) ys = get_or_first xs ys

key_ext : (j k : MaskKey) → j.k0 ≡ k.k0 → j.k1 ≡ k.k1 → j.k2 ≡ k.k2 → j.k3 ≡ k.k3 → j ≡ k
key_ext j k a b c d = ground (arith, a, b, c, d)

key_from_frame :
    (hdr rest : List ℕ) (k : MaskKey) → key_from (hdr ++ (key_bytes k ++ rest)) (length hdr) ≡ k
key_from_frame hdr rest k =
    let at = get_or-append hdr (key_bytes k ++ rest) in
    key_ext (key_from (hdr ++ (key_bytes k ++ rest)) (length hdr)) k
      (get_or_first hdr (key_bytes k ++ rest)) (at 1) (at 2) (at 3)

bytes_at_masked :
    (hdr payload : List ℕ) (k : MaskKey)
    → let masked = mask_from k 0 payload in
      bytes_at (hdr ++ (key_bytes k ++ masked)) (length hdr + 4) (length payload) ≡ masked
bytes_at_masked hdr payload k =
    let masked = mask_from k 0 payload in
    ap₂ (λ i n. bytes_at (hdr ++ (key_bytes k ++ masked)) i n)
      (sym (length-append hdr (key_bytes k))) (sym (length-mask_from k 0 payload))
    ∙ ap (λ xs. bytes_at xs (length (hdr ++ key_bytes k)) (length masked))
        (sym (append_assoc hdr (key_bytes k) masked))
    ∙ bytes_at_all_rest (hdr ++ key_bytes k) masked

masked_size :
    (hdr payload : List ℕ) (k : MaskKey)
    → length (hdr ++ (key_bytes k ++ mask_from k 0 payload)) ≡ length hdr + 4 + length payload
masked_size hdr payload k = omega (
  arith,
  length-append hdr (key_bytes k ++ mask_from k 0 payload),
  length-append (key_bytes k) (mask_from k 0 payload),
  length-mask_from k 0 payload,
)

pub read_payload_masked :
    (hdr payload : List ℕ) (k : MaskKey)
    → IsBytes payload
    → (get_or (hdr ++ (key_bytes k ++ mask_from k 0 payload)) 1 0 / 128 % 2 == 1) ≡ true
    → length hdr + 4 + length payload < 2 ^ 64
    → read_payload (hdr ++ (key_bytes k ++ mask_from k 0 payload)) (length hdr) (length payload)
      ≡ some payload
read_payload_masked hdr payload k bs masked fits =
    let data' = hdr ++ (key_bytes k ++ mask_from k 0 payload) in
    rw masked (
      enough (length data') (length hdr + 4 + length payload) _
        (omega (arith, masked_size hdr payload k)) (omega (arith, masked_size hdr payload k))
      ∙ ap some (
          ap₂ (λ key xs. mask_from key 0 xs) (key_from_frame hdr (mask_from k 0 payload) k)
            (bytes_at_masked hdr payload k)
          ∙ mask_from_self k 0 payload bs))
