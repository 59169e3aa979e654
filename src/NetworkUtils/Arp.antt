-- ===== src/NetworkUtils/Arp.antt =====
-- NetworkUtils::lookup_arp of src/modules/network/network_utils.cpp on a table that has the address.
use dpdk_cex_source.Base.{
  ℕ, zero, suc, ◌/◌, ◌%◌, ◌^◌, ◌<◌, ◌≡◌, refl, ap, ◌∙◌, true, false, List, [], ◌∷◌, ◌++◌, Option,
  none, some, All, replicate, bytes_eq_refl, arith,
}
use dpdk_cex_source.MicroTcp.{EtherAddr}
use dpdk_cex_source.NetworkUtils.{
  System, is_space, skip_spaces, take_word, next_word, hex_byte, hex_digit, colon, mac_to_string,
  scan_mac, ip_str, mac_str, entry_of, search_arp, in_lines, lookup_arp, ip_to_string,
}

-- A word of a line: not empty and without spaces.
pub record IsWord (w : List ℕ) : Type 0 where
  pub first : ℕ
  pub others : List ℕ
  pub word_split : w ≡ first ∷ others
  pub no_space : All (λ c. is_space c ≡ false) w

-- A word, some spaces, and the rest of a line.
abbrev pub column : List ℕ → ℕ → List ℕ → List ℕ
column w n rest = w ++ (32 ∷ (replicate n 32 ++ rest))

skip_spaces-replicate : (n : ℕ) (s : List ℕ) → skip_spaces (replicate n 32 ++ s) ≡ skip_spaces s
unfolding skip_spaces
skip_spaces-replicate zero s = refl
skip_spaces-replicate (suc n) s = skip_spaces-replicate n s

empty_word : {c : ℕ} {w : List ℕ} → [] ≡ c ∷ w → ⊥
empty_word e = cc

skip_spaces-word : (w rest : List ℕ) → IsWord w → skip_spaces (w ++ rest) ≡ w ++ rest
unfolding skip_spaces
skip_spaces-word [] rest v = absurd (empty_word v.word_split)
skip_spaces-word (c ∷ w) rest v = rw v.no_space.0 refl

take_word-word :
    (w rest : List ℕ)
    → All (λ c. is_space c ≡ false) w
    → take_word (w ++ (32 ∷ rest)) ≡ (w, 32 ∷ rest)
unfolding take_word
take_word-word [] rest v = refl
take_word-word (c ∷ w) rest v = rw (v.0, take_word-word w rest v.1) refl

-- Behind any spaces, the next word is read, and the spaces behind it are left.
next_word-column :
    (m : ℕ) (w : List ℕ) (n : ℕ) (rest : List ℕ)
    → IsWord w
    → next_word (replicate m 32 ++ column w n rest) ≡ (w, replicate (suc n) 32 ++ rest)
unfolding next_word
next_word-column m w n rest v =
    ap take_word (
      skip_spaces-replicate m (column w n rest)
      ∙ skip_spaces-word w (32 ∷ (replicate n 32 ++ rest)) v)
    ∙ take_word-word w (replicate n 32 ++ rest) v.no_space

hex_digit_visible : (n : ℕ) → is_space (hex_digit n) ≡ false
hex_digit_visible n = ground arith

abbrev IsVisible : List ℕ → Type 0
IsVisible = All (λ c. is_space c ≡ false)

-- Two digits and a colon before visible bytes.
IsVisible-field :
    (b : ℕ) (rest : List ℕ) → IsVisible rest → IsVisible (hex_byte b ++ (colon ∷ rest))
IsVisible-field b rest h = (hex_digit_visible (b / 16), (hex_digit_visible (b % 16), (refl, h)))

mac_to_string-IsVisible : (m : EtherAddr) → IsVisible (mac_to_string m)
unfolding mac_to_string
mac_to_string-IsVisible m =
    let h5 : IsVisible (hex_byte m.b5) =
      (hex_digit_visible (m.b5 / 16), (hex_digit_visible (m.b5 % 16), tt)) in
    let h4 = IsVisible-field m.b4 (hex_byte m.b5) h5 in
    let h3 = IsVisible-field m.b3 (hex_byte m.b4 ++ (colon ∷ hex_byte m.b5)) h4 in
    let h2 =
      IsVisible-field m.b2 (hex_byte m.b3 ++ (colon ∷ (hex_byte m.b4 ++ (colon ∷ hex_byte m.b5))))
        h3 in
    let h1 =
      IsVisible-field m.b1
        (hex_byte m.b2
          ++ (colon ∷ (hex_byte m.b3 ++ (colon ∷ (hex_byte m.b4 ++ (colon ∷ hex_byte m.b5))))))
        h2 in
    (hex_digit_visible (m.b0 / 16), (hex_digit_visible (m.b0 % 16), (refl, h1)))

mac_to_string-IsWord : (m : EtherAddr) → IsWord (mac_to_string m)
unfolding mac_to_string
mac_to_string-IsWord m = record {
  first = _;
  others = _;
  word_split = refl;
  no_space = mac_to_string-IsVisible m;
}

-- A line of the table: the address, the type, the flags, the hardware address, and the rest.
pub record Entry : Type 0 where
  pub ip : List ℕ
  pub hw_type : List ℕ
  pub flags : List ℕ
  pub mac : EtherAddr
  pub gap0 : ℕ
  pub gap1 : ℕ
  pub gap2 : ℕ
  pub gap3 : ℕ
  pub rest : List ℕ

abbrev pub entry_line : Entry → List ℕ
entry_line e =
    column e.ip e.gap0
      (column e.hw_type e.gap1 (column e.flags e.gap2 (column (mac_to_string e.mac) e.gap3 e.rest)))

pub record IsEntry (e : Entry) : Type 0 where
  pub ip_word : IsWord e.ip
  pub hw_type_word : IsWord e.hw_type
  pub flags_word : IsWord e.flags

pub record IsMac (m : EtherAddr) : Type 0 where
  pub byte0 : m.b0 < 2 ^ 8
  pub byte1 : m.b1 < 2 ^ 8
  pub byte2 : m.b2 < 2 ^ 8
  pub byte3 : m.b3 < 2 ^ 8
  pub byte4 : m.b4 < 2 ^ 8
  pub byte5 : m.b5 < 2 ^ 8

-- The documented reading of two hexadecimal digits by %x, at a colon and at the end of the text.
pub record ScansHex (sys : System) : Type 0 where
  pub at_colon :
      (b : ℕ) (rest : List ℕ)
      → b < 2 ^ 8
      → sys.scan_x (hex_byte b ++ (colon ∷ rest)) ≡ some (b, colon ∷ rest)
  pub at_end : (b : ℕ) → b < 2 ^ 8 → sys.scan_x (hex_byte b) ≡ some (b, [])

abbrev Words : Type 0
Words = List ℕ × List ℕ

module _ (sys : System) (hex : ScansHex sys) where
  small : (b : ℕ) → b < 2 ^ 8 → b % 2 ^ 8 ≡ b
  small b h = omega (arith, h)

  scan_mac-mac_to_string : (m : EtherAddr) → IsMac m → scan_mac sys (mac_to_string m) ≡ some m
  unfolding scan_mac mac_to_string
  scan_mac-mac_to_string m v =
      rw
        (
          hex.at_colon m.b0 _ v.byte0,
          hex.at_colon m.b1 _ v.byte1,
          hex.at_colon m.b2 _ v.byte2,
          hex.at_colon m.b3 _ v.byte3,
          hex.at_colon m.b4 _ v.byte4,
          hex.at_end m.b5 v.byte5,
          small m.b0 v.byte0,
          small m.b1 v.byte1,
          small m.b2 v.byte2,
          small m.b3 v.byte3,
          small m.b4 v.byte4,
          small m.b5 v.byte5,
        )
        refl

  ip_str-entry : (e : Entry) → IsEntry e → ip_str sys (entry_line e) ≡ e.ip
  ip_str-entry e v = ap (λ (p : Words). p.0) (next_word-column 0 e.ip e.gap0 _ v.ip_word)

  mac_str-entry : (e : Entry) → IsEntry e → mac_str sys (entry_line e) ≡ mac_to_string e.mac
  mac_str-entry e v =
      ap (λ (p : Words). (next_word (next_word (next_word p.1).1).1).0)
        (next_word-column 0 e.ip e.gap0 _ v.ip_word)
      ∙ ap (λ (p : Words). (next_word (next_word p.1).1).0)
          (next_word-column (suc e.gap0) e.hw_type e.gap1 _ v.hw_type_word)
      ∙ ap (λ (p : Words). (next_word p.1).0)
          (next_word-column (suc e.gap1) e.flags e.gap2 _ v.flags_word)
      ∙ ap (λ (p : Words). p.0)
          (next_word-column (suc e.gap2) (mac_to_string e.mac) e.gap3 e.rest
            (mac_to_string-IsWord e.mac))

  entry_of-entry :
      (e : Entry) → IsEntry e → IsMac e.mac → entry_of sys e.ip (entry_line e) ≡ some e.mac
  unfolding entry_of
  entry_of-entry e v m =
      rw (ip_str-entry e v, bytes_eq_refl e.ip, mac_str-entry e v) (scan_mac-mac_to_string e.mac m)

  -- The lines before it are of other addresses, or have no address that can be read.
  search_arp-found :
      (before after : List (List ℕ)) (e : Entry) (out_mac : EtherAddr)
      → All (λ line. entry_of sys e.ip line ≡ none) before
      → IsEntry e
      → IsMac e.mac
      → search_arp sys e.ip (before ++ (entry_line e ∷ after)) out_mac ≡ (true, e.mac)
  unfolding search_arp
  search_arp-found [] after e out_mac h v m = rw (entry_of-entry e v m, search_arp) refl
  search_arp-found (line ∷ before) after e out_mac h v m =
      rw (h.0, search_arp) (search_arp-found before after e out_mac h.1 v m)

  -- The look-up of an address in a table that opens and has, behind its header, an entry for it
  -- gives the hardware address that mac_to_string wrote there, if no line before the entry is one of
  -- the same address that can be read; the widths of the columns and what follows are free. The
  -- columns must be words, the address of bytes, and %x must read two digits as documented.
  pub lookup_arp-mac_to_string :
      (ip_addr : ℕ) (header : List ℕ) (before after : List (List ℕ)) (e : Entry)
      (out_mac : EtherAddr)
      → sys.arp_file ≡ some (header ∷ before ++ (entry_line e ∷ after))
      → ip_to_string sys ip_addr ≡ e.ip
      → All (λ line. entry_of sys e.ip line ≡ none) before
      → IsEntry e
      → IsMac e.mac
      → lookup_arp sys ip_addr out_mac ≡ (true, e.mac)
  unfolding lookup_arp
  lookup_arp-mac_to_string ip_addr header before after e out_mac file same h v m =
      ap (λ (lines : Option (List (List ℕ))). in_lines sys lines (ip_to_string sys ip_addr) out_mac)
        file
      ∙ ap (λ (target : List ℕ). search_arp sys target (before ++ (entry_line e ∷ after)) out_mac)
          same
      ∙ search_arp-found before after e out_mac h v m
