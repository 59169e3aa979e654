-- ===== src/NetworkUtils/Tests.antt =====
-- A table of two addresses.
use dpdk_cex_source.Base.{
  ℕ, ◌+◌, ◌-◌, ◌*◌, ◌^◌, ◌<◌, ◌≡◌, refl, ap, ◌/◌, ◌%◌, true, List, [], ◌∷◌, Option, none, some, ltb,
  if◌then◌else◌, arith,
}
use dpdk_cex_source.Base.Text.{bytes}
use dpdk_cex_source.MicroTcp.{EtherAddr}
use dpdk_cex_source.NetworkUtils.{
  System, hex_digit, colon, entry_of, lookup_arp, next_word, skip_spaces, take_word,
}
use dpdk_cex_source.NetworkUtils.Arp.{
  Entry, entry_line, IsEntry, IsMac, ScansHex, lookup_arp-mac_to_string,
}

-- The value of a digit, and of two digits, as %x reads them.
abbrev digit : ℕ → ℕ
digit c = if ltb c 58 then c - 48 else c - 87

abbrev two_digits : List ℕ → Option (ℕ × List ℕ)
two_digits [] = none
two_digits (c ∷ []) = none
two_digits (c ∷ d ∷ rest) = some (digit c * 16 + digit d, rest)

abbrev no_mac : EtherAddr
no_mac = record { b0 = 0; b1 = 0; b2 = 0; b3 = 0; b4 = 0; b5 = 0 }

abbrev gateway : Entry
gateway = record {
  ip = bytes "10.0.0.1";
  hw_type = bytes "0x1";
  flags = bytes "0x2";
  mac = record { b0 = 2; b1 = 0; b2 = 94; b3 = 16; b4 = 0; b5 = 255 };
  gap0 = 9;
  gap1 = 9;
  gap2 = 9;
  gap3 = 5;
  rest = bytes "*        eth0";
}

abbrev other_line : List ℕ
other_line = bytes "10.0.0.7 0x1 0x2 02:00:00:00:00:07 * eth0"

abbrev machine : System
machine = record {
  getenv = λ name. none;
  getaddrinfo = λ name. none;
  getifaddrs = none;
  macaddr_get = λ port. none;
  route_file = none;
  arp_file = some (bytes "IP address" ∷ other_line ∷ entry_line gateway ∷ []);
  inet_ntop = λ ip. bytes "10.0.0.1";
  inet_pton = λ s. none;
  stoul = λ s. none;
  scan_x = two_digits;
}

digit-hex_digit : (n : ℕ) → n < 16 → digit (hex_digit n) ≡ n
digit-hex_digit n h = ground arith

byte-hex_byte :
    (b : ℕ) → b < 2 ^ 8 → digit (hex_digit (b / 16)) * 16 + digit (hex_digit (b % 16)) ≡ b
byte-hex_byte b h =
    rw (digit-hex_digit (b / 16) (omega (arith, h)), digit-hex_digit (b % 16) (omega arith))
      (omega arith)

machine-ScansHex : ScansHex machine
machine-ScansHex = record {
  at_colon = λ b rest h. ap (λ (x : ℕ). some (x, colon ∷ rest)) (byte-hex_byte b h);
  at_end = λ b h. ap (λ (x : ℕ). some (x, [])) (byte-hex_byte b h);
}

gateway-IsEntry : IsEntry gateway
gateway-IsEntry = record {
  ip_word = record {
    first = 49;
    others = bytes "0.0.0.1";
    word_split = refl;
    no_space = (refl, (refl, (refl, (refl, (refl, (refl, (refl, (refl, tt))))))));
  };
  hw_type_word = record {
    first = 48;
    others = bytes "x1";
    word_split = refl;
    no_space = (refl, (refl, (refl, tt)));
  };
  flags_word = record {
    first = 48;
    others = bytes "x2";
    word_split = refl;
    no_space = (refl, (refl, (refl, tt)));
  };
}

gateway-IsMac : IsMac gateway.mac
gateway-IsMac = record {
  byte0 = omega arith;
  byte1 = omega arith;
  byte2 = omega arith;
  byte3 = omega arith;
  byte4 = omega arith;
  byte5 = omega arith;
}

other_line_lem : entry_of machine gateway.ip other_line ≡ none
unfolding entry_of next_word skip_spaces take_word
other_line_lem = refl

lookup_arp-mac_to_string_example : lookup_arp machine 0x0A000001 no_mac ≡ (true, gateway.mac)
lookup_arp-mac_to_string_example =
    lookup_arp-mac_to_string machine machine-ScansHex 0x0A000001 (bytes "IP address")
      (other_line ∷ []) [] gateway no_mac refl refl (other_line_lem, tt) gateway-IsEntry
      gateway-IsMac
