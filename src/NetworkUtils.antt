-- ===== src/NetworkUtils.antt =====
-- src/modules/network/network_utils.h and network_utils.cpp, class NetworkUtils. What the system
-- answers is a parameter: the lines of the files of /proc (none if a file does not open), the
-- environment, the interfaces, and the conversions of the C library. Printing leaves no trace.
pub mod Arp
mod Tests
use dpdk_cex_source.Base.{
  ℕ, ◌+◌, ◌*◌, ◌/◌, ◌%◌, ◌^◌, Bool, true, false, ◌&&◌, ◌||◌, leb, ltb, ◌==◌, if◌then◌else◌, List,
  [], ◌∷◌, ◌++◌, Option, none, some, bytes_eq,
}
use dpdk_cex_source.Base.Text.{bytes}
use dpdk_cex_source.Json.{◌>>=◌}
use dpdk_cex_source.MicroTcp.{EtherAddr}

-- What is found of an interface by getifaddrs, and of an address by getaddrinfo: addresses are in
-- host byte order, and one of another family than AF_INET is none.
pub record Interface : Type 0 where
  pub ifa_name : List ℕ
  pub ifa_addr : Option ℕ

pub record System : Type 0 where
  pub getenv : List ℕ → Option (List ℕ)
  pub getaddrinfo : List ℕ → Option (List (Option ℕ))
  pub getifaddrs : Option (List Interface)
  pub macaddr_get : ℕ → Option EtherAddr
  pub route_file : Option (List (List ℕ))
  pub arp_file : Option (List (List ℕ))
  -- inet_ntop and inet_pton of AF_INET with the address in host byte order
  pub inet_ntop : ℕ → List ℕ
  pub inet_pton : List ℕ → Option ℕ
  -- std::stoul in base 16; none if it throws
  pub stoul : List ℕ → Option ℕ
  -- the conversion %x of sscanf: its value, and the text behind it
  pub scan_x : List ℕ → Option (ℕ × List ℕ)

-- The result of a search that std::stoul can end.
pub data Search : Type 0 where
  found : ℕ → Search
  not_found throws : Search

abbrev pub is_space : ℕ → Bool
is_space c = c == 32 || leb 9 c && leb c 13

unfoldable pub skip_spaces : List ℕ → List ℕ
skip_spaces [] = []
skip_spaces (c ∷ s) = if is_space c then skip_spaces s else c ∷ s

unfoldable pub take_word : List ℕ → List ℕ × List ℕ
take_word [] = ([], [])
take_word (c ∷ s) =
    let rest = take_word s in if is_space c then ([], c ∷ s) else (c ∷ rest.0, rest.1)

-- `iss >> word`, and the rest of the line.
unfoldable pub next_word : List ℕ → List ℕ × List ℕ
unfolding skip_spaces take_word
next_word s = take_word (skip_spaces s)

abbrev pub tail : List (List ℕ) → List (List ℕ)
tail [] = []
tail (x ∷ xs) = xs

abbrev pub ntohl : ℕ → ℕ
ntohl n =
    n % 2 ^ 8 * 2 ^ 24
    + n / 2 ^ 8 % 2 ^ 8 * 2 ^ 16
    + n / 2 ^ 16 % 2 ^ 8 * 2 ^ 8
    + n / 2 ^ 24 % 2 ^ 8

abbrev pub hex_digit : ℕ → ℕ
hex_digit n = if ltb n 10 then 48 + n else 87 + n

-- `%02x` of a byte
abbrev pub hex_byte : ℕ → List ℕ
hex_byte b = hex_digit (b / 16) ∷ hex_digit (b % 16) ∷ []

abbrev pub colon : ℕ
colon = 58

unfoldable pub mac_to_string : EtherAddr → List ℕ
mac_to_string m =
    hex_byte m.b0
    ++ (colon
        ∷ (hex_byte m.b1
            ++ (colon
                ∷ (hex_byte m.b2
                    ++ (colon
                        ∷ (hex_byte m.b3
                            ++ (colon ∷ (hex_byte m.b4 ++ (colon ∷ hex_byte m.b5)))))))))

abbrev pub after_colon : List ℕ → Option (List ℕ)
after_colon [] = none
after_colon (c ∷ s) = if c == colon then some s else none

module _ (sys : System) where
  abbrev pub ip_to_string : ℕ → List ℕ
  ip_to_string ip = sys.inet_ntop ip

  -- sscanf with its six conversions, and the casts to a byte.
  unfoldable pub scan_mac : List ℕ → Option EtherAddr
  scan_mac mac_str = do
    x0 ← sys.scan_x mac_str
    x1 ← after_colon x0.1 >>= sys.scan_x
    x2 ← after_colon x1.1 >>= sys.scan_x
    x3 ← after_colon x2.1 >>= sys.scan_x
    x4 ← after_colon x3.1 >>= sys.scan_x
    x5 ← after_colon x4.1 >>= sys.scan_x
    some (record {
      b0 = x0.0 % 2 ^ 8;
      b1 = x1.0 % 2 ^ 8;
      b2 = x2.0 % 2 ^ 8;
      b3 = x3.0 % 2 ^ 8;
      b4 = x4.0 % 2 ^ 8;
      b5 = x5.0 % 2 ^ 8;
    })

  abbrev pub ip_str : List ℕ → List ℕ
  ip_str line = (next_word line).0

  abbrev pub mac_str : List ℕ → List ℕ
  mac_str line = (next_word (next_word (next_word (next_word line).1).1).1).0

  -- The address of a line, if it is one of the target.
  unfoldable pub entry_of : List ℕ → List ℕ → Option EtherAddr
  unfolding next_word scan_mac
  entry_of target_ip line =
      if bytes_eq (ip_str line) target_ip then scan_mac (mac_str line) else none

  unfoldable pub search_arp : List ℕ → List (List ℕ) → EtherAddr → Bool × EtherAddr
  unfolding entry_of
  search_arp target_ip [] out_mac = (false, out_mac)
  search_arp target_ip (line ∷ lines) out_mac = elim (entry_of target_ip line) [
    | some mac ↦ (true, mac)
    | none ↦ search_arp target_ip lines out_mac
  ]

  abbrev pub in_lines : Option (List (List ℕ)) → List ℕ → EtherAddr → Bool × EtherAddr
  in_lines none target_ip out_mac = (false, out_mac)
  in_lines (some lines) target_ip out_mac = search_arp target_ip (tail lines) out_mac

  unfoldable pub lookup_arp : ℕ → EtherAddr → Bool × EtherAddr
  unfolding search_arp
  lookup_arp ip_addr out_mac = in_lines sys.arp_file (ip_to_string ip_addr) out_mac

  abbrev pub gateway_of : Option ℕ → Search
  gateway_of none = throws
  gateway_of (some gateway_net) = found (ntohl (gateway_net % 2 ^ 32))

  unfoldable pub search_route : List (List ℕ) → Search
  unfolding next_word
  search_route [] = not_found
  search_route (line ∷ lines) =
      let (dest_hex, rest) = next_word (next_word line).1 in
      let others = search_route lines in
      if bytes_eq dest_hex (bytes "00000000")
      then gateway_of (sys.stoul (next_word rest).0)
      else others

  abbrev pub route_in : Option (List (List ℕ)) → Search
  route_in none = not_found
  route_in (some lines) = search_route (tail lines)

  unfoldable pub get_gateway_ip : Search
  unfolding search_route
  get_gateway_ip = route_in sys.route_file

  -- none if an exception leaves the method.
  abbrev pub mac_of_gateway : Search → EtherAddr → Option (Bool × EtherAddr)
  mac_of_gateway (found ip) out_mac = some (lookup_arp ip out_mac)
  mac_of_gateway not_found out_mac = some (false, out_mac)
  mac_of_gateway throws out_mac = none

  unfoldable pub get_gateway_mac : EtherAddr → Option (Bool × EtherAddr)
  unfolding get_gateway_ip lookup_arp
  get_gateway_mac out_mac = mac_of_gateway get_gateway_ip out_mac

  -- The first address of the list that is of AF_INET.
  unfoldable pub first_inet : List (Option ℕ) → Option ℕ
  first_inet [] = none
  first_inet (none ∷ addrs) = first_inet addrs
  first_inet (some ip ∷ addrs) = some ip

  unfoldable pub resolve_hostname : List ℕ → Option ℕ
  unfolding first_inet
  resolve_hostname hostname = sys.getaddrinfo hostname >>= first_inet

  unfoldable pub get_nic_mac : ℕ → EtherAddr → Bool × EtherAddr
  get_nic_mac port_id out_mac = elim (sys.macaddr_get port_id) [
    | none ↦ (false, out_mac)
    | some mac ↦ (true, mac)
  ]

  unfoldable pub search_interfaces : List ℕ → List Interface → Option ℕ
  search_interfaces iface_name [] = none
  search_interfaces iface_name (ifa ∷ ifas) =
      let others = search_interfaces iface_name ifas in
      elim ifa.ifa_addr [
        | none ↦ others
        | some ip ↦ if bytes_eq iface_name ifa.ifa_name then some ip else others
      ]

  unfoldable pub get_interface_ip : List ℕ → Option ℕ
  unfolding search_interfaces
  get_interface_ip iface_name = sys.getifaddrs >>= search_interfaces iface_name

  -- SRC_IP, if it is set, not empty and an address.
  abbrev pub env_ip : Option (List ℕ) → Option ℕ
  env_ip none = none
  env_ip (some []) = none
  env_ip (some (c ∷ s)) = sys.inet_pton (c ∷ s)

  abbrev pub or_else : Option ℕ → Option ℕ → Option ℕ
  or_else none other = other
  or_else (some ip) other = some ip

  unfoldable pub get_source_ip : List ℕ → Option ℕ
  unfolding get_interface_ip
  get_source_ip tap_iface =
      or_else (env_ip (sys.getenv (bytes "SRC_IP"))) (get_interface_ip tap_iface)
