-- ===== src/PortManager.antt =====
-- artdaq/DAQdata/PortManager.cc and .hh: the port numbers and multicast addresses of a process. Ports,
-- offsets, ranks and the partition number are configured as numbers that are not negative. The
-- environment, the parameter set and the network interfaces are arguments. A port is a sum of `int`: from
-- 2 ^ 31 on the source is undefined, and the model keeps the sum as it is.
pub mod Configure
pub mod Laws
mod Tests
use artdaq.Prelude.{
  ◌==◌, if◌then◌else◌, ℕ, ◌+◌, ◌*◌, Bool, true, false, ◌&&◌, Option, none, some, List, [], ◌∷◌,
  ◌++◌,
}
use artdaq.Prelude.Int.{◌+ℤ◌, ℤ, pos}

-- The members, without the `..._configured_` flags that only decide on messages.
pub record PortManager : Type 0 where
  pub base_configured : Bool
  pub multicasts_configured : Bool
  pub base_port : ℕ
  pub ports_per_partition : ℕ
  pub multicast_interface_address : ℕ
  pub multicast_group_offset : ℕ
  pub routing_token_offset : ℕ
  pub routing_ack_offset : ℕ
  pub xmlrpc_offset : ℕ
  pub tcp_socket_offset : ℕ
  pub request_message_port : ℕ
  pub routing_table_port : ℕ
  pub multicast_transfer_offset : ℕ
  pub request_message_group_pattern : List ℕ
  pub routing_table_group_pattern : List ℕ
  pub multicast_transfer_group_pattern : List ℕ

-- `DEFAULT_BASE` and `DEFAULT_PORTS_PER_PARTITION`.
abbrev pub default_base : ℕ
default_base = 10000

abbrev pub default_ports_per_partition : ℕ
default_ports_per_partition = 1000

-- The constructor, with its three patterns as texts.
unfoldable pub new_manager : List ℕ → List ℕ → List ℕ → ℕ → PortManager
new_manager request_pattern table_pattern transfer_pattern no_address = record {
  base_configured = false;
  multicasts_configured = false;
  base_port = default_base;
  ports_per_partition = default_ports_per_partition;
  multicast_interface_address = no_address;
  multicast_group_offset = 128;
  routing_token_offset = 10;
  routing_ack_offset = 30;
  xmlrpc_offset = 100;
  tcp_socket_offset = 500;
  request_message_port = 3001;
  routing_table_port = 3001;
  multicast_transfer_offset = 1024;
  request_message_group_pattern = request_pattern;
  routing_table_group_pattern = table_pattern;
  multicast_transfer_group_pattern = transfer_pattern;
}

unfoldable pub get_routing_token_port : PortManager → ℕ → ℕ → ℕ
get_routing_token_port m partition subsystem =
    m.base_port + m.routing_token_offset + partition * m.ports_per_partition + subsystem

unfoldable pub get_routing_ack_port : PortManager → ℕ → ℕ → ℕ
get_routing_ack_port m partition subsystem =
    m.base_port + m.routing_ack_offset + partition * m.ports_per_partition + subsystem

unfoldable pub get_xmlrpc_port : PortManager → ℕ → ℕ → ℕ
get_xmlrpc_port m partition rank =
    m.base_port + m.xmlrpc_offset + rank + partition * m.ports_per_partition

unfoldable pub get_tcp_socket_transfer_port : PortManager → ℕ → ℕ → ℕ
get_tcp_socket_transfer_port m partition rank =
    m.base_port + m.tcp_socket_offset + partition * m.ports_per_partition + rank

unfoldable pub get_multicast_transfer_port : PortManager → ℕ → ℕ
get_multicast_transfer_port m rank = m.multicast_transfer_offset + rank

-- `getline(f, s, '.')` until the text is used up; a text is the list of its characters' codes.
unfoldable pub fields : List ℕ → List ℕ → List (List ℕ)
fields current [] = elim current [ [] ↦ [] | c ∷ cs ↦ (c ∷ cs) ∷ [] ]
fields current (c ∷ rest) =
    let ended = current ∷ fields [] rest in
    let longer = fields (current ++ c ∷ []) rest in if c == 46 then ended else longer

abbrev pub same_text : List ℕ → List ℕ → Bool
same_text [] [] = true
same_text [] (c ∷ cs) = false
same_text (b ∷ bs) [] = false
same_text (b ∷ bs) (c ∷ cs) = b == c && same_text bs cs

-- The number of a field: "PPP", "SSS", "RRR", or what `stoi` reads, `none` where it throws.
unfoldable pub field_value : (List ℕ → Option ℤ) → ℕ → ℕ → ℕ → List ℕ → Option ℤ
field_value stoi partition subsystem rank s =
    if same_text s (80 ∷ 80 ∷ 80 ∷ [])
    then some (pos partition)
    else if same_text s (83 ∷ 83 ∷ 83 ∷ [])
    then some (pos subsystem)
    else if same_text s (82 ∷ 82 ∷ 82 ∷ [])
    then some (pos rank)
    else stoi s

-- `address.push_back(...)` for each field.
unfoldable pub pushed : (List ℕ → Option ℤ) → List ℤ → List (List ℕ) → Option (List ℤ)
pushed value address [] = some address
pushed value address (s ∷ rest) = elim (value s) [
  | none ↦ none
  | some n ↦ pushed value (address ++ n ∷ []) rest
]

-- The four numbers of the address; a short one is filled up with zeros.
unfoldable pub quad : ℕ → List ℤ → ℤ × ℤ × ℤ × ℤ
quad offset [] = (pos 0, pos 0, pos 0, pos 0 +ℤ pos offset)
quad offset (a ∷ []) = (a, pos 0, pos 0, pos 0 +ℤ pos offset)
quad offset (a ∷ b ∷ []) = (a, b, pos 0, pos 0 +ℤ pos offset)
quad offset (a ∷ b ∷ c ∷ []) = (a, b, c, pos 0 +ℤ pos offset)
quad offset (a ∷ b ∷ c ∷ d ∷ rest) = (a, b, c, d +ℤ pos offset)

-- `std::vector<int> address(4)`
abbrev pub four_zeros : List ℤ
four_zeros = pos 0 ∷ pos 0 ∷ pos 0 ∷ pos 0 ∷ []

-- `parse_pattern_`, or `none` where `stoi` throws.
unfoldable pub parse_pattern :
    (List ℕ → Option ℤ) → PortManager → ℕ → List ℕ → ℕ → ℕ → Option (ℤ × ℤ × ℤ × ℤ)
parse_pattern stoi m partition pattern subsystem rank =
    elim (pushed (field_value stoi partition subsystem rank) four_zeros (fields [] pattern)) [
      | none ↦ none
      | some address ↦ some (quad m.multicast_group_offset address)
    ]

unfoldable pub get_request_message_group_address :
    (List ℕ → Option ℤ) → PortManager → ℕ → ℕ → Option (ℤ × ℤ × ℤ × ℤ)
get_request_message_group_address stoi m partition subsystem =
    parse_pattern stoi m partition m.request_message_group_pattern subsystem 0

unfoldable pub get_routing_table_group_address :
    (List ℕ → Option ℤ) → PortManager → ℕ → ℕ → Option (ℤ × ℤ × ℤ × ℤ)
get_routing_table_group_address stoi m partition subsystem =
    parse_pattern stoi m partition m.routing_table_group_pattern subsystem 0

unfoldable pub get_multicast_transfer_group_address :
    (List ℕ → Option ℤ) → PortManager → ℕ → Option (ℤ × ℤ × ℤ × ℤ)
get_multicast_transfer_group_address stoi m partition =
    parse_pattern stoi m partition m.multicast_transfer_group_pattern 0 0
