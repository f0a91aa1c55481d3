-- ===== src/PortManager/Laws.antt =====
-- Ports of different partitions, and what a group address is.
use artdaq.Prelude.{
  ℕ, zero, suc, ◌+◌, ◌*◌, ◌<◌, ◌≡◌, refl, ap, arith, sym, ◌∙◌, Option, none, some, List, [], ◌∷◌,
  ◌++◌,
}
use artdaq.Prelude.Int.{◌+ℤ◌, ℤ, pos}
use artdaq.PortManager.{
  get_routing_token_port, get_routing_ack_port, get_xmlrpc_port, get_tcp_socket_transfer_port,
  fields, field_value, pushed, quad, four_zeros, parse_pattern, PortManager,
}
use artdaq.PortManager.Configure.{or_old}

same_multiple : (n p q a b : ℕ) → a < n → b < n → p * n + a ≡ q * n + b → p ≡ q
same_multiple n zero zero a b h k e = refl
same_multiple n zero (suc q) a b h k e = omega arith
same_multiple n (suc p) zero a b h k e = omega arith
same_multiple n (suc p) (suc q) a b h k e = ap suc (same_multiple n p q a b h k (omega arith))

-- The ports that depend on the partition.
pub data PortKind : Type 0 where
  routing_token routing_ack xmlrpc tcp_socket : PortKind

abbrev pub offset_of : PortManager → PortKind → ℕ
offset_of m routing_token = m.routing_token_offset
offset_of m routing_ack = m.routing_ack_offset
offset_of m xmlrpc = m.xmlrpc_offset
offset_of m tcp_socket = m.tcp_socket_offset

abbrev pub port_of : PortManager → PortKind → ℕ → ℕ → ℕ
port_of m routing_token = get_routing_token_port m
port_of m routing_ack = get_routing_ack_port m
port_of m xmlrpc = get_xmlrpc_port m
port_of m tcp_socket = get_tcp_socket_transfer_port m

port_of_lem :
    (m : PortManager) (kind : PortKind) (partition id : ℕ)
    → port_of m kind partition id
      ≡ m.base_port + (partition * m.ports_per_partition + (offset_of m kind + id))
unfolding get_routing_token_port get_routing_ack_port get_xmlrpc_port get_tcp_socket_transfer_port
port_of_lem m routing_token partition id = omega arith
port_of_lem m routing_ack partition id = omega arith
port_of_lem m xmlrpc partition id = omega arith
port_of_lem m tcp_socket partition id = omega arith

-- For routing tokens, routing acknowledgements, XML-RPC and TCP sockets, the kinds of ports that
-- depend on the partition: two processes of different partitions never get the same port, of the same
-- kind or of two of these, as long as the offset of each kind with the subsystem or rank stays below
-- the number of ports per partition.
pub ports-apart :
    (m : PortManager) (kind other : PortKind) (p q i j : ℕ)
    → offset_of m kind + i < m.ports_per_partition
    → offset_of m other + j < m.ports_per_partition
    → port_of m kind p i ≡ port_of m other q j
    → p ≡ q
ports-apart m kind other p q i j h k e =
    same_multiple m.ports_per_partition p q (offset_of m kind + i) (offset_of m other + j) h k
      (omega (arith, port_of_lem m kind p i, port_of_lem m other q j, e))

abbrev Starts : List ℤ → Type 0
Starts out = (more : List ℤ) × (out ≡ pos 0 ∷ pos 0 ∷ pos 0 ∷ pos 0 ∷ more)

pushed-Starts :
    (value : List ℕ → Option ℤ) (address : List ℤ) (texts : List (List ℕ)) (out : List ℤ)
    → Starts address
    → pushed value address texts ≡ some out
    → Starts out
unfolding pushed
pushed-Starts value address [] out s h = (s.0, cc)
pushed-Starts value address (t ∷ rest) out s h =
    go (value t) (λ n. pushed-Starts value (address ++ n ∷ []) rest out) h
  where
    go :
        (o : Option ℤ)
        → ((n : ℤ)
            → Starts (address ++ n ∷ [])
            → pushed value (address ++ n ∷ []) rest ≡ some out
            → Starts out)
        → elim o [ none ↦ none | some n ↦ pushed value (address ++ n ∷ []) rest ] ≡ some out
        → Starts out
    go none further k = cc
    go (some n) further k = further n (s.0 ++ n ∷ [], ap (λ l. l ++ n ∷ []) s.1) k

zero_add : (n : ℕ) → pos 0 +ℤ pos n ≡ pos n
unfolding ◌+ℤ◌
zero_add n = ground arith

-- Whatever the pattern, the partition and the subsystem, a group address that is answered is 0.0.0 and
-- the multicast group offset: the numbers of the pattern come after the four zeros that the vector is
-- made with, and are never read.
pub parse_pattern-constant :
    (stoi : List ℕ → Option ℤ) (m : PortManager) (partition : ℕ) (pattern : List ℕ)
    (subsystem rank : ℕ) (address : ℤ × ℤ × ℤ × ℤ)
    → parse_pattern stoi m partition pattern subsystem rank ≡ some address
    → address ≡ (pos 0, pos 0, pos 0, pos m.multicast_group_offset)
unfolding parse_pattern quad or_old
parse_pattern-constant stoi m partition pattern subsystem rank address h =
    go (pushed (field_value stoi partition subsystem rank) four_zeros (fields [] pattern)) refl h
  where
    go :
        (o : Option (List ℤ))
        → pushed (field_value stoi partition subsystem rank) four_zeros (fields [] pattern) ≡ o
        → elim o [ none ↦ none | some out ↦ some (quad m.multicast_group_offset out) ]
          ≡ some address
        → address ≡ (pos 0, pos 0, pos 0, pos m.multicast_group_offset)
    go none e k = cc
    go (some out) e k =
        let starts = pushed-Starts _ four_zeros (fields [] pattern) out ([], refl) e in
        sym (ap (or_old address) k)
        ∙ ap (quad m.multicast_group_offset) starts.1
        ∙ ap (λ d. (pos 0, pos 0, pos 0, d)) (zero_add m.multicast_group_offset)
