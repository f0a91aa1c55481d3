-- ===== src/PortManager/Configure.antt =====
-- PortManager.cc: `UpdateConfiguration` and `GetMulticastOutputAddress`.
use artdaq.Prelude.{
  ltb, ◌==◌, if◌then◌else◌, ℕ, ◌-◌, ◌/◌, Bool, true, not, ◌&&◌, ◌||◌, Option, none, some, List,
}
use artdaq.PortManager.{default_base, default_ports_per_partition, PortManager}

-- What the parameter set has, and the environment: a variable that is not set or is no number is
-- `none`. `multicast_address` is what the interface or network of the parameter set has, if it is given
-- and found.
pub record Settings : Type 0 where
  pub artdaq_base_port : Option ℕ
  pub artdaq_ports_per_partition : Option ℕ
  pub environment_base_port : Option ℕ
  pub environment_ports_per_partition : Option ℕ
  pub multicast_address : Option ℕ
  pub group_offset : Option ℕ
  pub routing_token_port_offset : Option ℕ
  pub routing_table_ack_port_offset : Option ℕ
  pub xmlrpc_port_offset : Option ℕ
  pub tcp_socket_port_offset : Option ℕ
  pub request_port : Option ℕ
  pub request_pattern : Option (List ℕ)
  pub table_port : Option ℕ
  pub table_pattern : Option (List ℕ)
  pub multicast_transfer_port_offset : Option ℕ
  pub multicast_transfer_pattern : Option (List ℕ)

-- The end of `UpdateConfiguration`: it returns, it calls `exit(22)`, or it divides by zero.
pub data Updated : Type 0 where
  updated : PortManager → Updated
  too_many_partitions division_by_zero : Updated

unfoldable pub or_old : {A : Type 0} → A → Option A → A
or_old old none = old
or_old old (some new) = new

-- A value of the environment that is in range.
unfoldable pub in_range : ℕ → ℕ → Option ℕ → Option ℕ
in_range low high none = none
in_range low high (some n) = if ltb n low || ltb high n then none else some n

-- The base port and the ports of a partition: the environment goes before the parameter set.
unfoldable pub with_base : Settings → PortManager → PortManager
with_base s m = record m {
  base_port =
      or_old (or_old m.base_port s.artdaq_base_port) (in_range 1024 32000 s.environment_base_port);
  ports_per_partition =
      or_old (or_old m.ports_per_partition s.artdaq_ports_per_partition)
        (in_range 0 32000 s.environment_ports_per_partition);
}

-- `GetPartitionNumber() > (65535 - base_port_) / ports_per_partition_`, on `int`.
unfoldable pub is_beyond : PortManager → ℕ → Bool
is_beyond m partition =
    if ltb 65535 m.base_port
    then not (partition == 0 && (m.base_port - 65535) / m.ports_per_partition == 0)
    else ltb ((65535 - m.base_port) / m.ports_per_partition) partition

unfoldable pub is_changed : PortManager → Bool
is_changed m =
    not (m.base_port == default_base && m.ports_per_partition == default_ports_per_partition)

-- An address that was configured before stays.
unfoldable pub with_multicast : Option ℕ → PortManager → PortManager
with_multicast none m = m
with_multicast (some address) m =
    if m.multicasts_configured
    then m
    else record m { multicasts_configured = true; multicast_interface_address = address }

unfoldable pub with_offsets : Settings → PortManager → PortManager
with_offsets s m = record m {
  multicast_group_offset = or_old m.multicast_group_offset s.group_offset;
  routing_token_offset = or_old m.routing_token_offset s.routing_token_port_offset;
  routing_ack_offset = or_old m.routing_ack_offset s.routing_table_ack_port_offset;
  xmlrpc_offset = or_old m.xmlrpc_offset s.xmlrpc_port_offset;
  tcp_socket_offset = or_old m.tcp_socket_offset s.tcp_socket_port_offset;
  request_message_port = or_old m.request_message_port s.request_port;
  request_message_group_pattern = or_old m.request_message_group_pattern s.request_pattern;
  routing_table_port = or_old m.routing_table_port s.table_port;
  routing_table_group_pattern = or_old m.routing_table_group_pattern s.table_pattern;
  multicast_transfer_offset = or_old m.multicast_transfer_offset s.multicast_transfer_port_offset;
  multicast_transfer_group_pattern =
      or_old m.multicast_transfer_group_pattern s.multicast_transfer_pattern;
}

unfoldable pub update_configuration : Settings → ℕ → PortManager → Updated
update_configuration s partition m =
    let based = with_base s m in
    if not based.base_configured && is_changed based
    then if based.ports_per_partition == 0
      then division_by_zero
      else if is_beyond based partition
      then too_many_partitions
      else updated (
          with_offsets s
            (with_multicast s.multicast_address (record based { base_configured = true })))
    else updated (with_offsets s (with_multicast s.multicast_address based))

-- `GetMulticastOutputAddress`; `found` is the address that the interface, the network or the search
-- for a private interface has.
unfoldable pub get_multicast_output_address : ℕ → PortManager → PortManager × ℕ
get_multicast_output_address found m =
    if m.multicasts_configured
    then (m, m.multicast_interface_address)
    else (record m { multicasts_configured = true; multicast_interface_address = found }, found)
