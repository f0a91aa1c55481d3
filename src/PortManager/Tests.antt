-- ===== src/PortManager/Tests.antt =====
-- Ports and addresses of concrete configurations.
use artdaq.Prelude.{length, ℕ, ◌≡◌, refl, Option, some, List, [], ◌∷◌, arith}
use artdaq.Prelude.Int.{◌+ℤ◌, ℤ, pos}
use artdaq.PortManager.{
  new_manager, fields, field_value, pushed, quad, parse_pattern, PortManager, get_xmlrpc_port,
  get_tcp_socket_transfer_port,
}
use artdaq.PortManager.Laws.{ports-apart, parse_pattern-constant, tcp_socket, xmlrpc}

-- "227.128.PPP.SSS"
abbrev request_text : List ℕ
request_text = 50 ∷ 50 ∷ 55 ∷ 46 ∷ 49 ∷ 50 ∷ 56 ∷ 46 ∷ 80 ∷ 80 ∷ 80 ∷ 46 ∷ 83 ∷ 83 ∷ 83 ∷ []

abbrev by_default : PortManager
by_default = new_manager request_text request_text request_text 0

-- The port of a process for commands can be that of another one of its partition for data.
ports-apart_example : ◌≡◌ {A = ℕ} 1 1
unfolding new_manager get_xmlrpc_port get_tcp_socket_transfer_port
ports-apart_example =
    ports-apart by_default xmlrpc tcp_socket 1 1 400 0 (omega arith) (omega arith) refl

-- A number that is read as its count of digits.
abbrev count_digits : List ℕ → Option ℤ
count_digits s = some (pos (length s))

parse_pattern-constant_example :
    ◌≡◌ {A = ℤ × ℤ × ℤ × ℤ} (pos 0, pos 0, pos 0, pos 128) (pos 0, pos 0, pos 0, pos 128)
unfolding new_manager parse_pattern fields field_value pushed quad ◌+ℤ◌
parse_pattern-constant_example =
    parse_pattern-constant count_digits by_default 3 request_text 2 0 (pos 0, pos 0, pos 0, pos 128)
      refl
