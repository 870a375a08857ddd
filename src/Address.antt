-- ===== src/Address.antt =====
-- v1.7/src/Address.h, v1.7/src/Address.cpp: an internet address, with its port in network byte
-- order. The text of the address that the constructor takes is not used: it is always INADDR_ANY.
use net_server_stepby_step.Base.{ℕ, ◌+◌, ◌*◌, ◌/◌, ◌%◌, ◌^◌, ◌≡◌, List, ap, arith}
use net_server_stepby_step.TcpServer.Names.{to_string}

-- `htons` and `ntohs` on a machine that is little-endian: the two low bytes, swapped.
abbrev pub swap_bytes : ℕ → ℕ
swap_bytes n = n % 256 * 256 + n / 256 % 256

pub record Address : Type 0 where
  pub sin_port : ℕ
  pub sin_addr : ℕ

abbrev pub inaddr_any : ℕ
inaddr_any = 0

-- `Address(int port, std::string ip)`.
unfoldable pub new_address : ℕ → List ℕ → Address
new_address port ip = record { sin_port = swap_bytes port; sin_addr = inaddr_any }

-- The copy constructor.
unfoldable pub copy_address : Address → Address
copy_address a = record { sin_port = a.sin_port; sin_addr = a.sin_addr }

unfoldable pub get_port : Address → ℕ
get_port a = swap_bytes a.sin_port

unfoldable pub port_to_string : Address → List ℕ
unfolding to_string
port_to_string a = to_string (swap_bytes a.sin_port)

-- A copy of an address gives back the port that it was made with, modulo 2 ^ 16, as a number and as
-- text, whatever text of an address it was made with.
pub get_port-new_address :
    (port : ℕ) (ip : List ℕ)
    → (get_port (copy_address (new_address port ip)) ≡ port % 2 ^ 16)
      × (port_to_string (copy_address (new_address port ip)) ≡ to_string (port % 2 ^ 16))
unfolding get_port copy_address new_address port_to_string
get_port-new_address port ip = (swapped, ap to_string swapped)
  where
    swapped : swap_bytes (swap_bytes port) ≡ port % 2 ^ 16
    swapped = omega arith
