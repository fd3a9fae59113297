-- ===== src/Common/Sockets.antt =====
-- `create_client_socket` and `create_server_socket` (src/common.cpp), and `send_packet`. The
-- answers of the system calls are arguments; the calls that are made are the result.
pub mod Addresses
use vtb.Prelude.{
  ℕ, zero, suc, ◌+◌, ◌-◌, ◌^◌, Bool, true, false, List, [], ◌∷◌, ◌++◌, ℤ, pos, negsuc, int_eq, ◌==◌,
  nat_eq, if◌then◌else◌, leb, ltb, length, replicate, Bytes,
}
use vtb.Cmdline.{empty}

-- `sizeof(sun_path)` and `offsetof(sockaddr_un, sun_path)`.
abbrev pub sun_path_size : ℕ
sun_path_size = 108

abbrev pub sun_path_offset : ℕ
sun_path_offset = 2

-- A `sockaddr_un` with the length that is passed with it.
pub record Address : Type 0 where
  pub sun_path : Bytes
  pub len : ℕ

pub data Syscall : Type 0 where
  socket : Syscall
  close : ℤ → Syscall
  unlink : Bytes → Syscall
  bind : ℤ → Address → Syscall
  connect : ℤ → Address → Syscall

-- `addr` is zero before the bytes are copied in.
abbrev zero_filled : Bytes → Bytes
zero_filled s = s ++ replicate (sun_path_size - length s) 0

-- A C string ends at its first zero byte.
unfoldable pub c_str : Bytes → Bytes
c_str [] = []
c_str (c ∷ s) = if c == 0 then [] else c ∷ c_str s

abbrev rest : Bytes → Bytes
rest [] = []
rest (c ∷ s) = s

unfoldable pub abstract_address : Bytes → Address
abstract_address path = record {
  sun_path = zero_filled (0 ∷ rest path);
  len = sun_path_offset + length path;
}

-- `strncpy` stops at the first zero byte, and the path is shorter than the array.
unfoldable pub path_address : Bytes → Address
unfolding c_str
path_address path = record {
  sun_path = zero_filled (c_str path);
  len = sun_path_offset + sun_path_size;
}

-- `path[0] == '@'`
abbrev pub is_abstract : Bytes → Bool
is_abstract [] = false
is_abstract (c ∷ s) = c == b'@'

abbrev pub negative : ℤ → Bool
negative (pos n) = false
negative (negsuc n) = true

-- The result and the calls.
abbrev pub Trace : Type 0
Trace = ℤ × List Syscall

abbrev pub failed : ℤ
failed = negsuc 0

-- The result of `connect` is not looked at.
unfoldable pub create_client_socket : ℤ → Bytes → Trace
unfolding abstract_address path_address
create_client_socket sock_fd path =
    if empty path
    then (failed, [])
    else if negative sock_fd
    then (failed, socket ∷ [])
    else if leb sun_path_size (length path)
    then (failed, socket ∷ close sock_fd ∷ [])
    else if is_abstract path
    then (sock_fd, socket ∷ connect sock_fd (abstract_address path) ∷ [])
    else (sock_fd, socket ∷ unlink (c_str path) ∷ connect sock_fd (path_address path) ∷ [])

abbrev bound : ℤ → ℤ → List Syscall → Trace
bound sock_fd bind_result calls =
    if negative bind_result then (failed, calls ++ (close sock_fd ∷ [])) else (sock_fd, calls)

unfoldable pub create_server_socket : ℤ → ℤ → Bytes → Trace
unfolding abstract_address path_address
create_server_socket sock_fd bind_result path =
    if empty path
    then (failed, [])
    else if negative sock_fd
    then (failed, socket ∷ [])
    else if leb sun_path_size (length path)
    then (failed, socket ∷ close sock_fd ∷ [])
    else if is_abstract path
    then bound sock_fd bind_result (socket ∷ bind sock_fd (abstract_address path) ∷ [])
    else bound sock_fd bind_result
        (socket ∷ unlink (c_str path) ∷ bind sock_fd (path_address path) ∷ [])

-- `static_cast<size_t>`
abbrev as_size : ℤ → ℕ
as_size (pos n) = n
as_size (negsuc n) = 2 ^ 64 - suc n

-- `send_packet` of a struct of `size` bytes, from what `write` returns.
unfoldable pub send_packet : ℕ → ℤ → Bool
send_packet size bytes_sent =
    if bytes_sent == negsuc 0 then false else if ltb (as_size bytes_sent) size then false else true

-- The first byte of the names that the controllers make is zero, not '@'.
unfoldable pub controller_path : Bytes → Bytes
controller_path abstract_sockname = 0 ∷ abstract_sockname
