-- ===== src/Common/Sockets/Addresses.antt =====
-- Which socket a path names.
use vtb.Prelude.{
  ℕ, suc, ◌-◌, ◌<◌, ◌≡◌, refl, ap, [], ◌∷◌, ◌++◌, ℤ, pos, int_eq, nat_eq, lt→leb, length, replicate,
  Bytes, arith,
}
use vtb.Common.Sockets.{
  Address, socket, unlink, bind, connect, abstract_address, create_client_socket,
  create_server_socket, controller_path, sun_path_size, bound, rest,
}

-- The address of `sun_path_size` zero bytes.
abbrev pub zero_address : Address
zero_address = record { sun_path = replicate sun_path_size 0; len = 110 }

-- For every name that fits, the port controller binds, and the vhost controller connects to, the
-- same address of zero bytes: the name takes no part in it.
pub controller_path-zero_address :
    (sock_fd : ℕ) (bind_result : ℤ) (name : Bytes)
    → suc (length name) < sun_path_size
    → (create_client_socket (pos sock_fd) (controller_path name)
        ≡ (pos sock_fd, socket ∷ unlink [] ∷ connect (pos sock_fd) zero_address ∷ []))
      × (create_server_socket (pos sock_fd) bind_result (controller_path name)
          ≡ bound
              (pos sock_fd)
              bind_result
              (socket ∷ unlink [] ∷ bind (pos sock_fd) zero_address ∷ []))
unfolding create_client_socket create_server_socket controller_path
controller_path-zero_address sock_fd bind_result name h =
    let fits = lt→leb sun_path_size (suc (length name)) h in (rw fits, rw fits)

zeros_cancel :
    (s t : Bytes) (m n : ℕ) → length s ≡ length t → s ++ replicate m 0 ≡ t ++ replicate n 0 → s ≡ t
zeros_cancel [] [] m n e h = refl
zeros_cancel [] (d ∷ t) m n e h = absurd (omega arith)
zeros_cancel (c ∷ s) [] m n e h = absurd (omega arith)
zeros_cancel (c ∷ s) (d ∷ t) m n e h = ground (arith, zeros_cancel s t m n)

-- Two abstract names have different addresses: nothing of a name written with '@' is lost.
pub abstract_address-injective :
    (s t : Bytes) → abstract_address (b'@' ∷ s) ≡ abstract_address (b'@' ∷ t) → s ≡ t
unfolding abstract_address
abstract_address-injective s t h =
    zeros_cancel s t (108 - suc (length s)) (108 - suc (length t))
      (omega (arith, ap (λ a. a.len) h)) (ap (λ a. rest a.sun_path) h)
