-- ===== src/Tests/Sockets.antt =====
-- Instances for Common/Sockets.antt.
use vtb.Prelude.{[], ◌∷◌, text, ◌≡◌, pos, arith}
use vtb.Common.Sockets.{
  socket, unlink, connect, bind, controller_path, create_client_socket, create_server_socket,
}
use vtb.Common.Sockets.Addresses.{zero_address, controller_path-zero_address}

controller_path-zero_address_example :
    (create_client_socket (pos 4) (controller_path (text "cm_to_ph_sock"))
      ≡ (pos 4, socket ∷ unlink [] ∷ connect (pos 4) zero_address ∷ []))
    × (create_server_socket (pos 4) (pos 0) (controller_path (text "cm_to_ph_sock"))
        ≡ (pos 4, socket ∷ unlink [] ∷ bind (pos 4) zero_address ∷ []))
controller_path-zero_address_example =
    controller_path-zero_address 4 (pos 0) (text "cm_to_ph_sock") (omega arith)
