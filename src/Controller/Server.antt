-- ===== src/Controller/Server.antt =====
-- The life of a port controller (inc/port_controller*.h, src/port_controller*.cpp): `start` and the
-- destructors. The answers of the system calls are arguments; the calls are recorded in order.
pub mod Closing
use vtb.Prelude.{
  ℕ, suc, ◌+◌, ◌≡◌, refl, Bool, true, false, not, List, [], ◌∷◌, ◌++◌, ℤ, negsuc, if◌then◌else◌,
  Bytes, text, map,
}
use vtb.Cmdline.{Arguments}
use vtb.Cmdline.Values.{get_string}
use vtb.Common.Sockets.{Syscall, create_server_socket, controller_path}
use vtb.Controller.{Mode, loopback, back2back, emulator}

pub data ServerCall : Type 0 where
  sys : Syscall → ServerCall
  listen : ℤ → ℕ → ServerCall
  epoll_create : ServerCall
  epoll_add : ℤ → ℤ → ServerCall
  spawn_worker : ServerCall
  close_fd : ℤ → ServerCall

-- `socket`, `bind` and `epoll_create1` answer with these.
pub record Answers : Type 0 where
  pub sock_fd : ℤ
  pub bind_result : ℤ
  pub epoll_fd : ℤ

pub record PortController : Type 0 where
  pub mode : Mode
  pub is_running : Bool
  pub abstract_sockname : Bytes
  pub abstract_fd : ℤ
  pub epoll_fd : ℤ
  pub calls : List ServerCall

unfoldable pub constructed : Mode → PortController
constructed mode = record {
  mode = mode;
  is_running = false;
  abstract_sockname = [];
  abstract_fd = negsuc 0;
  epoll_fd = negsuc 0;
  calls = [];
}

abbrev pub with_calls : List ServerCall → PortController → PortController
with_calls cs c = record c { calls = c.calls ++ cs }

-- The worker thread is named and detached.
unfoldable pub launch_worker : PortController → PortController
launch_worker c =
    if not c.is_running then with_calls (spawn_worker ∷ []) (record c { is_running = true }) else c

loopback_server : Answers → Arguments → PortController → PortController
loopback_server a arguments c =
    let name = get_string (text "-absn") arguments in
    let (fd, trace) = create_server_socket a.sock_fd a.bind_result (controller_path name) in
    with_calls (map sys trace) (record c { abstract_sockname = name; abstract_fd = fd })

-- The other controllers only say that they have started.
create_server_of : Mode → Answers → Arguments → PortController → PortController
unfolding loopback_server
create_server_of loopback a arguments c = loopback_server a arguments c
create_server_of back2back a arguments c = c
create_server_of emulator a arguments c = c

unfoldable pub create_server : Answers → Arguments → PortController → PortController
unfolding create_server_of
create_server a arguments c = create_server_of c.mode a arguments c

monitor_of : Mode → Answers → PortController → PortController
monitor_of loopback a c = launch_worker (
    with_calls (listen c.abstract_fd 5 ∷ epoll_create ∷ epoll_add a.epoll_fd c.abstract_fd ∷ [])
      (record c { epoll_fd = a.epoll_fd }))
monitor_of back2back a c = launch_worker c
monitor_of emulator a c = launch_worker c

unfoldable pub monitor_and_dispatch_handler : Answers → PortController → PortController
unfolding monitor_of launch_worker
monitor_and_dispatch_handler a c = monitor_of c.mode a c

unfoldable pub start : Answers → Arguments → PortController → PortController
unfolding create_server monitor_and_dispatch_handler
start a arguments c = monitor_and_dispatch_handler a (create_server a arguments c)

-- The destructor of the loopback controller closes its socket first, and the others' do nothing.
close_of : Mode → PortController → PortController
close_of loopback c = with_calls (close_fd c.abstract_fd ∷ []) c
close_of back2back c = c
close_of emulator c = c

-- The worker was detached, so it is not joined. The handlers, which go with the object, are in
-- Handler.antt.
unfoldable pub destroy : PortController → PortController
unfolding close_of
destroy c = record (close_of c.mode c) { is_running = false }
