-- ===== src/Controller/Server/Closing.antt =====
-- What `start` leaves behind, and what the destructor takes away.
use vtb.Prelude.{
  ℕ, suc, ◌+◌, ◌≡◌, refl, false, List, [], ◌∷◌, ◌++◌, ℤ, pos, negsuc, int_eq, ◌==◌, if◌then◌else◌,
  leb, length, text, arith, Bool-cases, inl, inr, map, ==_refl, nat_eq, Bytes,
}
use vtb.Cmdline.{Arguments}
use vtb.Cmdline.Values.{get_string}
use vtb.Common.Sockets.{Syscall, close, create_server_socket, controller_path, sun_path_size}
use vtb.Controller.{loopback}
use vtb.Controller.Server.{
  Answers, ServerCall, sys, spawn_worker, close_fd, constructed, start, destroy,
}

abbrev pub answers : ℤ → ℤ → ℤ → Answers
answers sock_fd bind_result epoll_fd = record {
  sock_fd = sock_fd;
  bind_result = bind_result;
  epoll_fd = epoll_fd;
}

-- The sum of a number for each call.
abbrev pub total : (ServerCall → ℕ) → List ServerCall → ℕ
total f [] = 0
total f (c ∷ cs) = f c + total f cs

abbrev pub closes_of : ℤ → ServerCall → ℕ
closes_of fd (sys (close g)) = if g == fd then 1 else 0
closes_of fd (close_fd g) = if g == fd then 1 else 0
closes_of fd _ = 0

-- How often the descriptor is closed.
abbrev pub times_closed : ℤ → List ServerCall → ℕ
times_closed fd = total (closes_of fd)

abbrev pub spawns_of : ServerCall → ℕ
spawns_of spawn_worker = 1
spawns_of _ = 0

-- How many workers are launched.
abbrev pub times_spawned : List ServerCall → ℕ
times_spawned = total spawns_of

total-++ :
    (f : ServerCall → ℕ) (cs ds : List ServerCall) → total f (cs ++ ds) ≡ total f cs + total f ds
total-++ f [] ds = omega arith
total-++ f (c ∷ cs) ds = let ih = total-++ f cs ds in omega arith

total-sys : (t : List Syscall) → times_spawned (map sys t) ≡ 0
total-sys [] = refl
total-sys (c ∷ t) = let ih = total-sys t in omega arith

-- The socket of the controller is closed once in all: by the one who made it, or at the end.
created_closes :
    (n : ℕ) (bind_result : ℤ) (name : Bytes)
    → let t = create_server_socket (pos n) bind_result (controller_path name) in
      times_closed (pos n) (map sys t.1) + closes_of (pos n) (close_fd t.0) ≡ 1
unfolding create_server_socket controller_path
created_closes n (pos m) name = elim (Bool-cases (leb sun_path_size (suc (length name)))) [
  | inl long ↦ simp (long, ==_refl)
  | inr fits ↦ simp fits (ground arith)
]
created_closes n (negsuc m) name = elim (Bool-cases (leb sun_path_size (suc (length name)))) [
  | inl long ↦ simp (long, ==_refl)
  | inr fits ↦ simp (fits, ==_refl)
]

-- A loopback controller that is started and then destroyed closes the descriptor of its socket
-- exactly once, whether the path is too long, `bind` fails or all goes well; it launches one worker,
-- and it does not run any more.
pub destroy-start-closes :
    (n : ℕ) (bind_result epoll_fd : ℤ) (arguments : Arguments)
    → let started = start (answers (pos n) bind_result epoll_fd) arguments (constructed loopback) in
      let ended = destroy started in
      (times_closed (pos n) ended.calls ≡ 1)
      × (times_spawned ended.calls ≡ 1)
      × (ended.is_running ≡ false)
unfolding start constructed destroy
destroy-start-closes n bind_result epoll_fd arguments =
    let made = created_closes n bind_result (get_string (text "-absn") arguments) in
    (
      simp (total-++ (closes_of (pos n))) (omega arith),
      simp (total-++ spawns_of, total-sys) refl,
      refl,
    )
