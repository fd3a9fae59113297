-- ===== src/Common/Threads.antt =====
-- `set_thread_name` (src/common.cpp). What pthread_setname_np and strerror answer are arguments.
use vtb.Prelude.{
  ◌<◌, ◌≡◌, ℤ, pos, int_eq, ◌==◌, ◌++◌, [], ◌∷◌, if◌then◌else◌, Bytes, text, length, arith,
}

-- What is written to the standard error.
unfoldable pub set_thread_name : (Bytes → ℤ) → (ℤ → Bytes) → Bytes → Bytes
set_thread_name setname_np strerror name =
    let rc = setname_np name in
    if rc == pos 0 then [] else text "Error setting thread name: " ++ (strerror rc ++ (10 ∷ []))

-- The name of the thread that `launch_worker` makes.
abbrev pub worker_name : Bytes
worker_name = text "epollWorker"

-- Where names of at most fifteen bytes are accepted, as the system documents, the name of the worker
-- thread is, and nothing is written.
pub set_thread_name-worker_name :
    (setname_np : Bytes → ℤ) (strerror : ℤ → Bytes)
    → ((name : Bytes) → length name < 16 → setname_np name ≡ pos 0)
    → set_thread_name setname_np strerror worker_name ≡ []
unfolding set_thread_name
set_thread_name-worker_name setname_np strerror accepts = rw (accepts worker_name (omega arith))
