-- ===== src/Main/Serving.antt =====
-- The part of `main` that is about the backend.
use mathlib.Core.Option.{some-injective, none-ne-some}
use vtb.Prelude.{
  ◌≡◌, refl, sym, ap, subst, ◌∙◌, Bool, true, false, List, [], ◌∷◌, pos, if◌then◌else◌, Bytes,
  Option, none, some, not, ◌&&◌, ◌==◌, int_eq, bytes_eq, Bool-cases, inl, inr, arith,
}
use vtb.Prelude.Effects.{Exec, done, raised, lost}
use vtb.Cmdline.{Arguments}
use vtb.Common.Sockets.{negative}
use vtb.Common.Terminal.{restore_echoctl}
use vtb.Controller.Server.{destroy, PortController}
use vtb.Vhost.Lifecycle as Lifecycle
use vtb.Vhost.Lifecycle.{
  Backend, Process, StartAnswers, System, construct, init, start, new_process,
}
use vtb.Vhost.Lifecycle.Follow.{Use, initialise, begin, use_all, follow_all, nothing_held, InOrder}
use vtb.Vhost.Lifecycle.Protocol.{use_made, destroy-used, construct-used}
use vtb.Main.{
  Platform, Host, exits, aborts, Outcome, run_backend, my_graceful_exit, finish, with_backend,
}

-- Every call of the backend succeeds.
abbrev pub dpdk_serves : Platform → Bool
dpdk_serves platform =
    not (negative platform.eal)
    && platform.driver.registered == pos 0
    && platform.driver.callbacks == pos 0
    && platform.driver.started == pos 0

-- The uses of the backend when nothing throws.
abbrev both_uses : Platform → List Use
both_uses platform = initialise platform.eal ∷ begin platform.driver ∷ []

Runs : Platform → System → Exec System (Unit {0}) → Type 0
Runs platform s (done x t) = (dpdk_serves platform ≡ true) × (t ≡ use_all (both_uses platform) s)
Runs platform s (raised e t) = dpdk_serves platform ≡ false
Runs platform s lost = ⊥

run_backend-Runs : (platform : Platform) (s : System) → Runs platform s (run_backend platform s)
unfolding run_backend Runs init start
run_backend-Runs platform (b, p) = elim (Bool-cases (negative platform.eal)) [
  | inl failed ↦ simp failed
  | inr set_up ↦ (elim (Bool-cases (platform.driver.registered == pos 0)) [
    | inr failed ↦ simp (set_up, failed)
    | inl registered ↦ (elim (Bool-cases (platform.driver.callbacks == pos 0)) [
      | inr failed ↦ simp (set_up, registered, failed)
      | inl set ↦ (elim (Bool-cases (platform.driver.started == pos 0)) [
        | inr failed ↦ simp (set_up, registered, set, failed)
        | inl started ↦ simp (set_up, registered, set, started) (refl, refl)
      ])
    ])
  ])
]

-- What the backend gives, once there is a controller.
unfoldable pub Served : Platform → PortController → Host → Outcome → Type 0
Served platform controller host (ending, after) =
    (ending ≡ (if dpdk_serves platform then exits (pos 0) else aborts))
    × (after.terminal
        ≡ (if dpdk_serves platform then restore_echoctl host.terminal else host.terminal))
    × (after.arguments ≡ host.arguments)
    × (dpdk_serves platform ≡ true
        → (after.controller ≡ some (destroy controller))
          × (follow_all after.process.calls nothing_held ≡ some nothing_held)
          × (after.process.instance_set ≡ false))

-- Nothing is held when the system is destroyed.
Clean : System → Type 0
Clean s =
    (follow_all (Lifecycle.destroy s).calls nothing_held ≡ some nothing_held)
    × ((Lifecycle.destroy s).instance_set ≡ false)

finish-Served :
    (platform : Platform) (controller : PortController) (b : Backend) (p : Process) (host : Host)
    → (dpdk_serves platform ≡ true → Clean (use_all (both_uses platform) (b, p)))
    → Served platform controller host
        (finish controller (run_backend platform (b, p)) (record host { process = p }))
unfolding finish Served Runs Clean my_graceful_exit
finish-Served platform controller b p host clean =
    go (run_backend platform (b, p)) (run_backend-Runs platform (b, p))
  where
    go :
        (r : Exec System (Unit {0}))
        → Runs platform (b, p) r
        → Served platform controller host (finish controller r (record host { process = p }))
    go (done x t) (served, reached) =
        let (allowed, free) = clean served in
        (simp served, simp served, refl, λ _. (refl, simp reached allowed, simp reached free))
    go (raised e t) failed = (simp failed, simp failed, refl, λ s. ground arith)
    go lost h = absurd h

serves-InOrder :
    (platform : Platform) → dpdk_serves platform ≡ true → InOrder false (both_uses platform)
serves-InOrder platform served = elim (Bool-cases (negative platform.eal)) [
  | inl failed ↦ cc (ap (λ b. b && platform.driver.registered == pos 0) (ap not failed))
  | inr set_up ↦ (simp set_up, tt)
]

pub with_backend-Served :
    (platform : Platform) (controller : PortController) (arguments : Arguments) (path : Bytes)
    (p : Process) (host : Host)
    → p ≡ new_process
    → Served platform controller host
        (with_backend platform controller (construct platform.client_fd arguments path p) host)
unfolding with_backend Clean
with_backend-Served platform controller arguments path p host new =
    go (construct platform.client_fd arguments path p)
      (ap (construct platform.client_fd arguments path) (sym new))
  where
    uses : List Use
    uses = both_uses platform

    go :
        (c : Option Backend × Process)
        → (construct platform.client_fd arguments path new_process ≡ c)
        → Served platform controller host (with_backend platform controller c host)
    go (none, p) c =
        let (s, e, _, _) =
          construct-used platform.client_fd platform.client_fd arguments path path uses in
        absurd (none-ne-some s (sym (ap (use_made uses) c) ∙ e))
    go (some b, p) c = finish-Served platform controller b p host λ served.
        let (s, e, allowed, free) =
          destroy-used platform.client_fd arguments path uses (serves-InOrder platform served) in
        subst Clean (sym (some-injective _ _ (sym (ap (use_made uses) c) ∙ e))) (allowed, free)
