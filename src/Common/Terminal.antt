-- ===== src/Common/Terminal.antt =====
-- `disable_echoctl` and `restore_echoctl` (src/common.cpp). `tcgetattr` and `tcsetattr` succeed.
use vtb.Prelude.{ℕ, ◌-◌, ◌*◌, ◌/◌, ◌%◌, ◌≡◌, refl, nat_eq, ◌==◌, if◌then◌else◌, Bytes, arith}

-- The members of a `termios` besides its local modes are bytes that nobody looks into.
pub record Termios : Type 0 where
  pub c_lflag : ℕ
  pub others : Bytes

-- The settings of the standard input, and the variable `old_t`.
pub record Terminal : Type 0 where
  pub settings : Termios
  pub old_t : Termios

-- `ECHOCTL`, a single bit.
abbrev pub echoctl : ℕ
echoctl = 512

-- `l & ~ECHOCTL`
abbrev pub without_echoctl : ℕ → ℕ
without_echoctl l = if l / echoctl % 2 == 1 then l - echoctl else l

unfoldable pub disable_echoctl : Terminal → Terminal
disable_echoctl t = record {
  settings = record (t.settings) { c_lflag = without_echoctl t.settings.c_lflag };
  old_t = t.settings;
}

unfoldable pub restore_echoctl : Terminal → Terminal
restore_echoctl t = record t { settings = t.old_t }

-- While the echo is off, its bit is 0 and every other setting is as before; `restore_echoctl`
-- brings all the settings back.
pub restore_echoctl-disable_echoctl :
    (t : Terminal)
    → let off = (disable_echoctl t).settings in
      (off.c_lflag / echoctl % 2 ≡ 0)
      × (off.c_lflag % echoctl ≡ t.settings.c_lflag % echoctl)
      × (off.c_lflag / (echoctl * 2) ≡ t.settings.c_lflag / (echoctl * 2))
      × (off.others ≡ t.settings.others)
      × ((restore_echoctl (disable_echoctl t)).settings ≡ t.settings)
unfolding disable_echoctl restore_echoctl
restore_echoctl-disable_echoctl t = (ground arith, ground arith, ground arith, refl, refl)
