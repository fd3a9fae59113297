-- ===== src/Common.antt =====
-- inc/common.h and src/common.cpp: the structs of a port, the parity tests, the sockets.
pub mod Devices
pub mod Sockets
pub mod Terminal
pub mod Threads
pub mod Wire
use vtb.Prelude.{ℕ, suc, ◌%◌, Bool, not, ℤ, pos, negsuc, ◌==◌, nat_eq}

-- `n % 2` of C++ has the sign of `n`, so it is 0 exactly for the even numbers of either sign.
unfoldable pub is_even : ℤ → Bool
is_even (pos n) = n % 2 == 0
is_even (negsuc n) = suc n % 2 == 0

unfoldable pub is_odd : ℤ → Bool
is_odd (pos n) = not (n % 2 == 0)
is_odd (negsuc n) = not (suc n % 2 == 0)
