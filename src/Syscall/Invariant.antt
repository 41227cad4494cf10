-- ===== src/Syscall/Invariant.antt =====
-- The table of descriptors and the working directory stay well formed from call to call.
use lxtos.Screen.{Screen}
use lxtos.Syscall.Keeps.{Keeps}
