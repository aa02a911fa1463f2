-- ===== src/Clib.antt =====
-- The C library of the kernel: kernel/lib/src/util.c, kernel/lib/src/string.c and
-- kernel/lib/src/stdlib.c. Memory is a function from addresses to bytes; addresses do not wrap
-- around.
pub mod Memory
pub mod Strings
pub mod Numbers
mod Moved
mod Compared
mod Scaled
mod Tests
use frosty_os.Prelude.{ℕ}

abbrev pub Bytes : Type 0
Bytes = ℕ → ℕ
