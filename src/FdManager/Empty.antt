-- ===== src/FdManager/Empty.antt =====
-- The bitmap that `FileDescriptorManager::Init` makes.
use frosty_os.Prelude.{ℕ, ◌/◌, ◌%◌, ◌≡◌, false, arith, replicate}
use frosty_os.Bitmap.{get}
use frosty_os.Bitmap.Bits.{test_bit-zero}
use frosty_os.FdManager.Search.{get_or-replicate}

pub get-zeros : (i : ℕ) → get (record { buffer = replicate 16 0; size = 16 }) i ≡ false
unfolding get
get-zeros i = ground (arith, get_or-replicate 16 (i / 8), test_bit-zero (i % 8) (omega arith))
