-- ===== src/FileDescriptor/Closed.antt =====
-- The calls of kernel/src/fs/FileDescriptor.cpp on a descriptor that is not open.
use frosty_os.Prelude.{ℕ, ◌≡◌, refl, false, none, some, ◌==◌}
use frosty_os.FileDescriptor.{Devices, FileDescriptor, FdOffsetStart, minus, close, ebadf}
use frosty_os.FileDescriptor.Calls.{Result, read, write, seek, get_dents}

-- After `Close`, all four calls with pointers that are not null and a count that is not 0 fail with
-- EBADF, store nothing, reach neither vnode nor terminal, and leave the descriptor as it is.
pub close-calls :
    (dev : Devices) (w : dev.World) (d : FileDescriptor) (buf count real offset : ℕ)
    (whence : FdOffsetStart)
    → (buf == 0) ≡ false
    → (count == 0) ≡ false
    → (real == 0) ≡ false
    → let refused : Result dev = record {
      code = minus ebadf;
      desc = close d;
      stored = none;
      world = w;
    } in
      (read dev w (close d) buf count real ≡ some refused)
      × (write dev w (close d) buf count real ≡ some refused)
      × (get_dents dev w (close d) buf count real ≡ some refused)
      × (seek dev w (close d) offset whence real ≡ refused)
unfolding close read write get_dents seek
close-calls dev w d buf count real offset whence hb hc hr =
    (rw (hb, hc, hr) refl, rw (hb, hc, hr) refl, rw (hb, hc, hr) refl, rw hr refl)
