-- ===== src/FileDescriptor/Tests.antt =====
-- A file of 100 bytes behind a descriptor, for the tests of kernel/src/fs/FileDescriptor.cpp.
use frosty_os.Prelude.{ℕ, ◌≡◌, refl, true, arith, none, some}
use frosty_os.FileDescriptor.{
  Devices, FileDescriptor, file, FdOffsetStart, from_start, from_end, from_current, Code, ret,
  minus, new_file, open_fd, open_type, close, fork_fd, ebadf,
}
use frosty_os.FileDescriptor.Calls.{Result, read, write, seek, get_dents}
use frosty_os.FileDescriptor.Sound.{kept, calls_lem}
use frosty_os.FileDescriptor.Seeking.{Sought, seek_lem}

-- The world is the size of the one file; a read or write moves all that it is asked for.
abbrev one_file : Devices
one_file = record {
  World = ℕ;
  get_cred = λ proc. proc;
  vnode_read = λ w vnode buf count offset cred. (ret 0, count, w);
  vnode_write = λ w vnode buf count offset cred. (ret 0, count, w);
  vnode_get_attr = λ w vnode. (ret 0, w, w);
  vnode_get_dents = λ w vnode buf count offset. (ret 0, count, w);
  tty_read = λ w tty buf count stream. w;
  tty_write = λ w tty buf count stream. w;
}

-- An open file, at offset 60.
abbrev opened_file : FileDescriptor
opened_file = record (new_file 7 file 9) { offset = 60; is_open = true }

-- The bit pattern of -20.
abbrev back_20 : ℕ
back_20 = 18446744073709551596

-- 20 before the end is 80, and 60 and 41 is past the end.
end_seek : (seek one_file 100 opened_file back_20 from_end 1).stored ≡ some 80
unfolding seek frosty_os.FileDescriptor.Calls.seek_type frosty_os.FileDescriptor.Calls.seek_file
end_seek = refl

far_seek : (seek one_file 100 opened_file 41 from_current 1).code ≡ minus 22
unfolding seek frosty_os.FileDescriptor.Calls.seek_type frosty_os.FileDescriptor.Calls.seek_file
far_seek = refl

seek_lem_example :
    Sought one_file 100 opened_file back_20 from_current 100
      (seek one_file 100 opened_file back_20 from_current 1)
seek_lem_example =
    seek_lem one_file 100 opened_file back_20 1 from_current refl refl refl refl (omega arith) refl
      (omega arith) (omega arith)

calls_lem_example :
    (kept (read one_file 100 opened_file 1 10 1) ≡ true)
    × (kept (write one_file 100 opened_file 1 10 1) ≡ true)
    × (kept (get_dents one_file 100 opened_file 1 10 1) ≡ true)
    × (kept (some (seek one_file 100 opened_file 5 from_start 1)) ≡ true)
calls_lem_example = calls_lem one_file 100 opened_file 1 10 1 5 from_start refl refl

abbrev refused_read : Result one_file
refused_read = record { code = minus ebadf; desc = close opened_file; stored = none; world = 100 }
