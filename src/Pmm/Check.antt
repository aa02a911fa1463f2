-- ===== src/Pmm/Check.antt =====
-- `PMM::Verify` and `PMM::GetFreePageCount` of kernel/src/Memory/PMM.cpp.
use frosty_os.Prelude.{
  ℕ, zero, suc, Outcome, done, assert_failed, ◌>>=◌, add64, mul64, leb, ◌==◌, if◌then◌else◌, ◌&&◌,
}
use frosty_os.Pmm.{page_size, Memory, Pmm}

-- The loop of `PMM::Verify` from `current`, with `rounds` left: the last node and the page count.
unfoldable pub verify_loop : Memory → ℕ → ℕ → ℕ → ℕ → Outcome (ℕ × ℕ × ℕ)
verify_loop mem zero current previous pages = done (current, previous, pages)
verify_loop mem (suc rounds) current previous pages =
    let rest =
      verify_loop mem rounds (mem current).next current (add64 pages (mem current).page_count) in
    if current == 0
    then assert_failed
    else (if previous == 0
        then rest
        else (if leb (add64 previous (mul64 (mem previous).page_count page_size)) current
            then rest
            else assert_failed))

-- `PMM::Verify`
unfoldable pub verify : Pmm → Outcome (Unit {0})
verify p = verify_loop p.mem p.free_list_node_count p.free_list_start 0 0 >>= λ end.
    if end.0 == 0
      && end.2 == p.free_page_count
      && p.free_list_end == end.1
      && p.total_page_count == add64 p.free_page_count p.used_page_count
    then done tt
    else assert_failed

-- `PMM::GetFreePageCount`
abbrev pub get_free_page_count : Pmm → ℕ
get_free_page_count p = p.free_page_count
