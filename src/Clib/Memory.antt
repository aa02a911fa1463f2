-- ===== src/Clib/Memory.antt =====
-- kernel/lib/src/util.c. A loop over bytes copies blocks of one byte, and a loop over `uint64_t`
-- blocks of eight, each read whole before it is written.
use frosty_os.Prelude.{
  ℕ, zero, suc, ◌+◌, ◌-◌, ◌*◌, ◌/◌, Bool, true, false, ◌&&◌, ◌==◌, ltb, leb, not, if◌then◌else◌,
}
use frosty_os.Clib.{Bytes}

abbrev pub within : (start size a : ℕ) → Bool
within start size a = leb start a && ltb a (start + size)

-- `d[i] = s[i]` for a block of `w` bytes.
abbrev pub copy_block : (w dst src : ℕ) → Bytes → Bytes
copy_block w dst src mem = λ a. if within dst w a then mem (src + (a - dst)) else mem a

-- The loop upwards over `n` blocks, and the loop downwards.
unfoldable pub copy_up : (w n dst src : ℕ) → Bytes → Bytes
copy_up w zero dst src mem = mem
copy_up w (suc n) dst src mem = copy_up w n (dst + w) (src + w) (copy_block w dst src mem)

unfoldable pub copy_down : (w n dst src : ℕ) → Bytes → Bytes
copy_down w zero dst src mem = mem
copy_down w (suc n) dst src mem =
    copy_down w n dst src (copy_block w (dst + n * w) (src + n * w) mem)

unfoldable pub memset : (dst value n : ℕ) → Bytes → Bytes
memset dst value zero mem = mem
memset dst value (suc n) mem = memset (dst + 1) value n (λ a. if a == dst then value else mem a)

abbrev pub memcpy : (dst src n : ℕ) → Bytes → Bytes
memcpy dst src n mem = if dst == src then mem else copy_up 1 n dst src mem

unfoldable pub memmove : (dst src n : ℕ) → Bytes → Bytes
memmove dst src n mem = if ltb dst src then memcpy dst src n mem else copy_down 1 n dst src mem

abbrev pub fast_memcpy : (dst src n : ℕ) → Bytes → Bytes
fast_memcpy dst src n mem = copy_up 8 (n / 8) dst src mem

unfoldable pub fast_memmove : (dst src n : ℕ) → Bytes → Bytes
fast_memmove dst src n mem =
    if ltb dst src then fast_memcpy dst src n mem else copy_down 8 (n / 8) dst src mem

unfoldable pub memcmp_b : (s b n : ℕ) → Bytes → Bool
memcmp_b s b zero mem = true
memcmp_b s b (suc n) mem =
    let rest = memcmp_b (s + 1) b n mem in if not (mem s == b) then false else rest
