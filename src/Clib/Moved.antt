-- ===== src/Clib/Moved.antt =====
-- `memmove` and `fast_memmove` of kernel/lib/src/util.c on blocks that may overlap.
use frosty_os.Prelude.{
  ℕ, zero, suc, ◌+◌, ◌-◌, ◌*◌, ◌/◌, ◌≤◌, ◌≡◌, ap, ◌∙◌, false, ◌==◌, ltb, leb, if◌then◌else◌, arith,
  Bool-cases, inl, inr,
}
use frosty_os.Clib.{Bytes}
use frosty_os.Clib.Memory.{within, copy_block, copy_up, copy_down, memmove, fast_memmove}

-- All of `size` bytes read first, and then written.
abbrev pub moved : (dst src size : ℕ) → Bytes → Bytes
moved dst src size mem = λ a. if within dst size a then mem (src + (a - dst)) else mem a

first-moved :
    (w m dst src : ℕ) (mem : Bytes) (a : ℕ)
    → dst ≤ src
    → moved (dst + w) (src + w) m (copy_block w dst src mem) a ≡ moved dst src (w + m) mem a
first-moved w m dst src mem a le = elim (Bool-cases (leb (dst + w) a)) [
  | inl e ↦
      let place : src + w + (a - (dst + w)) ≡ src + (a - dst) = ground (arith, e) in
      ground (arith, e, le, place, ap mem place)
  | inr e ↦ ground (arith, e, le)
]

last-moved :
    (w m dst src : ℕ) (mem : Bytes) (a : ℕ)
    → src ≤ dst
    → moved dst src m (copy_block w (dst + m) (src + m) mem) a ≡ moved dst src (w + m) mem a
last-moved w m dst src mem a le = elim (Bool-cases (leb (dst + m) a)) [
  | inl e ↦
      let place : src + m + (a - (dst + m)) ≡ src + (a - dst) = ground (arith, e) in
      ground (arith, e, le, place, ap mem place)
  | inr e ↦ ground (arith, e, le)
]

copy_up-moved :
    (w n dst src : ℕ) (mem : Bytes) (a : ℕ)
    → dst ≤ src
    → copy_up w n dst src mem a ≡ moved dst src (n * w) mem a
unfolding copy_up
copy_up-moved w zero dst src mem a le = ground arith
copy_up-moved w (suc n) dst src mem a le =
    let ih =
      copy_up-moved w n (dst + w) (src + w) (copy_block w dst src mem) a (omega (arith, le)) in
    let size : suc n * w ≡ w + n * w = omega arith in
    ih ∙ rw size (first-moved w (n * w) dst src mem a le)

copy_down-moved :
    (w n dst src : ℕ) (mem : Bytes) (a : ℕ)
    → src ≤ dst
    → copy_down w n dst src mem a ≡ moved dst src (n * w) mem a
unfolding copy_down
copy_down-moved w zero dst src mem a le = ground arith
copy_down-moved w (suc n) dst src mem a le =
    let ih = copy_down-moved w n dst src (copy_block w (dst + n * w) (src + n * w) mem) a le in
    let size : suc n * w ≡ w + n * w = omega arith in
    ih ∙ rw size (last-moved w (n * w) dst src mem a le)

-- `memmove` of `n` bytes has the effect of reading all of them before any is written, however the
-- two blocks overlap: each byte of the destination is the byte that the source had at that place,
-- and no other byte changes. So has `fast_memmove`, for the `n / 8 * 8` bytes that it copies.
pub memmove_lem :
    (dst src n : ℕ) (mem : Bytes) (a : ℕ)
    → (memmove dst src n mem a ≡ moved dst src n mem a)
      × (fast_memmove dst src n mem a ≡ moved dst src (n / 8 * 8) mem a)
unfolding memmove fast_memmove
memmove_lem dst src n mem a =
    let one : n * 1 ≡ n = omega arith in
    elim (Bool-cases (ltb dst src)) [
      | inl e ↦
          let apart : (dst == src) ≡ false = ground (arith, e) in
          let le : dst ≤ src = ground (arith, e) in
          rw e (
            rw apart (
              copy_up-moved 1 n dst src mem a le ∙ ap (λ m. moved dst src m mem a) one,
              copy_up-moved 8 (n / 8) dst src mem a le,
            ))
      | inr e ↦
          let le : src ≤ dst = ground (arith, e) in
          rw e (
            copy_down-moved 1 n dst src mem a le ∙ ap (λ m. moved dst src m mem a) one,
            copy_down-moved 8 (n / 8) dst src mem a le,
          )
    ]
