-- ===== src/Bitmap/Laws.antt =====
-- A write to the bitmap is seen at its own index and nowhere else.
use frosty_os.Prelude.{
  ℕ, ◌*◌, ◌/◌, ◌%◌, ◌<◌, ◌≡◌, Bool, true, false, ◌&&◌, arith, length, length-set, get_or,
  get_or-set_self, get_or-set_ne, All-set, All-get_or, ltb, ◌==◌, if◌then◌else◌, Bool-cases, inl,
  inr, List, set, ==_iff,
}
use frosty_os.Bitmap.{RawBitmap, IsValid, put, get, set_bit, clear_bit}
use frosty_os.Bitmap.Bits.{byte_facts}

-- The byte that a valid bitmap holds at any position is a byte.
byte_at : {b : RawBitmap} (k : ℕ) → IsValid b → get_or b.buffer k 0 < 256
byte_at {b} k h = All-get_or (λ x. x < 256) b.buffer k 0 (omega arith) h.bytes

pub put-IsValid : (b : RawBitmap) (i : ℕ) (v : Bool) → IsValid b → IsValid (put b i v)
unfolding put
put-IsValid b i true h =
    let facts =
      byte_facts (get_or b.buffer (i / 8) 0) (i % 8) 0 (byte_at _ h) (omega arith) (omega arith) in
    ground (
      arith,
      length-set b.buffer (i / 8) (set_bit (get_or b.buffer (i / 8) 0) (i % 8)),
      All-set (λ x. x < 256) b.buffer (i / 8) (set_bit (get_or b.buffer (i / 8) 0) (i % 8)) facts.0,
    )
put-IsValid b i false h =
    let facts =
      byte_facts (get_or b.buffer (i / 8) 0) (i % 8) 0 (byte_at _ h) (omega arith) (omega arith) in
    ground (
      arith,
      length-set b.buffer (i / 8) (clear_bit (get_or b.buffer (i / 8) 0) (i % 8)),
      All-set (λ x. x < 256) b.buffer (i / 8) (clear_bit (get_or b.buffer (i / 8) 0) (i % 8))
          facts.1,
    )

pub size-put : (b : RawBitmap) (i : ℕ) (v : Bool) → (put b i v).size ≡ b.size
unfolding put
size-put b i v = ground arith

-- Reading byte `j / 8` after a write of byte `i / 8`.
module _ (xs : List ℕ) (i j w : ℕ) (h : i / 8 < length xs) where
  get_or-set_byte :
      get_or (set xs (i / 8) w) (j / 8) 0 ≡ (if i / 8 == j / 8 then w else get_or xs (j / 8) 0)
  get_or-set_byte = elim (Bool-cases (i / 8 == j / 8)) [
    | inl e ↦ let e' = (==_iff _ _).0 e in rw (e, ← e') (get_or-set_self xs (i / 8) w 0 h)
    | inr e ↦ rw e (get_or-set_ne xs (i / 8) (j / 8) w 0 (ground arith))
  ]

-- After a write at `i`, a read at `j` gives the value written if `j` is `i` and `i` is in range,
-- and else what it gave before.
pub get-put :
    (b : RawBitmap) (i j : ℕ) (v : Bool)
    → IsValid b
    → get (put b i v) j ≡ (if ltb i (b.size * 8) && i == j then v else get b j)
unfolding put get
get-put b i j true h =
    let facts =
      byte_facts (get_or b.buffer (i / 8) 0) (i % 8) (j % 8) (byte_at _ h) (omega arith)
        (omega arith) in
    ground
      (arith, facts, get_or-set_byte b.buffer i j (set_bit (get_or b.buffer (i / 8) 0) (i % 8)))
get-put b i j false h =
    let facts =
      byte_facts (get_or b.buffer (i / 8) 0) (i % 8) (j % 8) (byte_at _ h) (omega arith)
        (omega arith) in
    ground
      (arith, facts, get_or-set_byte b.buffer i j (clear_bit (get_or b.buffer (i / 8) 0) (i % 8)))
