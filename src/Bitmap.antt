-- ===== src/Bitmap.antt =====
-- kernel/lib/src/DataStructures/Bitmap.cpp and kernel/lib/include/DataStructures/Bitmap.hpp: a
-- bitmap over a buffer that its user provides. The buffer is the list of its bytes (a null pointer
-- is the empty list), and `size` is the number of bytes that the user has announced by `SetSize`.
pub mod Bits
pub mod Laws
mod Tests
use Prim.Native.Nat.{bit_and, bit_or}
use frosty_os.Prelude.{
  ℕ, ◌-◌, ◌*◌, ◌/◌, ◌%◌, ◌^◌, ◌≡◌, ◌<◌, Bool, true, false, not, List, [], length, get_or, set, All,
  leb, ◌==◌, if◌then◌else◌,
}

pub record RawBitmap : Type 0 where
  pub buffer : List ℕ
  pub size : ℕ

-- `byte |= (1 << k)`
unfoldable pub set_bit : ℕ → ℕ → ℕ
set_bit byte k = bit_or byte (2 ^ k)

-- `byte &= ~(1 << k)`, where `~` acts on an `int` of 32 bits
unfoldable pub clear_bit : ℕ → ℕ → ℕ
clear_bit byte k = bit_and byte (2 ^ 32 - 1 - 2 ^ k)

-- `byte & (1 << k)`, read as a `bool`
unfoldable pub test_bit : ℕ → ℕ → Bool
test_bit byte k = not (bit_and byte (2 ^ k) == 0)

abbrev pub empty : RawBitmap
empty = record { buffer = []; size = 0 }

-- `RawBitmap::Set`
unfoldable pub put : RawBitmap → ℕ → Bool → RawBitmap
put b index value =
    let byte = get_or b.buffer (index / 8) 0 in
    if leb (b.size * 8) index
    then b
    else (if value
        then record b { buffer = set b.buffer (index / 8) (set_bit byte (index % 8)) }
        else record b { buffer = set b.buffer (index / 8) (clear_bit byte (index % 8)) })

-- `RawBitmap::Get`
unfoldable pub get : RawBitmap → ℕ → Bool
get b index =
    if leb (b.size * 8) index then false else test_bit (get_or b.buffer (index / 8) 0) (index % 8)

-- `RawBitmap::SetBuffer` and `RawBitmap::SetSize`
abbrev pub set_buffer : RawBitmap → List ℕ → RawBitmap
set_buffer b buffer = record b { buffer = buffer }

abbrev pub set_size : RawBitmap → ℕ → RawBitmap
set_size b size = record b { size = size }

-- The announced size is the size of the buffer, and the buffer holds bytes.
pub record IsValid (b : RawBitmap) : Type 0 where
  pub sized : length b.buffer ≡ b.size
  pub bytes : All (λ x. x < 256) b.buffer
