-- ===== src/Bitmap/Tests.antt =====
-- A bitmap of two bytes, for the tests of kernel/lib/src/DataStructures/Bitmap.cpp.
use frosty_os.Prelude.{◌*◌, ◌≡◌, refl, true, ◌&&◌, [], ◌∷◌, arith, ltb, ◌==◌, if◌then◌else◌}
use frosty_os.Bitmap.{RawBitmap, IsValid, put, get}
use frosty_os.Bitmap.Laws.{get-put, put-IsValid}

abbrev two_bytes : RawBitmap
two_bytes = record { buffer = 5 ∷ 128 ∷ []; size = 2 }

two_bytes-IsValid : IsValid two_bytes
two_bytes-IsValid = record { sized = refl; bytes = (omega arith, (omega arith, tt)) }

get-put_example :
    get (put two_bytes 9 true) 9
    ≡ (if ltb 9 (two_bytes.size * 8) && 9 == 9 then true else get two_bytes 9)
get-put_example = get-put two_bytes 9 9 true two_bytes-IsValid

put-IsValid_example : IsValid (put two_bytes 9 true)
put-IsValid_example = put-IsValid two_bytes 9 true two_bytes-IsValid
