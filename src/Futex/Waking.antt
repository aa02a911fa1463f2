-- ===== src/Futex/Waking.antt =====
-- `FutexWaitQueue::Wake`, kernel/src/SystemCalls/Futex.cpp.
use frosty_os.Prelude.{ℕ, zero, suc, List, [], ◌∷◌, ltb, if◌then◌else◌}

-- The first threads of a list, and the others.
abbrev pub first : ℕ → List ℕ → List ℕ
first zero ts = []
first (suc n) [] = []
first (suc n) (t ∷ ts) = t ∷ first n ts

abbrev pub others : ℕ → List ℕ → List ℕ
others zero ts = ts
others (suc n) [] = []
others (suc n) (t ∷ ts) = others n ts

abbrev pub fewer : ℕ → ℕ → ℕ
fewer a b = if ltb a b then a else b
