-- ===== src/ThreadList/Tests.antt =====
-- Three threads in a list, for the tests of kernel/src/Scheduling/ThreadList.cpp.
use frosty_os.Prelude.{ℕ, ◌≡◌, refl, true, [], ◌∷◌, ◌++◌, arith, done}
use frosty_os.ThreadList.{Links, ThreadList, put_links, apart, push_back, remove}
use frosty_os.ThreadList.Chain.{Represents}
use frosty_os.ThreadList.Push.{push_back_lem}
use frosty_os.ThreadList.Remove.{remove_lem}
use frosty_os.ThreadList.Walk.{enumerate, enumerate_const}
use frosty_os.ThreadList.Visit.{note, note_delete, enumerate_lem}

abbrev link : ℕ → ℕ → Links
link previous next = record { previous = previous; next = next; in_list = true }

abbrev three_threads : ℕ → Links
three_threads =
    put_links (put_links (put_links (λ t. apart) 100 (link 0 200)) 200 (link 100 300)) 300
      (link 200 0)

abbrev three : ThreadList
three = record { threads = three_threads; head = 100; tail = 300; count = 3 }

three-Represents : Represents three (100 ∷ 200 ∷ 300 ∷ [])
three-Represents = record {
  chain = (
    refl,
    refl,
    refl,
    (refl, (refl, tt)),
    (refl, refl, refl, (refl, tt), (refl, refl, refl, tt, tt)),
  );
  first = refl;
  last = refl;
  counted = refl;
  bounded = omega arith;
}

push_back_lem_example :
    (k : ThreadList) × (push_back three 400 ≡ done k)
    × Represents k ((100 ∷ 200 ∷ 300 ∷ []) ++ 400 ∷ [])
push_back_lem_example =
    push_back_lem three 400 (100 ∷ 200 ∷ 300 ∷ []) three-Represents refl (refl, (refl, (refl, tt)))
      refl refl (omega arith)

remove_lem_example :
    (k : ThreadList) × (remove three 200 ≡ done k) × Represents k ((100 ∷ []) ++ 300 ∷ [])
remove_lem_example = remove_lem three 200 (100 ∷ []) (300 ∷ []) three-Represents

enumerate_lem_example :
    (enumerate_const note three [] ≡ 100 ∷ 200 ∷ 300 ∷ [])
    × ((k : ThreadList) × (enumerate note_delete three [] ≡ done (k, 100 ∷ 200 ∷ 300 ∷ []))
        × Represents k [])
enumerate_lem_example = enumerate_lem three (100 ∷ 200 ∷ 300 ∷ []) three-Represents
