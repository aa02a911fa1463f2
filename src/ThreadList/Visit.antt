-- ===== src/ThreadList/Visit.antt =====
-- What `Enumerate` and `EnumerateConst` of kernel/src/Scheduling/ThreadList.cpp visit.
use frosty_os.Prelude.{
  ℕ, suc, ◌≡◌, refl, sym, false, List, [], ◌∷◌, ◌++◌, append-nil, append_assoc, length, ◌==◌,
  Outcome, done, ap, subst, ◌∙◌,
}
use frosty_os.ThreadList.{ThreadList, remove}
use frosty_os.ThreadList.Chain.{head_or, Chain, Represents}
use frosty_os.ThreadList.Remove.{remove_lem}
use frosty_os.ThreadList.Walk.{
  IteratorDecision, continue, delete, enumerate_from, enumerate, enumerate_const_from,
  enumerate_const,
}

-- A callback that notes each thread and goes on, and one that also has it removed.
abbrev pub note : ℕ → List ℕ → IteratorDecision × List ℕ
note t seen = (continue, seen ++ t ∷ [])

abbrev pub note_delete : ℕ → ThreadList → List ℕ → IteratorDecision × ThreadList × List ℕ
note_delete t l seen = (delete, l, seen ++ t ∷ [])

note-from :
    (l : ThreadList) (p : ℕ) (xs seen : List ℕ)
    → Chain l.threads p xs
    → enumerate_const_from note (length xs) (head_or 0 xs) l seen ≡ seen ++ xs
unfolding enumerate_const_from
note-from l p [] seen c = sym (append-nil seen)
note-from l p (x ∷ xs) seen c =
    rw (c.2, c.1) (note-from l x xs (seen ++ x ∷ []) c.4 ∙ append_assoc seen (x ∷ []) xs)

abbrev paired : ThreadList → List ℕ → Outcome (ThreadList × List ℕ)
paired l seen = done (l, seen)

delete-step :
    (l k : ThreadList) (x n rounds : ℕ) (seen : List ℕ)
    → (x == 0) ≡ false
    → (l.threads x).next ≡ n
    → remove l x ≡ done k
    → enumerate_from note_delete (suc rounds) x l seen
      ≡ enumerate_from note_delete rounds n k (seen ++ x ∷ [])
unfolding enumerate_from
delete-step l k x n rounds seen hx hn e = rw (enumerate_from, hx, e, hn) refl

delete-from :
    (l : ThreadList) (xs seen : List ℕ)
    → Represents l xs
    → (k : ThreadList) × (enumerate_from note_delete (length xs) (head_or 0 xs) l seen
        ≡ done (k, seen ++ xs))
      × Represents k []
unfolding enumerate_from
delete-from l [] seen r = (l, ap (paired l) (sym (append-nil seen)), r)
delete-from l (x ∷ xs) seen r =
    let (k, e, rk) = remove_lem l x [] xs r in
    let (j, e', rj) = delete-from k xs (seen ++ x ∷ []) rk in
    (
      j,
      delete-step l k x (head_or 0 xs) (length xs) seen (r.chain.2) (r.chain.1) e
          ∙ (e' ∙ ap (paired j) (append_assoc seen (x ∷ []) xs)),
      rj,
    )

-- What holds of the length and the front of the threads holds of the fields.
visited :
    (P : ℕ → ℕ → Type 0) (l : ThreadList) (xs : List ℕ)
    → Represents l xs
    → P (length xs) (head_or 0 xs)
    → P l.count l.head
visited P l xs r h =
    subst (λ c. P c l.head) (sym r.counted) (subst (λ d. P (length xs) d) (sym r.first) h)

-- On a list that represents threads, `EnumerateConst` with a callback that goes on visits each thread
-- once, from the front to the back; `Enumerate` with a callback that has each removed visits them in
-- the same order, passes every assertion, and leaves the list empty.
pub enumerate_lem :
    (l : ThreadList) (xs : List ℕ)
    → Represents l xs
    → (enumerate_const note l [] ≡ xs)
      × ((k : ThreadList) × (enumerate note_delete l [] ≡ done (k, xs)) × Represents k [])
unfolding enumerate enumerate_const
enumerate_lem l xs r = (
  visited (λ c h. enumerate_const_from note c h l [] ≡ xs) l xs r (note-from l 0 xs [] r.chain),
  visited
      (λ c h.
        (k : ThreadList) × (enumerate_from note_delete c h l [] ≡ done (k, xs)) × Represents k [])
      l xs r (delete-from l xs [] r),
)
