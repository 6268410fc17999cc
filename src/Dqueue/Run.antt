-- ===== src/Dqueue/Run.antt =====
-- The queue against its specification, a list of nodes, over whole runs of operations.
use mathlib.Core.Path.{subst}
use vorder.Base.{
  ℕ, ◌≡◌, refl, sym, ap, ◌∙◌, true, false, Option, none, some, List, [], ◌∷◌, ◌++◌, if◌then◌else◌,
  ◌==◌, arith, Bool-cases, inl, inr, ==_iff,
}
use vorder.Dqueue.{Dqueue, push_front, push_back, pop_front, pop_back, insert, erase}
use vorder.Dqueue.Links.{has, first_or, last_or, after, IsQueue, after-append}
use vorder.Dqueue.Refines.{
  push_front-IsQueue, push_back-IsQueue, pop_front-IsQueue, pop_back-IsQueue, insert-IsQueue,
  erase-IsQueue, erase_absent,
}

-- The calls that change a queue.
pub data Op : Type 0 where
  front : ℕ → Op
  back : ℕ → Op
  take_front take_back : Op
  in_front : ℕ → ℕ → Op
  remove : ℕ → Op

-- The new queue and the returned pointer, none for a dereference of NULL.
unfoldable pub call : Op → Dqueue → Option (Dqueue × Option ℕ)
unfolding push_front push_back pop_front pop_back insert erase
call (front n) d = some (push_front n d, none)
call (back n) d = some (push_back n d, none)
call take_front d = some (pop_front d)
call take_back d = some (pop_back d)
call (in_front n o) d = elim (insert n o d) [ none ↦ none | some e ↦ some (e, none) ]
call (remove n) d = some (erase n d)

abbrev init : List ℕ → List ℕ
init [] = []
init (x ∷ []) = []
init (x ∷ y ∷ xs) = x ∷ init (y ∷ xs)

abbrev rest : List ℕ → List ℕ
rest [] = []
rest (x ∷ xs) = xs

-- `n` in front of the node `o`.
unfoldable pub put_before : ℕ → ℕ → List ℕ → List ℕ
put_before n o [] = []
put_before n o (x ∷ xs) = if x == o then n ∷ x ∷ xs else x ∷ put_before n o xs

unfoldable pub delete : ℕ → List ℕ → List ℕ
delete n [] = []
delete n (x ∷ xs) = if x == n then xs else x ∷ delete n xs

-- What each call does to the list of nodes, and returns.
unfoldable pub spec : Op → List ℕ → List ℕ × Option ℕ
unfolding put_before delete after
spec (front n) xs = (n ∷ xs, none)
spec (back n) xs = (xs ++ n ∷ [], none)
spec take_front xs = (rest xs, first_or none xs)
spec take_back xs = (init xs, last_or none xs)
spec (in_front n o) xs = (put_before n o xs, none)
spec (remove n) xs = (delete n xs, after none n xs)

-- A node is not queued twice, and a node is inserted in front of a queued one.
abbrev pub Allowed : Op → List ℕ → Type 0
Allowed (front n) xs = has n xs ≡ false
Allowed (back n) xs = has n xs ≡ false
Allowed take_front xs = Unit {0}
Allowed take_back xs = Unit {0}
Allowed (in_front n o) xs = (has n xs ≡ false) × (has o xs ≡ true)
Allowed (remove n) xs = Unit {0}

init-append :
    (x : ℕ) (xs : List ℕ)
    → (b : ℕ) × (x ∷ xs ≡ init (x ∷ xs) ++ b ∷ []) × (last_or (some x) xs ≡ some b)
init-append x [] = (x, refl, refl)
init-append x (y ∷ xs) = let (b, e, l) = init-append y xs in (b, ap (◌∷◌ x) e, l)

-- A list with `n` in it, split there.
split_at :
    (n : ℕ) (xs : List ℕ)
    → has n xs ≡ true
    → (ys zs : List ℕ) × (xs ≡ ys ++ n ∷ zs) × (has n ys ≡ false)
split_at n [] h = absurd (cc)
split_at n (x ∷ xs) h = elim (Bool-cases (x == n)) [
  | inl e ↦ ([], xs, ap (λ (y : ℕ). y ∷ xs) ((==_iff x n).0 e), refl)
  | inr e ↦
      let (ys, zs, s, out) = split_at n xs (ground arith) in
      (x ∷ ys, zs, ap (◌∷◌ x) s, ground arith)
]

put_before-append :
    (n o : ℕ) (ys zs : List ℕ) → has o ys ≡ false → put_before n o (ys ++ o ∷ zs) ≡ ys ++ n ∷ o ∷ zs
unfolding put_before
put_before-append n o [] zs h = ground arith
put_before-append n o (y ∷ ys) zs h = ground (arith, put_before-append n o ys zs)

delete-append : (n : ℕ) (ys zs : List ℕ) → has n ys ≡ false → delete n (ys ++ n ∷ zs) ≡ ys ++ zs
unfolding delete
delete-append n [] zs h = ground arith
delete-append n (y ∷ ys) zs h = ground (arith, delete-append n ys zs)

after_split :
    (n : ℕ) (ys zs : List ℕ) → has n ys ≡ false → after none n (ys ++ n ∷ zs) ≡ first_or none zs
unfolding after
after_split n ys zs h = ground (arith, after-append none n ys (n ∷ zs))

-- The call succeeds, and its queue and result are those of the specification.
abbrev Simulates : Op → List ℕ → Dqueue → Type 0
Simulates op xs d = (e : Dqueue) × (call op d ≡ some (e, (spec op xs).1)) × IsQueue (spec op xs).0 e

absent : (n : ℕ) (xs : List ℕ) → has n xs ≡ false → (delete n xs ≡ xs) × (after none n xs ≡ none)
unfolding delete after
absent n [] h = (refl, refl)
absent n (x ∷ xs) h = (ground (arith, absent n xs), ground (arith, absent n xs))

call-Simulates :
    (op : Op) (xs : List ℕ) (d : Dqueue) → IsQueue xs d → Allowed op xs → Simulates op xs d
unfolding call spec
call-Simulates (front n) xs d q h = (push_front n d, refl, push_front-IsQueue n d xs q h)
call-Simulates (back n) xs d q h = (push_back n d, refl, push_back-IsQueue n d xs q h)
call-Simulates take_front [] d q h = let f = q.front_eq in (d, unfold pop_front in ground arith, q)
call-Simulates take_front (x ∷ xs) d q h =
    let (r, e) = pop_front-IsQueue x d xs q in ((pop_front d).0, ground (arith, r), e)
call-Simulates take_back [] d q h = let f = q.back_eq in (d, unfold pop_back in ground arith, q)
call-Simulates take_back (x ∷ xs) d q h =
    let (b, s, l) = init-append x xs in
    let (r, e) = pop_back-IsQueue b d (init (x ∷ xs)) (subst (λ (ys : List ℕ). IsQueue ys d) s q) in
    ((pop_back d).0, ground (arith, r), e)
call-Simulates (in_front n o) xs d q h =
    let (ys, zs, s, out) = split_at o xs h.1 in
    let q' = subst (λ (l : List ℕ). IsQueue l d) s q in
    let absent' : has n (ys ++ o ∷ zs) ≡ false = ap (has n) (sym s) ∙ h.0 in
    let (e, i, k) = insert-IsQueue n d o ys zs q' absent' in
    let result : put_before n o xs ≡ ys ++ n ∷ o ∷ zs =
      ap (put_before n o) s ∙ put_before-append n o ys zs out in
    (e, ground (arith, i), rw result k)
call-Simulates (remove n) xs d q h = elim (Bool-cases (has n xs)) [
  | inr out ↦
      let (same, last) = absent n xs out in
      (d, ap some (erase_absent n d xs q out ∙ ap (λ (r : Option ℕ). (d, r)) (sym last)), rw same q)
  | inl there ↦
      let (ys, zs, s, out) = split_at n xs there in
      let q' = subst (λ (l : List ℕ). IsQueue l d) s q in
      let (r, e) = erase-IsQueue n d ys zs q' in
      let result : delete n xs ≡ ys ++ zs = ap (delete n) s ∙ delete-append n ys zs out in
      let next : after none n xs ≡ first_or none zs =
        ap (after none n) s ∙ after_split n ys zs out in
      ((erase n d).0, ground (arith, r, next), rw result e)
]

-- A run of calls, with what they returned.
unfoldable pub run : List Op → Dqueue → Option (Dqueue × List (Option ℕ))
unfolding call
run [] d = some (d, [])
run (op ∷ ops) d = elim (call op d) [
  | none ↦ none
  | some (e, r) ↦ elim (run ops e) [ none ↦ none | some (f, rs) ↦ some (f, r ∷ rs) ]
]

unfoldable pub spec_run : List Op → List ℕ → List ℕ × List (Option ℕ)
unfolding spec
spec_run [] xs = (xs, [])
spec_run (op ∷ ops) xs = let (ys, r) = spec op xs in let (zs, rs) = spec_run ops ys in (zs, r ∷ rs)

-- Every call is allowed on the list that the calls before it leave.
unfoldable pub AllAllowed : List Op → List ℕ → Type 0
AllAllowed [] xs = Unit {0}
AllAllowed (op ∷ ops) xs = Allowed op xs × AllAllowed ops (spec op xs).0

-- A run of PushFront, PushBack, PopFront, PopBack, Insert and Erase on a queue that links the nodes
-- `xs`, in which no node is queued twice and Insert is given a queued node: no NULL is
-- dereferenced, every call returns what the specification on lists returns, and the queue then links
-- the nodes of the specification's list.
pub run-IsQueue :
    (ops : List Op) (xs : List ℕ) (d : Dqueue)
    → IsQueue xs d
    → AllAllowed ops xs
    → (e : Dqueue) × (run ops d ≡ some (e, (spec_run ops xs).1)) × IsQueue (spec_run ops xs).0 e
unfolding run spec_run AllAllowed
run-IsQueue [] xs d q h = (d, refl, q)
run-IsQueue (op ∷ ops) xs d q h =
    let (e, c, k) = call-Simulates op xs d q h.0 in
    let (f, r, l) = run-IsQueue ops (spec op xs).0 e k h.1 in (f, ground (arith, c, r), l)
