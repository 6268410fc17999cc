-- ===== src/Dqueue/Walk.antt =====
-- The walks over the links: GetAt, Size and IsNodeInQueue.
use vorder.Base.{
  ℕ, zero, suc, ◌+◌, ◌%◌, ◌^◌, ◌<◌, ◌≡◌, refl, true, none, some, List, [], ◌∷◌, if◌then◌else◌, ◌==◌,
  arith, length, get_elem?, ap, ◌∙◌, Bool-cases, inl, inr,
}
use vorder.Dqueue.{Dqueue, get_at_from, get_at, size_from, size, is_node_in_queue}
use vorder.Dqueue.Links.{
  has, Distinct, first_or, before, after, IsQueue, before_absent, after_absent,
}

-- From its first node, the links `d.next` run through the list to NULL.
abbrev Leads : Dqueue → List ℕ → Type 0
Leads d [] = Unit {0}
Leads d (x ∷ xs) = (d.next x ≡ first_or none xs) × Leads d xs

Leads_lem :
    (d : Dqueue) (xs : List ℕ)
    → Distinct xs
    → ((a : ℕ) → has a xs ≡ true → d.next a ≡ after none a xs)
    → Leads d xs
unfolding after
Leads_lem d [] dist h = tt
Leads_lem d (x ∷ xs) dist h =
    (ground (arith, h x), Leads_lem d xs dist.1 (λ a i. ground (arith, h a)))

IsQueue-Leads : (xs : List ℕ) (d : Dqueue) → IsQueue xs d → Leads d xs
IsQueue-Leads xs d q = Leads_lem d xs q.distinct (λ a _. q.next_eq a)

get_at_from_lem :
    (d : Dqueue) (i x : ℕ) (xs : List ℕ)
    → Leads d (x ∷ xs)
    → get_at_from d i (some x) ≡ some (get_elem? (x ∷ xs) i)
unfolding get_at_from
get_at_from_lem d zero x xs h = refl
get_at_from_lem d (suc i) x [] h = ground arith
get_at_from_lem d (suc i) x (y ∷ xs) h = ground (arith, get_at_from_lem d i y xs h.1)

-- GetAt on a queue of the nodes `xs` gives the node at the index, NULL behind the last one, and
-- dereferences NULL exactly where the queue is empty and the index is not 0.
pub get_at-IsQueue :
    (xs : List ℕ) (d : Dqueue) (i : ℕ)
    → IsQueue xs d
    → get_at d i
      ≡ (if length xs == 0 then if i == 0 then some none else none else some (get_elem? xs i))
unfolding get_at get_at_from
get_at-IsQueue [] d zero q = ap some q.front_eq
get_at-IsQueue [] d (suc i) q = ground (arith, q.front_eq)
get_at-IsQueue (x ∷ xs) d i q =
    ground (arith, q.front_eq, get_at_from_lem d i x xs (IsQueue-Leads (x ∷ xs) d q))

size_from_lem :
    (d : Dqueue) (xs : List ℕ) (fuel n : ℕ)
    → Leads d xs
    → length xs < fuel
    → n + length xs < 2 ^ 64
    → size_from fuel d n (first_or none xs) ≡ some (n + length xs)
unfolding size_from
size_from_lem d xs zero n h f b = elim f [ ]
size_from_lem d [] (suc fuel) n h f b = ground arith
size_from_lem d (x ∷ xs) (suc fuel) n h f b =
    let small : (n + 1) % 2 ^ 64 ≡ n + 1 = omega arith in
    rw (small, h.0)
      (size_from_lem d xs fuel (n + 1) h.1 (omega arith) (omega arith) ∙ ap some (omega arith))

-- Size's loop ends on every queue, in one round more than the queue has nodes, and counts the nodes,
-- of which there are less than 2 ^ 64.
pub size-IsQueue :
    (xs : List ℕ) (d : Dqueue) (fuel : ℕ)
    → IsQueue xs d
    → length xs < 2 ^ 64
    → length xs < fuel
    → size fuel d ≡ some (length xs)
unfolding size
size-IsQueue xs d fuel q b f =
    ap (size_from fuel d 0) q.front_eq
    ∙ size_from_lem d xs fuel 0 (IsQueue-Leads xs d q) f (omega arith)
    ∙ ap some (omega arith)

before_found : (p a : ℕ) (xs : List ℕ) → has a xs ≡ true → (b : ℕ) × (before (some p) a xs ≡ some b)
unfolding before
before_found p a [] h = absurd (cc)
before_found p a (x ∷ xs) h = elim (Bool-cases (x == a)) [
  | inl e ↦ (p, ground arith)
  | inr e ↦ let (b, r) = before_found x a xs (ground arith) in (b, ground arith)
]

-- IsNodeInQueue tells, for every object, whether it is one of the nodes that the queue links.
pub is_node_in_queue-IsQueue :
    (xs : List ℕ) (d : Dqueue) (a : ℕ) → IsQueue xs d → is_node_in_queue a d ≡ has a xs
unfolding is_node_in_queue before
is_node_in_queue-IsQueue [] d a q =
    ground (arith, q.front_eq, q.prev_eq a, q.next_eq a, after_absent none a [])
is_node_in_queue-IsQueue (x ∷ xs) d a q = elim (Bool-cases (has a xs)) [
  | inl h ↦
      let (b, r) = before_found x a xs h in ground (arith, q.front_eq, q.prev_eq a, q.distinct.0)
  | inr h ↦ ground (
    arith,
    q.front_eq,
    q.prev_eq a,
    q.next_eq a,
    before_absent (some x) a xs,
    after_absent none a (x ∷ xs),
  )
]
