-- ===== src/Dqueue/Refines.antt =====
-- Each operation of the queue on a queue whose nodes are known.
use vorder.Base.{ℕ, ◌≡◌, refl, false, none, some, List, [], ◌∷◌, ◌++◌, arith, ◌∙◌}
use mathlib.Core.List.{append-nil}
use mathlib.Core.Path.{subst}
use vorder.Dqueue.{Dqueue, update, push_front, push_back, pop_front, pop_back, insert, erase}
use vorder.Dqueue.Links.{
  has, first_or, last_or, before, after, IsQueue, has-append, before-append, after-append,
  before_absent, after_absent, last_or-append, has_last, has_first, Distinct-append_inv,
}
use vorder.Dqueue.Cut.{IsQueue-linked, IsQueue-cut}

last_or-some : (x : ℕ) (xs : List ℕ) → (b : ℕ) × (last_or (some x) xs ≡ some b)
last_or-some x [] = (x, refl)
last_or-some x (y ∷ xs) = last_or-some y xs

module _ (n : ℕ) (d : Dqueue) where
  pub push_front-IsQueue :
      (zs : List ℕ) → IsQueue zs d → has n zs ≡ false → IsQueue (n ∷ zs) (push_front n d)
  unfolding push_front
  push_front-IsQueue [] q out =
      let e = q.front_eq in
      IsQueue-linked [] [] n d (push_front n d) q out (ground arith) (ground arith)
        (λ a. ground arith) (λ a. ground arith)
  push_front-IsQueue (z ∷ zs) q out =
      let e = q.front_eq in
      IsQueue-linked [] (z ∷ zs) n d (push_front n d) q out (ground arith)
        (ground (arith, q.back_eq)) (λ a. ground (arith, has-append n (z ∷ []) zs))
        (λ a. ground arith)

  pub push_back-IsQueue :
      (ys : List ℕ) → IsQueue ys d → has n ys ≡ false → IsQueue (ys ++ n ∷ []) (push_back n d)
  unfolding push_back
  push_back-IsQueue [] q out =
      let e = q.back_eq in
      IsQueue-linked [] [] n d (push_back n d) q out (ground arith) (ground arith)
        (λ a. ground arith) (λ a. ground arith)
  push_back-IsQueue (y ∷ ys) q out =
      let e = q.back_eq in
      let (b, h) = last_or-some y ys in
      IsQueue-linked (y ∷ ys) [] n d (push_back n d) (rw (append-nil) q) (rw (append-nil) out)
        (ground (arith, q.front_eq)) (ground (arith, last_or-append (some y) ys (n ∷ [])))
        (λ a. ground arith) (λ a. ground (arith, has_last n y ys))

  pub pop_front-IsQueue :
      (zs : List ℕ) → IsQueue (n ∷ zs) d → ((pop_front d).1 ≡ some n) × IsQueue zs (pop_front d).0
  unfolding pop_front after
  pop_front-IsQueue [] q =
      let e = q.front_eq in
      let s = q.next_eq n in
      (
        ground arith,
        IsQueue-cut [] [] n d (pop_front d).0 q (ground arith) (ground arith) (λ a. ground arith)
            (λ a. ground arith),
      )
  pop_front-IsQueue (z ∷ zs) q =
      let e = q.front_eq in
      let s = q.next_eq n in
      (
        ground arith,
        IsQueue-cut [] (z ∷ zs) n d (pop_front d).0 q (ground arith) (ground (arith, q.back_eq))
            (λ a. ground arith) (λ a. ground arith),
      )

  pub pop_back-IsQueue :
      (ys : List ℕ)
      → IsQueue (ys ++ n ∷ []) d
      → ((pop_back d).1 ≡ some n) × IsQueue ys (pop_back d).0
  unfolding pop_back before
  pop_back-IsQueue [] q =
      let e = q.back_eq in
      let p = q.prev_eq n in
      (
        ground arith,
        IsQueue-cut [] [] n d (pop_back d).0 q (ground arith) (ground arith) (λ a. ground arith)
            (λ a. ground arith),
      )
  pop_back-IsQueue (y ∷ ys) q =
      let e : d.back ≡ some n = q.back_eq ∙ last_or-append (some y) ys (n ∷ []) in
      let (b, h) = last_or-some y ys in
      let apart = (Distinct-append_inv (y ∷ ys) (n ∷ []) q.distinct).2 in
      let p : d.prev n ≡ some b =
        ground (arith, q.prev_eq n, before-append none n (y ∷ ys) (n ∷ []), apart n) in
      let cut =
        IsQueue-cut (y ∷ ys) [] n d (pop_back d).0 q (ground (arith, q.front_eq))
          (ground (arith, append-nil ys)) (λ a. ground arith) (λ a. ground arith) in
      (ground arith, subst (λ l. IsQueue l (pop_back d).0) (append-nil (y ∷ ys)) cut)

  -- Insert in front of a node of the queue.
  pub insert-IsQueue :
      (o : ℕ) (ys zs : List ℕ)
      → IsQueue (ys ++ o ∷ zs) d
      → has n (ys ++ o ∷ zs) ≡ false
      → (e : Dqueue) × (insert n o d ≡ some e) × IsQueue (ys ++ n ∷ o ∷ zs) e
  unfolding insert before
  insert-IsQueue o [] zs q out =
      let e = q.front_eq in (push_front n d, ground arith, push_front-IsQueue (o ∷ zs) q out)
  insert-IsQueue o (y ∷ ys) zs q out =
      let (dy, dz, apart) = Distinct-append_inv (y ∷ ys) (o ∷ zs) q.distinct in
      let f = q.front_eq in
      let (b, h) = last_or-some y ys in
      let p : d.prev o ≡ some b =
        ground (arith, q.prev_eq o, before-append none o (y ∷ ys) (o ∷ zs), apart o) in
      let e : Dqueue = record d {
        next = update b (some n) (update n (some o) d.next);
        prev = update o (some n) (update n (some b) d.prev);
      } in
      (
        e,
        ground (arith, apart o),
        IsQueue-linked (y ∷ ys) (o ∷ zs) n d e q out f
            (ground (
              arith,
              q.back_eq,
              last_or-append none (y ∷ ys) (o ∷ zs),
              last_or-append none (y ∷ ys) (n ∷ o ∷ zs),
            ))
            (λ a. ground (arith, has-append n (y ∷ ys) (o ∷ zs)))
            (λ a. ground (arith, has-append n (y ∷ ys) (o ∷ zs), has_last n y ys)),
      )

  prev_at :
      (ys zs : List ℕ)
      → IsQueue (ys ++ n ∷ zs) d
      → (d.prev n ≡ last_or none ys) × (d.next n ≡ first_or none zs)
  unfolding before after
  prev_at ys zs q =
      let (dy, dz, apart) = Distinct-append_inv ys (n ∷ zs) q.distinct in
      (
        ground (arith, q.prev_eq n, before-append none n ys (n ∷ zs), apart n),
        ground (arith, q.next_eq n, after-append none n ys (n ∷ zs), apart n),
      )

  pub erase-IsQueue :
      (ys zs : List ℕ)
      → IsQueue (ys ++ n ∷ zs) d
      → ((erase n d).1 ≡ first_or none zs) × IsQueue (ys ++ zs) (erase n d).0
  unfolding erase
  erase-IsQueue [] [] q =
      let (p, s) = prev_at [] [] q in
      let f = q.front_eq in
      (
        ground arith,
        IsQueue-cut [] [] n d (erase n d).0 q (ground arith) (ground arith) (λ a. ground arith)
            (λ a. ground arith),
      )
  erase-IsQueue [] (z ∷ zs) q =
      let (p, s) = prev_at [] (z ∷ zs) q in
      (
        ground arith,
        IsQueue-cut [] (z ∷ zs) n d (erase n d).0 q (ground arith) (ground (arith, q.back_eq))
            (λ a. ground arith) (λ a. ground arith),
      )
  erase-IsQueue (y ∷ ys) [] q =
      let (p, s) = prev_at (y ∷ ys) [] q in
      let (b, h) = last_or-some y ys in
      (
        ground arith,
        IsQueue-cut (y ∷ ys) [] n d (erase n d).0 q (ground (arith, q.front_eq))
            (ground (arith, append-nil ys)) (λ a. ground arith) (λ a. ground arith),
      )
  erase-IsQueue (y ∷ ys) (z ∷ zs) q =
      let (p, s) = prev_at (y ∷ ys) (z ∷ zs) q in
      let (b, h) = last_or-some y ys in
      (
        ground arith,
        IsQueue-cut (y ∷ ys) (z ∷ zs) n d (erase n d).0 q (ground (arith, q.front_eq))
            (ground (
              arith,
              q.back_eq,
              last_or-append (some y) ys (n ∷ z ∷ zs),
              last_or-append (some y) ys (z ∷ zs),
            ))
            (λ a. ground arith) (λ a. ground arith),
      )

  -- A node that is not in the queue is left alone.
  pub erase_absent : (xs : List ℕ) → IsQueue xs d → has n xs ≡ false → erase n d ≡ (d, none)
  unfolding erase
  erase_absent xs q out = ground (
    arith,
    q.prev_eq n,
    q.next_eq n,
    q.front_eq,
    before_absent none n xs,
    after_absent none n xs,
    has_first n xs,
  )
