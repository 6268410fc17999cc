-- ===== src/Vbfs/Volumes/Locate.antt =====
-- The numbering of the files over the devices.
use mathlib.Core.List.{append_assoc}
use vorder.Base.{
  ℕ, ◌+◌, ◌-◌, ◌%◌, ◌^◌, ◌≤◌, ◌<◌, ◌≡◌, refl, sym, ap, ◌∙◌, true, none, some, List, [], ◌∷◌, ◌++◌,
  arith,
}
use vorder.Vbfs.Device.{IoResult, ok, disk_full}
use vorder.Vbfs.Volumes.{VbfsImpl, Offer, opened, read_file, allocat_last, allocat}

module _ (impl : VbfsImpl) (t : ℕ) where
  abbrev num : impl.State → ℕ
  num d = impl.get_aloc_logic_file_num t d

  -- The files of type `t` on all devices of a list.
  unfoldable pub total : List impl.State → ℕ
  total [] = 0
  total (d ∷ ds) = num d + total ds

  pub total-append : (ds es : List impl.State) → total (ds ++ es) ≡ total ds + total es
  unfolding total
  total-append [] es = omega arith
  total-append (d ∷ ds) es = omega (arith, total-append ds es)

  -- Read takes a file from the device whose files it is counted among, under its number there.
  pub read_file-append :
      (id size offset : ℕ) (before behind : List impl.State) (d : impl.State)
      → total before ≤ id
      → id < total before + num d
      → read_file impl t id size offset (before ++ d ∷ behind)
        ≡ some (impl.read t (id - total before) size offset d)
  unfolding read_file total
  read_file-append id size offset [] behind d low high =
      let e : id - 0 ≡ id = omega arith in
      ground (arith, ap (λ (k : ℕ). impl.read t k size offset d) e)
  read_file-append id size offset (b ∷ before) behind d low high =
      let rest =
        read_file-append (id - num b) size offset before behind d (omega arith) (omega arith) in
      let e : id - (num b + total before) ≡ id - num b - total before = omega arith in
      ground (arith, rest, ap (λ (k : ℕ). impl.read t k size offset d) e)

  -- A file that is on no device is looked for behind the last one.
  pub read_file_missing :
      (id size offset : ℕ) (ds : List impl.State)
      → total ds ≤ id
      → read_file impl t id size offset ds ≡ none
  unfolding read_file total
  read_file_missing id size offset [] h = refl
  read_file_missing id size offset (d ∷ ds) h =
      ground (arith, read_file_missing (id - num d) size offset ds)

  -- AllocatFile reaches the last device with the id less the files before it.
  pub allocat_last-append :
      (id : ℕ) (before : List impl.State) (d : impl.State)
      → total before ≤ id
      → id < 2 ^ 32
      → allocat_last impl t id (before ++ d ∷ [])
        ≡ some (
          before ++ (impl.allocat_file t (id - total before) d).0 ∷ [],
          (impl.allocat_file t (id - total before) d).1,
        )
  unfolding allocat_last total
  allocat_last-append id [] d low high =
      ap (λ (k : ℕ). some ((impl.allocat_file t k d).0 ∷ [], (impl.allocat_file t k d).1))
        (omega arith)
  allocat_last-append id (b ∷ []) d low high =
      let seg : (id + (2 ^ 32 - num b)) % 2 ^ 32 ≡ id - (num b + 0) = omega arith in
      ap (λ (k : ℕ). some (b ∷ (impl.allocat_file t k d).0 ∷ [], (impl.allocat_file t k d).1)) seg
  allocat_last-append id (b ∷ c ∷ before) d low high =
      let seg : (id + (2 ^ 32 - num b)) % 2 ^ 32 ≡ id - num b = omega arith in
      let rest = allocat_last-append (id - num b) (c ∷ before) d (omega arith) (omega arith) in
      let all : (k : ℕ)
          → k ≡ id - num b
          → allocat_last impl t k (c ∷ before ++ d ∷ [])
            ≡ some (
              (c ∷ before) ++ (impl.allocat_file t (id - num b - total (c ∷ before)) d).0 ∷ [],
              (impl.allocat_file t (id - num b - total (c ∷ before)) d).1,
            ) =
        λ k e. ap (λ (m : ℕ). allocat_last impl t m (c ∷ before ++ d ∷ [])) e ∙ rest in
      let less : id - num b - (num c + total before) ≡ id - (num b + (num c + total before)) =
        omega arith in
      ground (arith, all _ seg, ap (λ (k : ℕ). impl.allocat_file t k d) less)

  -- What the last device answers for its next file.
  allocat_last_next :
      (before : List impl.State) (d e : impl.State) (r : IoResult)
      → total before + num d < 2 ^ 32
      → impl.allocat_file t (num d) d ≡ (e, r)
      → allocat_last impl t (total (before ++ d ∷ [])) (before ++ d ∷ [])
        ≡ some (before ++ e ∷ [], r)
  unfolding total
  allocat_last_next before d e r small done =
      let id : total (before ++ d ∷ []) ≡ total before + num d =
        omega (arith, total-append before (d ∷ [])) in
      let seg : total (before ++ d ∷ []) - total before ≡ num d = omega (arith, id) in
      allocat_last-append (total (before ++ d ∷ [])) before d (omega (arith, id))
        (omega (arith, id))
      ∙ ap (λ (x : impl.State × IoResult). some (before ++ x.0 ∷ [], x.1))
          (ap (λ (k : ℕ). impl.allocat_file t k d) seg ∙ done)

  allocat_done :
      (id : ℕ) (offers : List (Offer impl.State)) (ds es : List impl.State)
      → allocat_last impl t id ds ≡ some (es, ok)
      → allocat impl t id offers ds ≡ some (es, true)
  unfolding allocat
  allocat_done id [] ds es h = ground arith
  allocat_done id (o ∷ os) ds es h = ground arith

  -- AllocatFile of the next file, the last device being `d`: where `d` takes it, it is there
  -- afterwards, as the last of its files, and every other device is as it was.
  pub allocat-ok :
      (before : List impl.State) (d e : impl.State) (offers : List (Offer impl.State))
      → total before + num d < 2 ^ 32
      → impl.allocat_file t (num d) d ≡ (e, ok)
      → num e ≡ num d + 1
      → (allocat impl t (total (before ++ d ∷ [])) offers (before ++ d ∷ [])
          ≡ some (before ++ e ∷ [], true))
        × (total (before ++ e ∷ []) ≡ total (before ++ d ∷ []) + 1)
        × ((size offset : ℕ)
            → read_file impl t (total (before ++ d ∷ [])) size offset (before ++ e ∷ [])
              ≡ some (impl.read t (num d) size offset e))
  unfolding total
  allocat-ok before d e offers small done more =
      let id = total (before ++ d ∷ []) in
      let sum : id ≡ total before + num d = omega (arith, total-append before (d ∷ [])) in
      let k : id - total before ≡ num d = omega (arith, sum) in
      (
        allocat_done id offers (before ++ d ∷ []) (before ++ e ∷ [])
            (allocat_last_next before d e ok small done),
        omega (arith, sum, total-append before (e ∷ [])),
        λ size offset.
            read_file-append id size offset before [] e (omega (arith, sum)) (omega (arith, sum))
            ∙ ap (λ (m : ℕ). some (impl.read t m size offset e)) k,
      )

  -- Where the last device is full, the next one that is offered, still without files of the type,
  -- takes the file as its first.
  pub allocat-full :
      (before : List impl.State) (d e f : impl.State) (offers : List (Offer impl.State))
      → total before + num d < 2 ^ 32
      → impl.allocat_file t (num d) d ≡ (d, disk_full)
      → num e ≡ 0
      → impl.allocat_file t 0 e ≡ (f, ok)
      → num f ≡ 1
      → (allocat impl t (total (before ++ d ∷ [])) (opened e ∷ offers) (before ++ d ∷ [])
          ≡ some (before ++ d ∷ f ∷ [], true))
        × ((size offset : ℕ)
            → read_file impl t (total (before ++ d ∷ [])) size offset (before ++ d ∷ f ∷ [])
              ≡ some (impl.read t 0 size offset f))
  unfolding allocat total
  allocat-full before d e f offers small full none_yet done one =
      let id = total (before ++ d ∷ []) in
      let sum : id ≡ total before + num d = omega (arith, total-append before (d ∷ [])) in
      let joined : (x : impl.State) → (before ++ d ∷ []) ++ x ∷ [] ≡ before ++ d ∷ x ∷ [] =
        λ x. append_assoc before (d ∷ []) (x ∷ []) in
      let all : total ((before ++ d ∷ []) ++ e ∷ []) ≡ id =
        omega (arith, total-append (before ++ d ∷ []) (e ∷ [])) in
      let first : impl.allocat_file t (num e) e ≡ (f, ok) = rw none_yet done in
      let next = allocat_last_next (before ++ d ∷ []) e f ok (omega (arith, sum)) first in
      let next' : allocat impl t id offers ((before ++ d ∷ []) ++ e ∷ [])
          ≡ some ((before ++ d ∷ []) ++ f ∷ [], true) =
        allocat_done id offers _ _
          (ap (λ (m : ℕ). allocat_last impl t m ((before ++ d ∷ []) ++ e ∷ [])) (sym all) ∙ next) in
      let step = allocat_last_next before d d disk_full small full in
      let k : id - id ≡ 0 = omega arith in
      (
        ground (arith, step, next', joined f),
        λ size offset.
            ap (λ (l : List impl.State). read_file impl t id size offset l) (sym (joined f))
            ∙ read_file-append id size offset (before ++ d ∷ []) [] f (omega arith)
                (omega (arith, one))
            ∙ ap (λ (m : ℕ). some (impl.read t m size offset f)) k,
      )
