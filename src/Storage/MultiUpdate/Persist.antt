-- ===== src/Storage/MultiUpdate/Persist.antt =====
-- SaveToLog, Persistence, CommitteTransaction and RedoByLog: the oldest package reaches the store.
use vorder.Base.{
  ℕ, suc, ◌≡◌, ◌≢◌, sym, ap, ◌∙◌, true, none, some, List, [], ◌∷◌, ◌==◌, ==_iff, length, arith,
  Option-cases, Bool-cases, inl, inr,
}
use vorder.Storage.PageStore.{PageStore}
use vorder.Storage.Cache.{find}
use vorder.Storage.Cache.View.{view}
use vorder.Storage.MultiUpdate.{
  Table, Package, CodecPage, LogCodec, find_codec, find_packed, read_page, write_pages,
  committe_transaction, persistence,
}
use vorder.Storage.MultiUpdate.View.{IsPackage, ArePackages, backing, content, IsTable}

-- What the iteration of an unordered_map does: it visits the entries, each once.
pub record IsOrder (order : Package → List CodecPage) : Type 0 where
  pub keeps : (n : ℕ) (m : Package) → IsPackage n m → IsPackage n (order m)
  pub same : (n : ℕ) (m : Package) (j : ℕ) → IsPackage n m → find_codec j (order m) ≡ find_codec j m

-- The page id `j` holds `c`, if anything is said of it.
abbrev Reads : (ps : PageStore) → ps.State → ℕ → List ℕ → Type 0
Reads ps s j c = ps.read_page s j ≡ some c

module _ (ps : PageStore) where
  -- Writing pages that all succeed stores each of them, and keeps the pages that can be read.
  pub write_pages-Reads :
      (l : List CodecPage) (s : ps.State) (j : ℕ)
      → IsPackage ps.page_size l
      → (write_pages ps l s).1 ≡ true
      → ((q : CodecPage) → find_codec j l ≡ some q → Reads ps (write_pages ps l s).0 j q.page_data)
        × ((c : List ℕ)
            → find_codec j l ≡ none
            → Reads ps s j c
            → Reads ps (write_pages ps l s).0 j c)
  unfolding write_pages find_codec
  write_pages-Reads [] s j h done = (λ q e. absurd (cc), λ c e r. r)
  write_pages-Reads (p ∷ l) s j h done =
      let s' : ps.State = (ps.write_page p.is_new p.page_id p.page_data s).0 in
      let ok : (ps.write_page p.is_new p.page_id p.page_data s).1 ≡ true = ground arith in
      let next : (write_pages ps l s').1 ≡ true = ground arith in
      let shape : (write_pages ps (p ∷ l) s).0 ≡ (write_pages ps l s').0 = ground arith in
      let w = write_pages-Reads l s' j h.2 next in
      elim (Bool-cases (p.page_id == j)) [
        | inl hit ↦
            let at = (==_iff p.page_id j).0 hit in
            (
              λ q e.
                  let same : p ≡ q = ground arith in
                  rw (shape, ← same)
                    (w.1 p.page_data (rw (← at) h.0)
                      (rw (← at) (ps.write_read s p.is_new p.page_id p.page_data h.1 ok))),
              λ c e r. absurd (ground arith),
            )
        | inr miss ↦
            let apart : p.page_id ≢ j = λ at. absurd (ground (arith, at, miss)) in
            (
              λ q e. rw shape (w.0 q (ground arith)),
              λ c e r. rw shape (
                  w.1 c (ground arith)
                    (ps.write_keeps s p.is_new p.page_id j p.page_data c h.1 ok apart r)),
            )
      ]

module _ (ps : PageStore) (order : Package → List CodecPage) (codec : LogCodec) where
  -- The oldest package.
  abbrev pub Front : Table ps.State → Package → Type 0
  Front t m = (ms : List Package) × (t.packages ≡ m ∷ ms)

  stored : Package → ps.State → ps.State
  stored m s = (write_pages ps (order m) s).0

  -- What the oldest package had in front of the store is in the store once it is written.
  read_page_stored :
      (m : Package) (ms : List Package) (s : ps.State) (j : ℕ) (c : List ℕ)
      → IsOrder order
      → IsPackage ps.page_size m
      → (write_pages ps (order m) s).1 ≡ true
      → read_page ps (m ∷ ms) s j ≡ some c
      → read_page ps ms (stored m s) j ≡ some c
  unfolding read_page find_packed stored
  read_page_stored m ms s j c o k done r =
      let w = write_pages-Reads ps (order m) s j (o.keeps ps.page_size m k) done in
      let same = o.same ps.page_size m j k in
      elim (Option-cases (find_packed j ms)) [
        | inr (q, e) ↦ ground (arith, e)
        | inl e ↦ elim (Option-cases (find_codec j m)) [
          | inl f ↦ ground (arith, e, f, w.1 c (same ∙ f))
          | inr (q, f) ↦ ground (arith, e, f, w.0 q (same ∙ f))
        ]
      ]

  -- Nothing comes into view but what the packages held or the store can read.
  read_page_sized :
      (m : Package) (ms : List Package) (s s' : ps.State) (j : ℕ) (c : List ℕ)
      → ((d : List ℕ) → read_page ps (m ∷ ms) s j ≡ some d → length d ≡ ps.page_size)
      → read_page ps ms s' j ≡ some c
      → length c ≡ ps.page_size
  unfolding read_page find_packed
  read_page_sized m ms s s' j c k r = elim (Option-cases (find_packed j ms)) [
    | inr (q, e) ↦ k c (ground arith)
    | inl e ↦ ps.read_size s' j c (ground arith)
  ]

  persistence_front :
      (t : Table ps.State) (m : Package) (ms : List Package)
      → t.packages ≡ m ∷ ms
      → (committe_transaction ps (persistence ps codec order t).0
          ≡ record t { packages = ms; store = stored m t.store })
        × ((persistence ps codec order t).1 ≡ (write_pages ps (order m) t.store).1)
  unfolding persistence committe_transaction stored
  persistence_front t m ms e = (ground arith, ground arith)

  -- CommitteTransaction after a Persistence that returned 0, on a well-formed table with an oldest
  -- package: the table is well-formed, one package is gone, and every page that the table showed is
  -- shown with the same content; the iteration over a package visits its pages, each once.
  pub committe-persistence :
      (t : Table ps.State) (m : Package)
      → IsOrder order
      → IsTable ps t
      → Front t m
      → (persistence ps codec order t).1 ≡ true
      → let d = committe_transaction ps (persistence ps codec order t).0 in
        IsTable ps d
        × ((j : ℕ) (c : List ℕ) → content ps t j ≡ some c → content ps d j ≡ some c)
        × (length t.packages ≡ suc (length d.packages))
  unfolding view
  committe-persistence t m o h (ms, e) done =
      let f = persistence_front t m ms e in
      let ok : ArePackages ps.page_size (m ∷ ms) = rw e at h.packages_ok in
      let wrote : (write_pages ps (order m) t.store).1 ≡ true = sym f.1 ∙ done in
      let forward : (j : ℕ) (c : List ℕ)
          → backing ps t j ≡ some c
          → read_page ps ms (stored m t.store) j ≡ some c =
        λ j c r.
          read_page_stored m ms t.store j c o ok.0 wrote
            (ap (λ (l : List Package). read_page ps l t.store j) (sym e) ∙ r) in
      let back : (j : ℕ) (c : List ℕ)
          → read_page ps ms (stored m t.store) j ≡ some c
          → length c ≡ ps.page_size =
        λ j c.
          read_page_sized m ms t.store (stored m t.store) j c (λ d r.
            h.packed_sized j d (ap (λ (l : List Package). read_page ps l t.store j) e ∙ r)) in
      rw f.0 (
        record {
          coherent = record {
            distinct = h.coherent.distinct;
            clean = λ i p g d. forward i p.content (h.coherent.clean i p g d);
          };
          dirty = h.dirty;
          sized = λ i c g. elim (Option-cases (find i t.cache.pages)) [
            | inl n ↦ back i c (ground arith)
            | inr (p, n) ↦ h.sized i c (ground arith)
          ];
          packed_sized = back;
          packages_ok = ok.1;
          laid_out = h.laid_out;
          page_size_eq = h.page_size_eq;
        },
        λ j c g. elim (Option-cases (find j t.cache.pages)) [
          | inl n ↦ ground (arith, n, forward j c)
          | inr (p, n) ↦ ground arith
        ],
        omega (arith, ap length e),
      )
