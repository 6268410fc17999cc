-- ===== src/Storage/MultiUpdate/Pack.antt =====
-- PackModify and RollbackUnpackCache: a transaction's changes are kept as a package, or undone.
use vorder.Base.{
  ℕ, suc, ◌≡◌, refl, sym, ◌∙◌, false, Option, none, some, List, [], ◌∷◌, ◌++◌, if◌then◌else◌, ◌==◌,
  length, length-append, arith, Option-cases, Bool-cases, inl, inr,
}
use vorder.Storage.PageStore.{PageStore}
use vorder.Storage.Cache.{Page, Cache, find, release_page}
use vorder.Storage.Cache.Pages.{
  Distinct, find-set_page, Distinct-set_page, find-page_id, Distinct-erase, find-erase_self,
  find-erase_ne,
}
use vorder.Storage.Cache.View.{view, view-clean, cached_dirty}
use vorder.Storage.MultiUpdate.{
  Table, Package, CodecPage, find_codec, insert_codec, find_packed, read_page, to_codec, pack_page,
  pack_pages, pack_modify, release_pages, rollback_unpack_cache,
}
use vorder.Storage.MultiUpdate.View.{has, IsPackage, ArePackages-append, backing, content, IsTable}

-- The content that a package, or a list of pages, has for a page id.
packed : ℕ → Package → Option (List ℕ)
packed i m = elim (find_codec i m) [ some q ↦ some q.page_data | none ↦ none ]

cached : ℕ → List Page → Option (List ℕ)
cached i pages = elim (find i pages) [ some p ↦ some p.content | none ↦ none ]

find_codec-append :
    (i : ℕ) (m : Package) (p : CodecPage)
    → find_codec i (m ++ p ∷ [])
      ≡ elim (find_codec i m) [ some q ↦ some q | none ↦ if p.page_id == i then some p else none ]
unfolding find_codec
find_codec-append i [] p = refl
find_codec-append i (q ∷ m) p = ground (arith, find_codec-append i m p)

find_codec-insert :
    (i : ℕ) (p : CodecPage) (m : Package)
    → find_codec i (insert_codec p m)
      ≡ elim (find_codec i m) [ some q ↦ some q | none ↦ if p.page_id == i then some p else none ]
unfolding insert_codec
find_codec-insert i p m = ground (arith, find_codec-append i m p)

IsPackage-append :
    (k : ℕ) (p : CodecPage) (m : Package)
    → find_codec p.page_id m ≡ none
    → length p.page_data ≡ k
    → IsPackage k m
    → IsPackage k (m ++ p ∷ [])
unfolding find_codec
IsPackage-append k p [] n l h = (refl, l, tt)
IsPackage-append k p (q ∷ m) n l h = (
  ground (arith, find_codec-append q.page_id m p),
  h.1,
  IsPackage-append k p m (ground arith) l h.2,
)

insert_codec-IsPackage :
    (k : ℕ) (p : CodecPage) (m : Package)
    → length p.page_data ≡ k
    → IsPackage k m
    → IsPackage k (insert_codec p m)
unfolding insert_codec
insert_codec-IsPackage k p m l h = elim (Option-cases (find_codec p.page_id m)) [
  | inl e ↦ rw (e, insert_codec) (IsPackage-append k p m e l h)
  | inr (q, e) ↦ rw (e, insert_codec) h
]

find_packed-append :
    (i : ℕ) (ms : List Package) (m : Package)
    → find_packed i (ms ++ m ∷ [])
      ≡ elim (find_codec i m) [ some q ↦ some q | none ↦ find_packed i ms ]
unfolding find_packed
find_packed-append i [] m = ground arith
find_packed-append i (n ∷ ms) m = ground (arith, find_packed-append i ms m)

module _ (ps : PageStore) where
  -- What packing the pages `is` does to the package and to the cached pages.
  record Packs (is : List ℕ) (m n : Package) (pages qages : List Page) : Type 0 where
    distinct : Distinct qages
    kept : (j : ℕ) → cached j qages ≡ cached j pages
    cleaned : (j : ℕ) → cached_dirty j qages ≡ (if has j is then false else cached_dirty j pages)
    gained :
        (j : ℕ)
        → packed j n
          ≡ elim (packed j m) [ some c ↦ some c | none ↦ if has j is then cached j pages else none ]
    formed :
        (k : ℕ)
        → ((j : ℕ) (p : Page) → find j pages ≡ some p → length p.content ≡ k)
        → IsPackage k m
        → IsPackage k n
    sized :
        (k : ℕ)
        → ((j : ℕ) (p : Page) → find j pages ≡ some p → length p.content ≡ k)
        → (j : ℕ) (p : Page) → find j qages ≡ some p
        → length p.content ≡ k

  pack_page-Packs :
      (i : ℕ) (m : Package) (pages : List Page)
      → Distinct pages
      → Packs (i ∷ []) m (pack_page ps i (m, pages)).0 pages (pack_page ps i (m, pages)).1
  unfolding pack_page to_codec cached packed cached_dirty has
  pack_page-Packs i m pages d = elim (Option-cases (find i pages)) [
    | inl e ↦
        rw (e, pack_page)
          (record {
            distinct = d;
            kept = λ j. refl;
            cleaned = λ j. ground arith;
            gained = λ j. ground arith;
            formed = λ k f h. h;
            sized = λ k f. f;
          })
    | inr (p, e) ↦
        let q : Page = record p { is_dirty = false; is_new = false } in
        let at = find-page_id i pages p e in
        rw (e, pack_page)
          (record {
            distinct = Distinct-set_page q pages d;
            kept = λ j. ground (arith, find-set_page j q pages, find-page_id j pages p, at, e);
            cleaned = λ j. ground (arith, find-set_page j q pages, at, e);
            gained = λ j. ground (arith, find_codec-insert j (to_codec ps p) m, at, e);
            formed = λ k f h. insert_codec-IsPackage k (to_codec ps p) m (f i p e) h;
            sized = λ k f j r g. ground (arith, find-set_page j q pages, f i p e, f j r);
          })
  ]

  pack_pages-Packs :
      (is : List ℕ) (m : Package) (pages : List Page)
      → Distinct pages
      → Packs is m (pack_pages ps is (m, pages)).0 pages (pack_pages ps is (m, pages)).1
  unfolding pack_pages has
  pack_pages-Packs [] m pages d = record {
    distinct = d;
    kept = λ j. refl;
    cleaned = λ j. refl;
    gained = λ j. ground arith;
    formed = λ k f h. h;
    sized = λ k f. f;
  }
  pack_pages-Packs (i ∷ is) m pages d =
      let (n, qages) = pack_page ps i (m, pages) in
      let a = pack_page-Packs i m pages d in
      let b = pack_pages-Packs is n qages a.distinct in
      record {
        distinct = b.distinct;
        kept = λ j. b.kept j ∙ a.kept j;
        cleaned = λ j. b.cleaned j ∙ ground (arith, a.cleaned j);
        gained = λ j. b.gained j ∙ ground (arith, a.gained j, a.kept j);
        formed = λ k f h. b.formed k (a.sized k f) (a.formed k f h);
        sized = λ k f. b.sized k (a.sized k f);
      }

  -- PackModify keeps a well-formed table well-formed and leaves what it shows as it was, makes exactly
  -- that the state behind the cache, adds one package, and leaves no dirty page listed.
  pub pack_modify-keeps :
      (t : Table ps.State)
      → IsTable ps t
      → IsTable ps (pack_modify ps t)
        × ((j : ℕ) → content ps (pack_modify ps t) j ≡ content ps t j)
        × ((j : ℕ) → backing ps (pack_modify ps t) j ≡ content ps t j)
        × (length (pack_modify ps t).packages ≡ suc (length t.packages))
        × ((pack_modify ps t).cur_dirty ≡ [])
  unfolding pack_modify read_page view cached packed cached_dirty has
  pack_modify-keeps t h =
      let w = pack_pages-Packs t.cur_dirty [] t.cache.pages h.coherent.distinct in
      let m : Package = (pack_pages ps t.cur_dirty ([], t.cache.pages)).0 in
      let qages : List Page = (pack_pages ps t.cur_dirty ([], t.cache.pages)).1 in
      let behind : (j : ℕ)
          → read_page ps (t.packages ++ m ∷ []) t.store j ≡ view (backing ps t) t.cache.pages j =
        λ j. elim (Bool-cases (has j t.cur_dirty)) [
          | inl d ↦ ground (arith, find_packed-append j t.packages m, w.gained j, h.dirty j, d)
          | inr d ↦ ground (
            arith,
            find_packed-append j t.packages m,
            w.gained j,
            d,
            view-clean (backing ps t) t.cache.pages j h.coherent (sym (h.dirty j) ∙ d),
          )
        ] in
      let shown : (j : ℕ)
          → view (read_page ps (t.packages ++ m ∷ []) t.store) qages j
            ≡ view (backing ps t) t.cache.pages j =
        λ j. ground (arith, w.kept j, behind j) in
      (
        record {
          coherent = record {
            distinct = w.distinct;
            clean = λ j p f d. ground (arith, w.kept j, behind j, f);
          };
          dirty = λ j. ground (arith, w.cleaned j, h.dirty j);
          sized = λ j c e. h.sized j c (sym (shown j) ∙ e);
          packed_sized = λ j c e. h.sized j c (sym (behind j) ∙ e);
          packages_ok =
              ArePackages-append ps.page_size t.packages m h.packages_ok
                (w.formed ps.page_size (λ j p e. h.sized j p.content (ground arith)) tt);
          laid_out = h.laid_out;
          page_size_eq = h.page_size_eq;
        },
        shown,
        behind,
        omega (arith, length-append t.packages (m ∷ [])),
        refl,
      )

  release_pages-find :
      (is : List ℕ) (c : Cache)
      → Distinct c.pages
      → Distinct (release_pages ps is c).pages
        × ((j : ℕ)
            → find j (release_pages ps is c).pages ≡ (if has j is then none else find j c.pages))
  unfolding release_pages release_page has
  release_pages-find [] c d = (d, λ j. refl)
  release_pages-find (i ∷ is) c d =
      let r = release_pages-find is (release_page i c) (Distinct-erase i c.pages d) in
      (r.0, λ j. r.1 j ∙ ground (arith, find-erase_ne i j c.pages, find-erase_self i c.pages d))

  -- RollbackUnpackCache keeps a well-formed table well-formed; it then shows what is behind the cache.
  pub rollback-shows_backing :
      (t : Table ps.State)
      → IsTable ps t
      → IsTable ps (rollback_unpack_cache ps t)
        × ((j : ℕ) → content ps (rollback_unpack_cache ps t) j ≡ backing ps t j)
  unfolding rollback_unpack_cache view cached_dirty has
  rollback-shows_backing t h =
      let r = release_pages-find t.cur_dirty t.cache h.coherent.distinct in
      let shown : (j : ℕ)
          → view (backing ps t) (release_pages ps t.cur_dirty t.cache).pages j ≡ backing ps t j =
        λ j.
          ground (arith, r.1 j, h.dirty j, view-clean (backing ps t) t.cache.pages j h.coherent) in
      (
        record {
          coherent = record {
            distinct = r.0;
            clean = λ j p f d. ground (arith, r.1 j, h.coherent.clean j p);
          };
          dirty = λ j. ground (arith, r.1 j, h.dirty j);
          sized = λ j c e. h.packed_sized j c (sym (shown j) ∙ e);
          packed_sized = h.packed_sized;
          packages_ok = h.packages_ok;
          laid_out = h.laid_out;
          page_size_eq = h.page_size_eq;
        },
        shown,
      )
