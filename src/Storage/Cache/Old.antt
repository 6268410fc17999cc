-- ===== src/Storage/Cache/Old.antt =====
-- The new-page mark of cached pages: GetPage brings no page with the mark into a cache without one.
use vorder.Base.{
  ℕ, ◌≡◌, false, inl, inr, Bool-cases, Option-cases, Option, some, List, [], ◌∷◌, ◌++◌, arith, ltb,
}
use vorder.Storage.Cache.{
  Page, Cache, find, erase, get_page, take_page, load_page, push_page, first_clean, release_page,
  enlarge,
}
use vorder.Storage.Cache.Pages.{
  Distinct, find-append, find-erase_ne, find-erase_self, find-first_clean,
}

-- No cached page is marked as new.
abbrev pub OldPages : List Page → Type 0
OldPages ps = (i : ℕ) (p : Page) → find i ps ≡ some p → p.is_new ≡ false

OldPages-erase : (i : ℕ) (ps : List Page) → Distinct ps → OldPages ps → OldPages (erase i ps)
OldPages-erase i ps d h j p f = h j p (ground (arith, find-erase_ne i j ps, find-erase_self i ps d))

OldPages-append :
    (ps : List Page) (p : Page) → p.is_new ≡ false → OldPages ps → OldPages (ps ++ p ∷ [])
OldPages-append ps p e h j q f = ground (arith, find-append j ps p, h j q)

take_page-OldPages :
    (c : Cache)
    → Distinct c.pages
    → OldPages c.pages
    → ((take_page c).1 ≡ false) × OldPages (take_page c).0.pages
unfolding take_page release_page enlarge
take_page-OldPages c d h = elim (Option-cases (first_clean c.pages)) [
  | inl e ↦ (ground arith, λ j p f. h j p (ground arith))
  | inr (q, e) ↦
      let (f, clean) = find-first_clean c.pages q d e in
      (
        ground (arith, h q.page_id q),
        λ j p g. elim (Bool-cases (ltb c.max_page_cache_num c.map_page_num)) [
          | inl full ↦ OldPages-erase q.page_id c.pages d h j p (ground arith)
          | inr room ↦ h j p (ground arith)
        ],
      )
]

pub get_page-OldPages :
    (read : ℕ → Option (List ℕ)) (i : ℕ) (c : Cache)
    → Distinct c.pages
    → OldPages c.pages
    → OldPages (get_page read i c).0.pages
unfolding get_page load_page push_page
get_page-OldPages read i c d h j p f = elim (Option-cases (find i c.pages)) [
  | inr (q, e) ↦
      OldPages-append (erase i c.pages) q (h i q e) (OldPages-erase i c.pages d h) j p
        (ground arith)
  | inl e ↦
      let (flag, old) = take_page-OldPages c d h in
      elim (Option-cases (read i)) [
        | inl missing ↦ old j p (ground (arith, e, missing))
        | inr (content, there) ↦
            let q : Page = record {
              is_new = (take_page c).1;
              is_dirty = false;
              content = content;
              page_id = i;
            } in
            OldPages-append (take_page c).0.pages q flag old j p (ground (arith, e, there))
      ]
]
