-- ===== src/Storage/Cache/View.antt =====
-- The cache is transparent: what a page id stands for is the cached page, and what the backing
-- store has for it otherwise. GetPage and InsertPage keep that view.
use vorder.Base.{
  ℕ, ◌≡◌, refl, inl, inr, true, false, Option, none, some, List, [], ◌∷◌, ◌++◌, Bool, if◌then◌else◌,
  ◌==◌, arith, Option-cases,
}
use vorder.Storage.Cache.{
  Page, Cache, find, erase, first_clean, take_page, load_page, push_page, get_page, release_page,
  enlarge, make_room, insert_page,
}
use vorder.Storage.Cache.Pages.{
  Distinct, find-page_id, find-erase_ne, find-erase_self, find-append, Distinct-erase,
  Distinct-append, find-first_clean,
}

-- The content of each page, seen through the cache.
unfoldable pub view : (ℕ → Option (List ℕ)) → List Page → ℕ → Option (List ℕ)
view read ps i = elim (find i ps) [ some p ↦ some p.content | none ↦ read i ]

-- Whether the page is cached and dirty.
unfoldable pub cached_dirty : ℕ → List Page → Bool
unfolding find
cached_dirty i pages = elim (find i pages) [ some p ↦ p.is_dirty | none ↦ false ]

-- Page ids are distinct, and a page that is not dirty holds what the backing store has.
pub record IsCoherent (read : ℕ → Option (List ℕ)) (ps : List Page) : Type 0 where
  pub distinct : Distinct ps
  pub clean : (i : ℕ) (p : Page) → find i ps ≡ some p → p.is_dirty ≡ false → read i ≡ some p.content

-- Where no dirty page hides it, the view is the backing store.
pub view-clean :
    (read : ℕ → Option (List ℕ)) (ps : List Page) (j : ℕ)
    → IsCoherent read ps
    → cached_dirty j ps ≡ false
    → view read ps j ≡ read j
unfolding view cached_dirty
view-clean read ps j c d = elim (Option-cases (find j ps)) [
  | inl e ↦ ground arith
  | inr (p, e) ↦ ground (arith, c.clean j p)
]

module _ (read : ℕ → Option (List ℕ)) where
  view-erase :
      (ps : List Page) (q : Page)
      → IsCoherent read ps
      → find q.page_id ps ≡ some q
      → q.is_dirty ≡ false
      → (j : ℕ) → view read (erase q.page_id ps) j ≡ view read ps j
  unfolding view
  view-erase ps q c f d j = ground (
    arith,
    find-erase_ne q.page_id j ps,
    find-erase_self q.page_id ps c.distinct,
    c.clean q.page_id q,
  )

  dirt_erase :
      (ps : List Page) (q : Page)
      → IsCoherent read ps
      → find q.page_id ps ≡ some q
      → q.is_dirty ≡ false
      → (j : ℕ) → cached_dirty j (erase q.page_id ps) ≡ cached_dirty j ps
  unfolding cached_dirty
  dirt_erase ps q c f d j =
      ground (arith, find-erase_ne q.page_id j ps, find-erase_self q.page_id ps c.distinct)

  erase-IsCoherent : (ps : List Page) (i : ℕ) → IsCoherent read ps → IsCoherent read (erase i ps)
  erase-IsCoherent ps i c = record {
    distinct = Distinct-erase i ps c.distinct;
    clean = λ j p f d.
        ground (arith, find-erase_ne i j ps, find-erase_self i ps c.distinct, c.clean j p);
  }

  append-IsCoherent :
      (ps : List Page) (p : Page)
      → IsCoherent read ps
      → find p.page_id ps ≡ none
      → (p.is_dirty ≡ false → read p.page_id ≡ some p.content)
      → IsCoherent read (ps ++ p ∷ [])
  append-IsCoherent ps p c n h = record {
    distinct = Distinct-append ps p c.distinct n;
    clean = λ j q f d. ground (arith, find-append j ps p, c.clean j q);
  }

  view_append :
      (ps : List Page) (p : Page)
      → find p.page_id ps ≡ none
      → (j : ℕ)
      → view read (ps ++ p ∷ []) j ≡ (if p.page_id == j then some p.content else view read ps j)
  unfolding view
  view_append ps p n j = ground (arith, find-append j ps p)

  -- A cache made from `c` by dropping at most one clean page, so that the id `i` stays uncached.
  record Shrinks (i : ℕ) (ps qs : List Page) : Type 0 where
    coherent : IsCoherent read qs
    same : (j : ℕ) → view read qs j ≡ view read ps j
    absent : find i ps ≡ none → find i qs ≡ none
    dirt : (j : ℕ) → cached_dirty j qs ≡ cached_dirty j ps

  Shrinks-refl : (i : ℕ) (ps : List Page) → IsCoherent read ps → Shrinks i ps ps
  Shrinks-refl i ps c = record { coherent = c; same = λ j. refl; absent = λ h. h; dirt = λ j. refl }

  Shrinks-erase :
      (i : ℕ) (ps : List Page) (q : Page)
      → IsCoherent read ps
      → first_clean ps ≡ some q
      → Shrinks i ps (erase q.page_id ps)
  Shrinks-erase i ps q c h =
      let (f, d) = find-first_clean ps q c.distinct h in
      record {
        coherent = erase-IsCoherent ps q.page_id c;
        same = view-erase ps q c f d;
        absent = λ n. ground (arith, find-erase_ne q.page_id i ps);
        dirt = λ j. dirt_erase ps q c f d j;
      }

  take_page-Shrinks :
      (i : ℕ) (c : Cache) → IsCoherent read c.pages → Shrinks i c.pages (take_page c).0.pages
  unfolding take_page release_page enlarge
  take_page-Shrinks i c h = elim (Option-cases (first_clean c.pages)) [
    | inl e ↦ ground (arith, Shrinks-refl i c.pages h)
    | inr (q, e) ↦ ground (arith, Shrinks-refl i c.pages h, Shrinks-erase i c.pages q h e)
  ]

  make_room-Shrinks :
      (i : ℕ) (c : Cache) → IsCoherent read c.pages → Shrinks i c.pages (make_room c).pages
  unfolding make_room release_page enlarge
  make_room-Shrinks i c h = elim (Option-cases (first_clean c.pages)) [
    | inl e ↦ ground (arith, Shrinks-refl i c.pages h)
    | inr (q, e) ↦ ground (arith, Shrinks-refl i c.pages h, Shrinks-erase i c.pages q h e)
  ]

  -- What GetPage gives: a page exactly where the view has one, cached and with that content; a page
  -- with a failed read is none; every other page is seen as before.
  pub record Gets (i : ℕ) (c d : Cache) (r : Option Page) : Type 0 where
    pub coherent : IsCoherent read d.pages
    pub same : (j : ℕ) → view read d.pages j ≡ view read c.pages j
    pub cached : (p : Page) → r ≡ some p → find i d.pages ≡ some p
    pub seen : (p : Page) → r ≡ some p → view read c.pages i ≡ some p.content
    pub missing : r ≡ none → view read c.pages i ≡ none
    pub dirt : (j : ℕ) → cached_dirty j d.pages ≡ cached_dirty j c.pages

  hit-Gets :
      (i : ℕ) (c : Cache) (p : Page)
      → IsCoherent read c.pages
      → find i c.pages ≡ some p
      → Gets i c (record c { pages = erase i c.pages ++ p ∷ [] }) (some p)
  unfolding view cached_dirty
  hit-Gets i c p h f =
      let e = find-page_id i c.pages p f in
      let n : find p.page_id (erase i c.pages) ≡ none =
        rw e (find-erase_self i c.pages h.distinct) in
      record {
        coherent =
            append-IsCoherent (erase i c.pages) p (erase-IsCoherent c.pages i h) n
              (λ d. rw e (h.clean i p f d));
        same = λ j. ground (
          arith,
          view_append (erase i c.pages) p n j,
          find-erase_ne i j c.pages,
          find-append j (erase i c.pages) p,
        );
        cached = λ q g. ground (arith, find-append i (erase i c.pages) p);
        seen = λ q g. ground arith;
        missing = λ g. absurd (cc);
        dirt = λ j. ground (
          arith,
          find-erase_ne i j c.pages,
          find-append j (erase i c.pages) p,
          find-erase_self i c.pages h.distinct,
        );
      }

  load_page-Gets :
      (i : ℕ) (c : Cache) (t : Cache × Bool)
      → find i c.pages ≡ none
      → Shrinks i c.pages t.0.pages
      → Gets i c (load_page i (read i) t).0 (load_page i (read i) t).1
  unfolding load_page push_page view cached_dirty
  load_page-Gets i c t n s = elim (Option-cases (read i)) [
    | inl e ↦ rw e (record {
      coherent = s.coherent;
      same = s.same;
      cached = λ p g. absurd (cc);
      seen = λ p g. absurd (cc);
      missing = λ g. ground (arith, n, e);
      dirt = s.dirt;
    })
    | inr (content, e) ↦
        let p : Page = record { is_new = t.1; is_dirty = false; content = content; page_id = i } in
        let m = s.absent n in
        rw e (record {
          coherent = append-IsCoherent t.0.pages p s.coherent m (λ d. e);
          same = λ j. ground (arith, view_append t.0.pages p m j, s.same j, n, e);
          cached = λ q g. ground (arith, find-append i t.0.pages p, m);
          seen = λ q g. ground (arith, n, e);
          missing = λ g. absurd (cc);
          dirt = λ j. ground (arith, find-append j t.0.pages p, m, s.dirt j, n);
        })
  ]

  -- GetPage on a coherent cache keeps it coherent and leaves what it shows and which pages are dirty
  -- alone, also when it drops a page; it gives a page, then cached, with the content shown for the id,
  -- and none only where nothing is shown.
  pub get_page-Gets :
      (i : ℕ) (c : Cache)
      → IsCoherent read c.pages
      → Gets i c (get_page read i c).0 (get_page read i c).1
  unfolding get_page
  get_page-Gets i c h = elim (Option-cases (find i c.pages)) [
    | inl e ↦ rw (e, get_page) (load_page-Gets i c (take_page c) e (take_page-Shrinks i c h))
    | inr (p, e) ↦ rw (e, get_page) (hit-Gets i c p h e)
  ]

  -- A new dirty page is seen under its id, and all others as before.
  pub insert_page-view :
      (p : Page) (c : Cache)
      → IsCoherent read c.pages
      → find p.page_id c.pages ≡ none
      → p.is_dirty ≡ true
      → IsCoherent read (insert_page p c).pages
        × (find p.page_id (insert_page p c).pages ≡ some p)
        × ((j : ℕ)
            → view read (insert_page p c).pages j
              ≡ (if p.page_id == j then some p.content else view read c.pages j))
        × ((j : ℕ)
            → cached_dirty j (insert_page p c).pages
              ≡ (if p.page_id == j then true else cached_dirty j c.pages))
  unfolding insert_page push_page cached_dirty
  insert_page-view p c h n d =
      let s = make_room-Shrinks p.page_id c h in
      let m = s.absent n in
      (
        append-IsCoherent (make_room c).pages p s.coherent m (λ e. absurd (cc)),
        ground (arith, find-append p.page_id (make_room c).pages p),
        λ j. ground (arith, view_append (make_room c).pages p m j, s.same j),
        λ j. ground (arith, find-append j (make_room c).pages p, s.dirt j, m),
      )
