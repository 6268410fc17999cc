-- ===== src/Storage/MultiUpdate/Edit.antt =====
-- Update, Append and Read against the content that the table shows.
use vorder.Base.{
  ℕ, ◌≡◌, ◌≢◌, refl, sym, ◌∙◌, true, false, Option, none, some, List, if◌then◌else◌, ◌==◌, ==_iff,
  length, arith, Option-cases, Bool-cases, inl, inr,
}
use vorder.Storage.PageStore.{PageStore}
use vorder.Storage.Cache.{Page, Layout, find, get_page_id}
use vorder.Storage.Cache.Pages.{find-set_page, Distinct-set_page, find-page_id}
use vorder.Storage.Cache.View.{view, cached_dirty, Gets, get_page-Gets, insert_page-view}
use vorder.Storage.Record.{
  HostCodec, read_record, write_record, length-write_record, read_record-write_record,
  read_record-write_record_ne,
}
use vorder.Storage.MultiUpdate.{Table, fetch, edit_page, update, append_page, read}
use vorder.Storage.MultiUpdate.View.{has-append, backing, content, IsTable}

module _ (ps : PageStore) where
  -- What a table looks like after GetPage.
  fetched : ℕ → Table ps.State → Table ps.State
  fetched i t = record t { cache = (fetch ps i t).0 }

  pub fetch-Gets :
      (i : ℕ) (t : Table ps.State)
      → IsTable ps t
      → Gets (backing ps t) i t.cache (fetch ps i t).0 (fetch ps i t).1
  unfolding fetch
  fetch-Gets i t h = get_page-Gets (backing ps t) i t.cache h.coherent

  fetched-IsTable : (i : ℕ) (t : Table ps.State) → IsTable ps t → IsTable ps (fetched i t)
  unfolding fetched
  fetched-IsTable i t h =
      let g = fetch-Gets i t h in
      record {
        coherent = g.coherent;
        dirty = λ j. h.dirty j ∙ sym (g.dirt j);
        sized = λ j c e. h.sized j c (sym (g.same j) ∙ e);
        packed_sized = h.packed_sized;
        packages_ok = h.packages_ok;
        laid_out = h.laid_out;
        page_size_eq = h.page_size_eq;
      }

  edit_page-content :
      (c : List ℕ) (p : Page) (t : Table ps.State) (j : ℕ)
      → find p.page_id t.cache.pages ≡ some p
      → content ps (edit_page ps c p t) j ≡ (if p.page_id == j then some c else content ps t j)
  unfolding edit_page view
  edit_page-content c p t j f = ground (
    arith,
    find-set_page j (record p { content = c; is_dirty = true }) t.cache.pages,
    find-page_id j t.cache.pages p,
  )

  edit_page-IsTable :
      (c : List ℕ) (p : Page) (t : Table ps.State)
      → IsTable ps t
      → find p.page_id t.cache.pages ≡ some p
      → length c ≡ ps.page_size
      → IsTable ps (edit_page ps c p t)
  unfolding edit_page cached_dirty
  edit_page-IsTable c p t h f n =
      let q : Page = record p { content = c; is_dirty = true } in
      record {
        coherent = record {
          distinct = Distinct-set_page q t.cache.pages h.coherent.distinct;
          clean = λ j r g d. ground (arith, find-set_page j q t.cache.pages, h.coherent.clean j r);
        };
        dirty = λ j.
            ground (
              arith,
              find-set_page j q t.cache.pages,
              h.dirty j,
              has-append j p.page_id t.cur_dirty,
            );
        sized = λ j d e. ground (arith, edit_page-content c p t j f, h.sized j d);
        packed_sized = h.packed_sized;
        packages_ok = h.packages_ok;
        laid_out = h.laid_out;
        page_size_eq = h.page_size_eq;
      }

  -- The table `d` shows the content `f`, and has its invariant.
  pub record Shows (d : Table ps.State) (f : ℕ → Option (List ℕ)) (t : Table ps.State)
      : Type 0 where
    pub table : IsTable ps d
    pub shows : (j : ℕ) → content ps d j ≡ f j
    pub layout_eq : d.layout ≡ t.layout
    pub packages_eq : d.packages ≡ t.packages
    pub store_eq : d.store ≡ t.store

module _ (ps : PageStore) {R : Type 0} (codec : HostCodec R) where
  -- The content once the record is written into the page content `c`.
  abbrev pub written : ℕ → R → List ℕ → Table ps.State → ℕ → Option (List ℕ)
  written record_id r c t j =
      if get_page_id t.layout record_id == j
      then some (write_record codec t.layout record_id r c)
      else content ps t j

  -- Update of a record in a page that is there returns 0 and changes the bytes of that record; on a
  -- page that cannot be read it returns -1, and what the table shows stays as it was.
  pub update_some :
      (record_id : ℕ) (r : R) (t : Table ps.State) (c : List ℕ)
      → IsTable ps t
      → content ps t (get_page_id t.layout record_id) ≡ some c
      → ((update ps codec record_id r t).1 ≡ true)
        × Shows ps (update ps codec record_id r t).0 (written record_id r c t) t
  unfolding update edit_page fetched
  update_some record_id r t c h e =
      let i = get_page_id t.layout record_id in
      let g = fetch-Gets ps i t h in
      elim (Option-cases (fetch ps i t).1) [
        | inl m ↦ absurd (cc (g.missing m))
        | inr (p, m) ↦
            let f = g.cached p m in
            let at : p.page_id ≡ i = find-page_id i (fetch ps i t).0.pages p f in
            let same : p.content ≡ c = ground (arith, g.seen p m) in
            let bytes = write_record codec t.layout record_id r p.content in
            let f' : find p.page_id (fetch ps i t).0.pages ≡ some p = simp at f in
            let k = fetched-IsTable ps i t h in
            rw (m, update)
              (
                refl,
                record {
                  table = edit_page-IsTable ps bytes p (fetched ps i t) k f' (
                      length-write_record codec t.layout record_id r p.content
                      ∙ h.sized i p.content (g.seen p m));
                  shows = λ j.
                      edit_page-content ps bytes p (fetched ps i t) j f'
                      ∙ ground (arith, at, same, g.same j);
                  layout_eq = refl;
                  packages_eq = refl;
                  store_eq = refl;
                },
              )
      ]

  pub update_none :
      (record_id : ℕ) (r : R) (t : Table ps.State)
      → IsTable ps t
      → content ps t (get_page_id t.layout record_id) ≡ none
      → ((update ps codec record_id r t).1 ≡ false)
        × Shows ps (update ps codec record_id r t).0 (content ps t) t
  unfolding update fetched
  update_none record_id r t h e =
      let i = get_page_id t.layout record_id in
      let g = fetch-Gets ps i t h in
      elim (Option-cases (fetch ps i t).1) [
        | inl m ↦
            rw (m, update)
              (
                refl,
                record {
                  table = fetched-IsTable ps i t h;
                  shows = g.same;
                  layout_eq = refl;
                  packages_eq = refl;
                  store_eq = refl;
                },
              )
        | inr (p, m) ↦ absurd (cc (g.seen p m))
      ]

  -- Read returns the decoded bytes of the record, and -1 exactly where the table shows no page.
  pub read-content :
      (record_id : ℕ) (t : Table ps.State)
      → IsTable ps t
      → ((read ps codec record_id t).1 ≡ elim (content ps t (get_page_id t.layout record_id)) [
        | some c ↦ some (read_record codec t.layout record_id c)
        | none ↦ none
      ])
        × Shows ps (read ps codec record_id t).0 (content ps t) t
  unfolding read fetched
  read-content record_id t h =
      let i = get_page_id t.layout record_id in
      let g = fetch-Gets ps i t h in
      let s : Shows ps (fetched ps i t) (content ps t) t = record {
        table = fetched-IsTable ps i t h;
        shows = g.same;
        layout_eq = refl;
        packages_eq = refl;
        store_eq = refl;
      } in
      elim (Option-cases (fetch ps i t).1) [
        | inl m ↦ rw (m, read, g.missing m) (refl, s)
        | inr (p, m) ↦ rw (m, read, g.seen p m) (refl, s)
      ]

  -- Append of a record that starts a page, in memory of a page's size, whose page is not cached yet: a
  -- well-formed table stays so, and shows the record written there at once, all other pages as before.
  pub append_page-Shows :
      (blank : List ℕ) (record_id : ℕ) (r : R) (t : Table ps.State)
      → IsTable ps t
      → length blank ≡ ps.page_size
      → find (get_page_id t.layout record_id) t.cache.pages ≡ none
      → Shows ps (append_page ps codec blank record_id r t) (written record_id r blank t) t
  unfolding append_page view
  append_page-Shows blank record_id r t h n absent =
      let i = get_page_id t.layout record_id in
      let bytes = write_record codec t.layout record_id r blank in
      let p : Page = record { is_new = true; is_dirty = true; content = bytes; page_id = i } in
      let (coherent, found, seen, dirt) =
        insert_page-view (backing ps t) p t.cache h.coherent absent refl in
      record {
        table = record {
          coherent = coherent;
          dirty = λ j. ground (arith, dirt j, h.dirty j, has-append j i t.cur_dirty);
          sized = λ j d e.
              ground
                (arith, seen j, h.sized j d, length-write_record codec t.layout record_id r blank);
          packed_sized = h.packed_sized;
          packages_ok = h.packages_ok;
          laid_out = h.laid_out;
          page_size_eq = h.page_size_eq;
        };
        shows = seen;
        layout_eq = refl;
        packages_eq = refl;
        store_eq = refl;
      }

  decoded : Layout → ℕ → Option (List ℕ) → Option R
  decoded l record_id none = none
  decoded l record_id (some c) = some (read_record codec l record_id c)

  read-decoded :
      (record_id : ℕ) (d : Table ps.State) (f : ℕ → Option (List ℕ)) (t : Table ps.State)
      → Shows ps d f t
      → (read ps codec record_id d).1
        ≡ decoded t.layout record_id (f (get_page_id t.layout record_id))
  unfolding decoded
  read-decoded record_id d f t s =
      (read-content record_id d s.table).0
      ∙ rw (s.layout_eq, s.shows (get_page_id t.layout record_id)) (ground arith)

  decoded-written :
      (record_id other : ℕ) (r : R) (c : List ℕ) (t : Table ps.State)
      → IsTable ps t
      → codec.size ≡ t.layout.record_len
      → content ps t (get_page_id t.layout record_id) ≡ some c
      → (decoded t.layout record_id (written record_id r c t (get_page_id t.layout record_id))
          ≡ some r)
        × (record_id ≢ other
            → decoded t.layout other (written record_id r c t (get_page_id t.layout other))
              ≡ decoded t.layout other (content ps t (get_page_id t.layout other)))
  unfolding decoded
  decoded-written record_id other r c t h z e =
      let n : length c ≡ t.layout.page_size =
        h.sized (get_page_id t.layout record_id) c e ∙ sym h.page_size_eq in
      (
        ground (arith, read_record-write_record codec t.layout record_id r c h.laid_out z n),
        λ ne. elim (Bool-cases (get_page_id t.layout record_id == get_page_id t.layout other)) [
          | inl same ↦
              let at =
                (==_iff (get_page_id t.layout record_id) (get_page_id t.layout other)).0 same in
              ground (
                arith,
                at,
                e,
                read_record-write_record_ne codec t.layout record_id other r c h.laid_out z ne at,
              )
          | inr apart ↦ rw apart
        ],
      )

  -- On a well-formed table, with a codec of the table's record length: after an Update that returned
  -- 0, Read returns the record written, and returns for every other record what it returned before.
  pub read-update :
      (record_id other : ℕ) (r : R) (t : Table ps.State)
      → IsTable ps t
      → codec.size ≡ t.layout.record_len
      → (update ps codec record_id r t).1 ≡ true
      → ((read ps codec record_id (update ps codec record_id r t).0).1 ≡ some r)
        × (record_id ≢ other
            → (read ps codec other (update ps codec record_id r t).0).1 ≡ (read ps codec other t).1)
  read-update record_id other r t h z done =
      elim (Option-cases (content ps t (get_page_id t.layout record_id))) [
        | inl e ↦ absurd (cc (update_none record_id r t h e).0)
        | inr (c, e) ↦
            let d = (update ps codec record_id r t).0 in
            let s = (update_some record_id r t c h e).1 in
            let w = decoded-written record_id other r c t h z e in
            let unedited : Shows ps t (content ps t) t = record {
              table = h;
              shows = λ j. refl;
              layout_eq = refl;
              packages_eq = refl;
              store_eq = refl;
            } in
            (
              read-decoded record_id d (written record_id r c t) t s ∙ w.0,
              λ ne.
                  read-decoded other d (written record_id r c t) t s
                  ∙ w.1 ne
                  ∙ sym (read-decoded other t (content ps t) t unedited),
            )
      ]
