-- ===== src/Storage/Update/Rollback.antt =====
-- RollbackCache after a run of Update: every page shows again what the store has.
use vorder.Base.{
  ℕ, ◌≤◌, ◌≡◌, ◌≢◌, refl, sym, ap, ◌∙◌, inl, inr, true, false, Option, none, some, List, [], ◌∷◌,
  ◌++◌, if◌then◌else◌, ◌==◌, arith, length, slice, Bool-cases, Option-cases, ==_iff,
}
use vorder.Storage.PageStore.{PageStore}
use vorder.Storage.Cache.{Page, find, set_page, get_page, get_offset, get_page_id}
use vorder.Storage.Cache.Pages.{Distinct, find-page_id, find-set_page, Distinct-set_page}
use vorder.Storage.Cache.Old.{OldPages, get_page-OldPages}
use vorder.Storage.Cache.View.{view, cached_dirty, IsCoherent, get_page-Gets}
use vorder.Storage.Record.{HostCodec, IsLayout, write_record}
use vorder.Storage.MultiUpdate.View.{has, has-append}
use vorder.Storage.Update.{UpdateTable, restore_items, fetch, edit_page, rollback_cache, update}
use vorder.Storage.Update.Undo.{
  undo, has_record, AreItems, AreItems-append, undo-update, undo-append_ne, length-slice_le,
}
use vorder.Storage.Update.Pages.{
  find-restore_items, Distinct-restore_items, find-clean_pages, Distinct-clean_pages,
}

module _ (ps : PageStore) where
  -- What the table shows.
  abbrev pub content : UpdateTable ps.State → ℕ → Option (List ℕ)
  content t = view (ps.read_page t.store) t.cache.pages

  -- A transaction that has made Updates only: the cache is coherent with the store and lists its
  -- dirty pages, no page is new, and putting back the items of the log brings every page back to
  -- what the store has.
  pub record IsChanging (t : UpdateTable ps.State) : Type 0 where
    pub coherent : IsCoherent (ps.read_page t.store) t.cache.pages
    pub dirty : (i : ℕ) → has i t.dirty_pages ≡ cached_dirty i t.cache.pages
    pub old : OldPages t.cache.pages
    pub items : AreItems t.layout t.update_log
    pub laid_out : IsLayout t.layout
    pub undone :
        (i : ℕ) (c : List ℕ)
        → content t i ≡ some c
        → ps.read_page t.store i ≡ some (undo t.layout i t.update_log c)
    pub missing : (i : ℕ) → content t i ≡ none → ps.read_page t.store i ≡ none

pub view-set_page :
    (read : ℕ → Option (List ℕ)) (q p : Page) (l : List Page) (j : ℕ)
    → find q.page_id l ≡ some p
    → view read (set_page q l) j ≡ (if q.page_id == j then some q.content else view read l j)
unfolding view
view-set_page read q p l j f = ground (arith, find-set_page j q l)

dirty-set_page :
    (q p : Page) (l : List Page) (dirty : List ℕ) (j : ℕ)
    → find q.page_id l ≡ some p
    → q.is_dirty ≡ true
    → has j dirty ≡ cached_dirty j l
    → has j (if p.is_dirty then dirty else dirty ++ q.page_id ∷ []) ≡ cached_dirty j (set_page q l)
unfolding cached_dirty
dirty-set_page q p l dirty j f d h =
    ground (arith, find-set_page j q l, has-append j q.page_id dirty)

module _ (ps : PageStore) {R : Type 0} (codec : HostCodec R) where
  pub update-IsChanging :
      (r : ℕ) (x : R) (t : UpdateTable ps.State)
      → codec.size ≤ t.layout.record_len
      → has_record r t.update_log ≡ false
      → IsChanging ps t
      → IsChanging ps (update ps codec r x t).0
  unfolding update fetch edit_page write_record
  update-IsChanging r x t small fresh h =
      let read = ps.read_page t.store in
      let i = get_page_id t.layout r in
      let g = get_page-Gets read i t.cache h.coherent in
      let old = get_page-OldPages read i t.cache h.coherent.distinct h.old in
      elim (Option-cases (get_page read i t.cache).1) [
        | inl e ↦
            rw (e, update)
              (record {
                coherent = g.coherent;
                dirty = λ j. h.dirty j ∙ sym (g.dirt j);
                old = old;
                items = h.items;
                laid_out = h.laid_out;
                undone = λ j c f. h.undone j c (sym (g.same j) ∙ f);
                missing = λ j f. h.missing j (sym (g.same j) ∙ f);
              })
        | inr (p, e) ↦
            let at : p.page_id ≡ i =
              find-page_id i (get_page read i t.cache).0.pages p (g.cached p e) in
            let pages = (get_page read i t.cache).0.pages in
            let bytes = codec.encode x in
            let short : length bytes ≤ t.layout.record_len = rw codec.encode_size small in
            let found = g.cached p e in
            let q : Page = record p {
              content = write_record codec t.layout r x p.content;
              is_dirty = true;
            } in
            let here : find q.page_id pages ≡ some p = ap (λ (k : ℕ). find k pages) at ∙ found in
            let shown = λ (j : ℕ). view-set_page read q p pages j here in
            let before = h.undone i p.content (g.seen p e) in
            rw (e, update)
              (record {
                coherent = record {
                  distinct = Distinct-set_page q pages g.coherent.distinct;
                  clean = λ j s f d. ground (arith, find-set_page j q pages, g.coherent.clean j s);
                };
                dirty = λ j.
                    dirty-set_page q p pages t.dirty_pages j here refl (h.dirty j ∙ sym (g.dirt j));
                old = λ j s f. ground (arith, find-set_page j q pages, old j s, old i p found);
                items =
                    AreItems-append t.layout t.update_log _ h.items at
                      (length-slice_le (get_offset t.layout r) t.layout.record_len p.content);
                laid_out = h.laid_out;
                undone = λ j c f. elim (Bool-cases (p.page_id == j)) [
                  | inl hit ↦
                      let same : i ≡ j = sym at ∙ (==_iff p.page_id j).0 hit in
                      let now : q.content ≡ c = ground (arith, shown j) in
                      let log = λ (k : ℕ).
                        t.update_log
                        ++ record {
                          record_id = r;
                          original = slice (get_offset t.layout r) t.layout.record_len p.content;
                          page = k;
                        }
                          ∷ [] in
                      let back =
                        undo-update t.layout h.laid_out t.update_log r bytes p.content h.items fresh
                          short in
                      ap read (sym same)
                      ∙ before
                      ∙ ap some (sym back)
                      ∙ ap (λ (k : ℕ). some (undo t.layout i (log k) q.content)) (sym at)
                      ∙ ap (λ (k : ℕ). some (undo t.layout k (log p.page_id) q.content)) same
                      ∙ ap (λ (d : List ℕ). some (undo t.layout j (log p.page_id) d)) now
                  | inr miss ↦
                      let apart : p.page_id ≢ j = λ k. absurd (ground arith) in
                      let now : content ps t j ≡ some c = ground (arith, shown j, g.same j) in
                      h.undone j c now
                      ∙ ap some (sym (undo-append_ne t.layout h.laid_out j t.update_log _ c apart))
                ];
                missing = λ j f. h.missing j (ground (arith, shown j, g.same j));
              })
      ]

module _ (ps : PageStore) where
  OldPages-restore_items :
      (t : UpdateTable ps.State)
      → IsChanging ps t
      → OldPages (restore_items t.layout t.update_log t.cache.pages)
  OldPages-restore_items t h j p f =
      let found = find-restore_items t.layout j t.update_log t.cache.pages in
      elim (Option-cases (find j t.cache.pages)) [
        | inl n ↦ absurd (ground (arith, found, n))
        | inr (q, n) ↦ ground (arith, found, n, h.old j q n)
      ]

  find-rollback_cache :
      (t : UpdateTable ps.State) (i : ℕ)
      → IsChanging ps t
      → find i (rollback_cache ps t).cache.pages ≡ elim (find i t.cache.pages) [
        | some p ↦
            some (record p { content = undo t.layout i t.update_log p.content; is_dirty = false })
        | none ↦ none
      ]
  unfolding rollback_cache cached_dirty
  find-rollback_cache t i h =
      let pages = restore_items t.layout t.update_log t.cache.pages in
      ground (
        arith,
        find-restore_items t.layout i t.update_log t.cache.pages,
        find-clean_pages t.dirty_pages (record (t.cache) { pages = pages }) i
            (OldPages-restore_items t h),
        h.dirty i,
      )

  Distinct-rollback_cache :
      (t : UpdateTable ps.State) → IsChanging ps t → Distinct (rollback_cache ps t).cache.pages
  unfolding rollback_cache
  Distinct-rollback_cache t h =
      let pages = restore_items t.layout t.update_log t.cache.pages in
      Distinct-clean_pages t.dirty_pages (record (t.cache) { pages = pages })
        (OldPages-restore_items t h)
        (Distinct-restore_items t.layout t.update_log t.cache.pages h.coherent.distinct)

  -- RollbackCache in a transaction that has made Updates only, each record at most once: every page
  -- shows again what the store has, no page is dirty, and the log queue and the list of dirty pages
  -- are empty, ready for the next transaction.
  pub rollback_cache-IsChanging :
      (t : UpdateTable ps.State)
      → IsChanging ps t
      → let d = rollback_cache ps t in
        IsChanging ps d
        × ((i : ℕ) → content ps d i ≡ ps.read_page t.store i)
        × ((i : ℕ) → cached_dirty i d.cache.pages ≡ false)
        × (d.update_log ≡ [])
        × (d.dirty_pages ≡ [])
  unfolding rollback_cache view cached_dirty undo has
  rollback_cache-IsChanging t h =
      let d = rollback_cache ps t in
      let found = λ (i : ℕ). find-rollback_cache t i h in
      let shows : (i : ℕ) → content ps d i ≡ ps.read_page t.store i = λ i.
        elim (Option-cases (find i t.cache.pages)) [
          | inl n ↦ ground (arith, found i, n)
          | inr (p, n) ↦ ground (arith, found i, n, h.undone i p.content)
        ] in
      let clean : (i : ℕ) → cached_dirty i d.cache.pages ≡ false = λ i.
        elim (Option-cases (find i t.cache.pages)) [
          | inl n ↦ ground (arith, found i, n)
          | inr (p, n) ↦ ground (arith, found i, n)
        ] in
      (
        record {
          coherent = record {
            distinct = Distinct-rollback_cache t h;
            clean = λ i p f x. ground (arith, shows i);
          };
          dirty = λ i. sym (clean i);
          old = λ i p f. elim (Option-cases (find i t.cache.pages)) [
            | inl n ↦ absurd (ground (arith, found i, n))
            | inr (q, n) ↦ ground (arith, found i, n, h.old i q n)
          ];
          items = tt;
          laid_out = h.laid_out;
          undone = λ i c f. sym (shows i) ∙ f;
          missing = λ i f. sym (shows i) ∙ f;
        },
        shows,
        clean,
        refl,
        refl,
      )
