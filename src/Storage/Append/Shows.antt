-- ===== src/Storage/Append/Shows.antt =====
-- Append: a new record is shown at once under the next id, and no other page changes.
use native.Mathlib.Nat.{div-add-mod}
use mathlib.Core.Path.{subst}
use vorder.Base.{
  ℕ, ◌+◌, ◌*◌, ◌%◌, ◌^◌, ◌≤◌, ◌<◌, ◌≡◌, ◌≢◌, refl, sym, ap, ◌∙◌, inl, inr, true, false, Option,
  none, some, List, if◌then◌else◌, ◌==◌, arith, length, Bool-cases, Option-cases,
}
use vorder.Storage.PageStore.{PageStore}
use vorder.Storage.Cache.{Page, Layout, find, get_page, get_page_id}
use vorder.Storage.Cache.Pages.{find-page_id, find-set_page, Distinct-set_page}
use vorder.Storage.Cache.View.{view, cached_dirty, IsCoherent, get_page-Gets, insert_page-view}
use vorder.Storage.Record.{
  HostCodec, IsLayout, read_record, write_record, read_record-write_record, length-write_record,
}
use vorder.Storage.Update.Rollback.{view-set_page}
use vorder.Storage.Append.{AppendTable, inc64, start_page, fill_page, resume_page}

module _ (ps : PageStore) where
  abbrev pub content : AppendTable ps.State → ℕ → Option (List ℕ)
  content t = view (ps.read_page t.store) t.cache.pages

  -- The cache is coherent with the store, the append page is cached, dirty and the page of the record
  -- before the next one, and nothing is shown of pages behind the next record.
  pub record IsAppending (t : AppendTable ps.State) : Type 0 where
    pub coherent : IsCoherent (ps.read_page t.store) t.cache.pages
    pub sized : (i : ℕ) (c : List ℕ) → content t i ≡ some c → length c ≡ ps.page_size
    pub laid_out : IsLayout t.layout
    pub page_size_eq : t.layout.page_size ≡ ps.page_size
    pub current :
        (p : ℕ)
        → t.append_page ≡ some p
        → (p * t.layout.page_record_num < t.last_record_id)
          × (t.last_record_id ≤ p * t.layout.page_record_num + t.layout.page_record_num)
          × (cached_dirty p t.cache.pages ≡ true)
    pub unseen : (i : ℕ) → t.last_record_id ≤ i * t.layout.page_record_num → content t i ≡ none

module _ (ps : PageStore) {R : Type 0} (codec : HostCodec R) (t : AppendTable ps.State)
    (r : R) where
  abbrev pub here : ℕ
  here = get_page_id t.layout t.last_record_id

  -- The record written into the page of its id, over `c`.
  pub record Wrote (c : List ℕ) (u : AppendTable ps.State) : Type 0 where
    pub coherent : IsCoherent (ps.read_page u.store) u.cache.pages
    pub shown :
        (j : ℕ)
        → content ps u j ≡ (
            if here == j
            then some (write_record codec t.layout t.last_record_id r c)
            else content ps t j)
    pub dirty : cached_dirty here u.cache.pages ≡ true
    pub page : u.append_page ≡ some here
    pub last : u.last_record_id ≡ inc64 t.last_record_id
    pub layout : u.layout ≡ t.layout

  -- What the append does, in terms of what is shown.
  pub record Appends (u : AppendTable ps.State) : Type 0 where
    pub valid : IsAppending ps u
    pub next_id : u.last_record_id ≡ t.last_record_id + 1
    pub page : List ℕ
    pub shown : content ps u here ≡ some page
    pub read_back : read_record codec t.layout t.last_record_id page ≡ r
    pub others : (j : ℕ) → here ≢ j → content ps u j ≡ content ps t j

  pub bounds :
      IsLayout t.layout
      → (here * t.layout.page_record_num ≤ t.last_record_id)
        × (t.last_record_id < here * t.layout.page_record_num + t.layout.page_record_num)
  unfolding get_page_id
  bounds l =
      let e = div-add-mod t.last_record_id t.layout.page_record_num in
      let pos = l.some_record in
      let m : t.last_record_id % t.layout.page_record_num < t.layout.page_record_num =
        grind arith in
      let swap : here * t.layout.page_record_num ≡ t.layout.page_record_num * here = grind arith in
      (omega (arith, e, swap), omega (arith, e, swap, m))

  pub Wrote-Appends :
      (c : List ℕ) (u : AppendTable ps.State)
      → IsAppending ps t
      → codec.size ≡ t.layout.record_len
      → length c ≡ ps.page_size
      → t.last_record_id + 1 < 2 ^ 64
      → Wrote c u
      → Appends u
  unfolding inc64
  Wrote-Appends c u h size n small w =
      let (low, high) = bounds h.laid_out in
      let next : u.last_record_id ≡ t.last_record_id + 1 = omega (arith, w.last) in
      let per = ap (λ (l : Layout). l.page_record_num) w.layout in
      let times = λ (q : ℕ). ap (λ (m : ℕ). q * m) per in
      let new = write_record codec t.layout t.last_record_id r c in
      record {
        valid = record {
          coherent = w.coherent;
          sized = λ i d e. elim (Bool-cases (here == i)) [
            | inl hit ↦
                let same : new ≡ d = ground (arith, w.shown i) in
                ap length (sym same) ∙ length-write_record codec t.layout t.last_record_id r c ∙ n
            | inr miss ↦ h.sized i d (ground (arith, w.shown i))
          ];
          laid_out = rw w.layout h.laid_out;
          page_size_eq = rw w.layout h.page_size_eq;
          current = λ p e.
              let same : here ≡ p = ground (arith, w.page, e) in
              subst
                (λ (q : ℕ).
                  (q * u.layout.page_record_num < u.last_record_id)
                  × (u.last_record_id ≤ q * u.layout.page_record_num + u.layout.page_record_num)
                  × (cached_dirty q u.cache.pages ≡ true))
                same
                (
                  omega (arith, next, per, times here),
                  omega (arith, next, per, times here, high),
                  w.dirty,
                );
          unseen = λ i e.
              let behind : t.last_record_id + 1 ≤ i * t.layout.page_record_num =
                omega (arith, next, times i, e) in
              let miss : here ≢ i = λ k.
                let m = ap (λ (q : ℕ). q * t.layout.page_record_num) k in absurd (omega arith) in
              let old = h.unseen i (omega arith) in ground (arith, w.shown i, old);
        };
        next_id = next;
        page = new;
        shown = ground (arith, w.shown here);
        read_back =
            read_record-write_record codec t.layout t.last_record_id r c h.laid_out size
              (n ∙ sym h.page_size_eq);
        others = λ j ne. ground (arith, w.shown j);
      }

  pub start_page-Wrote :
      (blank : List ℕ)
      → IsAppending ps t
      → t.last_record_id ≤ here * t.layout.page_record_num
      → Wrote blank (start_page ps codec blank r t)
  unfolding start_page view
  start_page-Wrote blank h start =
      let q : Page = record {
        is_new = true;
        is_dirty = true;
        content = write_record codec t.layout t.last_record_id r blank;
        page_id = here;
      } in
      let free : find here t.cache.pages ≡ none = ground (arith, h.unseen here start) in
      let (coherent, found, shown, dirty) =
        insert_page-view (ps.read_page t.store) q t.cache h.coherent free refl in
      record {
        coherent = coherent;
        shown = shown;
        dirty = ground (arith, dirty here);
        page = refl;
        last = refl;
        layout = refl;
      }

  pub fill_page-Wrote :
      (p : Page)
      → IsAppending ps t
      → find here t.cache.pages ≡ some p
      → p.is_dirty ≡ true
      → t.append_page ≡ some here
      → Wrote p.content (fill_page ps codec here r t)
  unfolding fill_page cached_dirty
  fill_page-Wrote p h f d a =
      let at = find-page_id here t.cache.pages p f in
      let q : Page = record p {
        content = write_record codec t.layout t.last_record_id r p.content;
      } in
      let there : find q.page_id t.cache.pages ≡ some p =
        ap (λ (k : ℕ). find k t.cache.pages) at ∙ f in
      let read = ps.read_page t.store in
      let pages = t.cache.pages in
      rw (f, fill_page)
        (record {
          coherent = record {
            distinct = Distinct-set_page q pages h.coherent.distinct;
            clean = λ j s g e. ground (arith, find-set_page j q pages, h.coherent.clean j s);
          };
          shown = λ j. ground (arith, view-set_page read q p pages j there, at);
          dirty = ground (arith, find-set_page here q pages, at);
          page = a;
          last = refl;
          layout = refl;
        })

  pub resume_page-Wrote :
      IsAppending ps t
      → (resume_page ps codec r t).1 ≡ true
      → (c : List ℕ) × (length c ≡ ps.page_size) × Wrote c (resume_page ps codec r t).0
  unfolding resume_page cached_dirty
  resume_page-Wrote h done =
      let read = ps.read_page t.store in
      let g = get_page-Gets read here t.cache h.coherent in
      elim (Option-cases (get_page read here t.cache).1) [
        | inl e ↦ absurd (ground (arith, e))
        | inr (p, e) ↦
            let pages = (get_page read here t.cache).0.pages in
            let at = find-page_id here pages p (g.cached p e) in
            let q : Page = record p {
              is_new = false;
              is_dirty = true;
              content = write_record codec t.layout t.last_record_id r p.content;
            } in
            let there : find q.page_id pages ≡ some p =
              ap (λ (k : ℕ). find k pages) at ∙ g.cached p e in
            (
              p.content,
              h.sized here p.content (g.seen p e),
              rw (e, resume_page)
                  (record {
                    coherent = record {
                      distinct = Distinct-set_page q pages g.coherent.distinct;
                      clean =
                          λ j s f d. ground (arith, find-set_page j q pages, g.coherent.clean j s);
                    };
                    shown = λ j. ground (arith, view-set_page read q p pages j there, at, g.same j);
                    dirty = ground (arith, find-set_page here q pages, at, there);
                    page = ap some at;
                    last = refl;
                    layout = refl;
                  }),
            )
      ]
