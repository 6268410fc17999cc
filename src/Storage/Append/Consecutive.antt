-- ===== src/Storage/Append/Consecutive.antt =====
-- Append on every branch, and whole runs of it.
use native.Mathlib.Nat.{div-add-mod}
use mathlib.Core.Path.{subst}
use vorder.Base.{
  ℕ, ◌+◌, ◌*◌, ◌%◌, ◌^◌, ◌≤◌, ◌<◌, ◌≡◌, ◌≢◌, sym, ap, ◌∙◌, inl, inr, Bool, true, some, List, [],
  ◌∷◌, ◌++◌, ◌==◌, arith, length, Bool-cases, Option-cases, ==_iff, ltb,
}
use vorder.Storage.PageStore.{PageStore}
use vorder.Storage.Cache.{Page, find, get_page_id}
use vorder.Storage.Cache.View.{view, cached_dirty}
use vorder.Storage.Record.{HostCodec, slots_apart}
use vorder.Storage.Append.{AppendTable, start_page, fill_page, resume_page, append}
use vorder.Storage.Append.Shows.{
  IsAppending, Wrote, Appends, bounds, Wrote-Appends, start_page-Wrote, fill_page-Wrote,
  resume_page-Wrote, here,
}

dirty_found :
    (i : ℕ) (pages : List Page)
    → cached_dirty i pages ≡ true
    → (p : Page) × (find i pages ≡ some p) × (p.is_dirty ≡ true)
unfolding cached_dirty
dirty_found i pages h = elim (Option-cases (find i pages)) [
  | inl e ↦ absurd (ground arith)
  | inr (p, e) ↦ (p, e, ground arith)
]

module _ (ps : PageStore) {R : Type 0} (codec : HostCodec R) (t : AppendTable ps.State) (r : R)
    (h : IsAppending ps t) where
  -- A record that is not on the append page starts the page of its id.
  starts :
      (p : ℕ)
      → t.append_page ≡ some p
      → here ps codec t r ≢ p
      → t.last_record_id ≤ here ps codec t r * t.layout.page_record_num
  starts p a ne =
      let (low, high) = bounds ps codec t r h.laid_out in
      let (after, until, dirty) = h.current p a in
      let i = here ps codec t r in
      let n = t.layout.page_record_num in
      elim (Bool-cases (ltb i p)) [
        | inl less ↦ let m = slots_apart i p n (ground arith) in absurd (omega (arith, low, high))
        | inr ge ↦ let more : p < i = ground arith in let m = slots_apart p i n more in omega arith
      ]

  page_start :
      (t.last_record_id % t.layout.page_record_num == 0) ≡ true
      → t.last_record_id ≤ here ps codec t r * t.layout.page_record_num
  unfolding get_page_id
  page_start first =
      let e = div-add-mod t.last_record_id t.layout.page_record_num in
      let zero = (==_iff (t.last_record_id % t.layout.page_record_num) 0).0 first in
      let swap : here ps codec t r * t.layout.page_record_num
          ≡ t.layout.page_record_num * here ps codec t r =
        grind arith in
      omega (arith, e, zero, swap)

  queued : ℕ → AppendTable ps.State
  queued p = record t { append_queue = t.append_queue ++ p ∷ [] }

  -- The page of the record is started behind a full one.
  started :
      (p : ℕ)
      → t.last_record_id ≤ here ps codec t r * t.layout.page_record_num
      → (blank : List ℕ) → Wrote ps codec t r blank (start_page ps codec blank r (queued p))
  unfolding queued
  started p start blank =
      let valid : IsAppending ps (queued p) = record {
        coherent = h.coherent;
        sized = h.sized;
        laid_out = h.laid_out;
        page_size_eq = h.page_size_eq;
        current = h.current;
        unseen = h.unseen;
      } in
      let w = start_page-Wrote ps codec (queued p) r blank valid start in
      record {
        coherent = w.coherent;
        shown = w.shown;
        dirty = w.dirty;
        page = w.page;
        last = w.last;
        layout = w.layout;
      }

  pub append-Appends :
      (blank : List ℕ)
      → codec.size ≡ t.layout.record_len
      → length blank ≡ ps.page_size
      → t.last_record_id + 1 < 2 ^ 64
      → (append ps codec blank r t).1 ≡ true
      → Appends ps codec t r (append ps codec blank r t).0
  unfolding append queued
  append-Appends blank size n small done =
      let i = here ps codec t r in
      let by : (u : AppendTable ps.State × Bool)
          → append ps codec blank r t ≡ u
          → Appends ps codec t r u.0
          → Appends ps codec t r (append ps codec blank r t).0 =
        λ u e a. subst (λ (x : AppendTable ps.State × Bool). Appends ps codec t r x.0) (sym e) a in
      elim (Option-cases t.append_page) [
        | inr (p, a) ↦ elim (Bool-cases (i == p)) [
          | inl same ↦
              let at = (==_iff i p).0 same in
              let (after, until, marked) = h.current p a in
              let (q, f, d) =
                dirty_found i t.cache.pages
                  (ap (λ (k : ℕ). cached_dirty k t.cache.pages) at ∙ marked) in
              let shown = h.sized i q.content (unfold view in ground (arith, f)) in
              by (fill_page ps codec i r t, true) (ground (arith, at))
                (Wrote-Appends ps codec t r q.content (fill_page ps codec i r t) h size shown small
                  (fill_page-Wrote ps codec t r q h f d (a ∙ ap some (sym at))))
          | inr other ↦
              let ne : i ≢ p = λ e. absurd (ground (arith, e)) in
              by (start_page ps codec blank r (queued p), true) (ground arith)
                (Wrote-Appends ps codec t r blank (start_page ps codec blank r (queued p)) h size n
                  small (started p (starts p a ne) blank))
        ]
        | inl a ↦ elim (Bool-cases (t.last_record_id % t.layout.page_record_num == 0)) [
          | inl first ↦
              by (start_page ps codec blank r t, true) (ground arith)
                (Wrote-Appends ps codec t r blank (start_page ps codec blank r t) h size n small
                  (start_page-Wrote ps codec t r blank h (page_start first)))
          | inr later ↦
              let step : append ps codec blank r t ≡ resume_page ps codec r t = ground arith in
              let (c, m, w) =
                resume_page-Wrote ps codec t r h
                  (ap (λ (x : AppendTable ps.State × Bool). x.1) (sym step) ∙ done) in
              by (resume_page ps codec r t) step
                (Wrote-Appends ps codec t r c (resume_page ps codec r t).0 h size m small w)
        ]
      ]
