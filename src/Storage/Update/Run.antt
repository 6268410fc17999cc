-- ===== src/Storage/Update/Run.antt =====
-- Whole transactions of Updates, and two Updates of one record.
use vorder.Base.{
  ℕ, ◌+◌, ◌≤◌, ◌≡◌, ◌≢◌, refl, sym, ap, ◌∙◌, inl, inr, Bool, true, false, ◌||◌, some, List, [], ◌∷◌,
  ◌==◌, arith, length, drop, length-take, length-drop, slice, splice, Option-cases,
}
use vorder.Storage.PageStore.{PageStore}
use vorder.Storage.Cache.{Page, Layout, find, get_page, get_offset, get_page_id}
use vorder.Storage.Record.{HostCodec}
use vorder.Storage.Update.{
  ModifyMemLogItem, UpdateTable, restore_items, fetch, edit_page, restore, rollback_cache, update,
}
use vorder.Storage.Update.Undo.{
  undo, has_record, has_record-append, length-slice_le, splice_again, splice_restore,
}
use vorder.Storage.Update.Pages.{find-restore_items}
use vorder.Storage.Update.Rollback.{
  content, IsChanging, update-IsChanging, rollback_cache-IsChanging,
}

-- Two Updates of one record in a transaction, by records of the full length: their items, put back in
-- the order in which they were kept, leave on the cached page the bytes of the first Update, not the
-- ones before it.
pub restore_items-twice :
    (l : Layout) (r : ℕ) (xs ys c : List ℕ) (pages : List Page) (p : Page)
    → length xs ≡ l.record_len
    → length ys ≡ l.record_len
    → get_offset l r + l.record_len ≤ length c
    → find (get_page_id l r) pages ≡ some p
    → p.content ≡ splice (get_offset l r) ys (splice (get_offset l r) xs c)
    → let first : ModifyMemLogItem = record {
      record_id = r;
      original = slice (get_offset l r) l.record_len c;
      page = get_page_id l r;
    } in
      let second : ModifyMemLogItem = record {
        record_id = r;
        original = slice (get_offset l r) l.record_len (splice (get_offset l r) xs c);
        page = get_page_id l r;
      } in
      find (get_page_id l r) (restore_items l (first ∷ second ∷ []) pages)
      ≡ some (record p { content = splice (get_offset l r) xs c })
unfolding undo restore slice
restore_items-twice l r xs ys c pages p n m fits f e =
    let off = get_offset l r in
    let d = splice off xs c in
    let original = slice off l.record_len c in
    let item : List ℕ → ModifyMemLogItem =
      λ o. record { record_id = r; original = o; page = get_page_id l r } in
    let found =
      find-restore_items l (get_page_id l r) (item original ∷ item (slice off l.record_len d) ∷ [])
        pages in
    let again : splice off original p.content ≡ splice off original d =
      ap (splice off original) e
      ∙ splice_again off original ys d
          (omega (arith, length-take l.record_len (drop off c), length-drop off c)) in
    let back : splice off (slice off l.record_len d) (splice off original d) ≡ d =
      splice_restore off l.record_len original d (length-slice_le off l.record_len c) in
    ground (arith, found, f, again, back)

unfoldable pub updated : {R : Type 0} → ℕ → List (ℕ × R) → Bool
updated r [] = false
updated r ((s, x) ∷ us) = (s == r) || updated r us

-- No record is updated twice.
abbrev pub OnceEach : {R : Type 0} → List (ℕ × R) → Type 0
OnceEach [] = Unit {0}
OnceEach ((r, x) ∷ us) = (updated r us ≡ false) × OnceEach us

module _ (ps : PageStore) {R : Type 0} (codec : HostCodec R) where
  update-keeps :
      (r : ℕ) (x : R) (t : UpdateTable ps.State)
      → ((update ps codec r x t).0.layout ≡ t.layout) × ((update ps codec r x t).0.store ≡ t.store)
  unfolding update fetch edit_page
  update-keeps r x t =
      elim (Option-cases (get_page (ps.read_page t.store) (get_page_id t.layout r) t.cache).1) [
        | inl e ↦ rw (e, update) (refl, refl)
        | inr (p, e) ↦ rw (e, update) (refl, refl)
      ]

  update-has_record :
      (r s : ℕ) (x : R) (t : UpdateTable ps.State)
      → r ≢ s
      → has_record s t.update_log ≡ false
      → has_record s (update ps codec r x t).0.update_log ≡ false
  unfolding update fetch edit_page
  update-has_record r s x t ne h =
      elim (Option-cases (get_page (ps.read_page t.store) (get_page_id t.layout r) t.cache).1) [
        | inl e ↦ rw (e, update) h
        | inr (p, e) ↦
            let item : ModifyMemLogItem = record {
              record_id = r;
              original = slice (get_offset t.layout r) t.layout.record_len p.content;
              page = p.page_id;
            } in
            rw (e, update) (ground (arith, has_record-append s t.update_log item))
      ]

  -- A run of Updates.
  unfoldable pub updates : List (ℕ × R) → UpdateTable ps.State → UpdateTable ps.State
  unfolding update
  updates [] t = t
  updates ((r, x) ∷ us) t = updates us (update ps codec r x t).0

  -- Where the log is empty, the table shows what the store has.
  content_start :
      (t : UpdateTable ps.State) (i : ℕ)
      → IsChanging ps t
      → t.update_log ≡ []
      → content ps t i ≡ ps.read_page t.store i
  unfolding undo
  content_start t i h empty = elim (Option-cases (content ps t i)) [
    | inl e ↦ e ∙ sym (h.missing i e)
    | inr (c, e) ↦
        e
        ∙ ap (λ (l : List ModifyMemLogItem). some (undo t.layout i l c)) (sym empty)
        ∙ sym (h.undone i c e)
  ]

  updates-IsChanging :
      (us : List (ℕ × R)) (t : UpdateTable ps.State)
      → codec.size ≤ t.layout.record_len
      → OnceEach us
      → ((r : ℕ) → updated r us ≡ true → has_record r t.update_log ≡ false)
      → IsChanging ps t
      → IsChanging ps (updates us t) × ((updates us t).store ≡ t.store)
  unfolding updates updated
  updates-IsChanging [] t small once fresh h = (h, refl)
  updates-IsChanging ((r, x) ∷ us) t small once fresh h =
      let (shape, kept) = update-keeps r x t in
      let next = update-IsChanging ps codec r x t small (fresh r (ground arith)) h in
      let u = (update ps codec r x t).0 in
      let apart : (s : ℕ) → updated s us ≡ true → r ≢ s =
        λ s p e. absurd (ground (arith, once.0)) in
      let fits : codec.size ≤ u.layout.record_len = rw shape small in
      let (i, e) =
        updates-IsChanging us u fits once.1
          (λ s p. update-has_record r s x t (apart s p) (fresh s (ground arith))) next in
      (i, e ∙ kept)

  -- RollbackCache after a run of Updates on a well-formed table with an empty log queue, each record
  -- at most once, by a codec whose records fit: every page shows what it showed before the run.
  pub rollback_cache-updates :
      (us : List (ℕ × R)) (t : UpdateTable ps.State)
      → codec.size ≤ t.layout.record_len
      → OnceEach us
      → IsChanging ps t
      → t.update_log ≡ []
      → (i : ℕ) → content ps (rollback_cache ps (updates us t)) i ≡ content ps t i
  unfolding has_record
  rollback_cache-updates us t small once h empty i =
      let (c, e) = updates-IsChanging us t small once (λ r p. ap (has_record r) empty) h in
      let after = (rollback_cache-IsChanging ps (updates us t) c).1 i in
      after ∙ ap (λ (s : ps.State). ps.read_page s i) e ∙ sym (content_start t i h empty)
