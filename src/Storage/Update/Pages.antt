-- ===== src/Storage/Update/Pages.antt =====
-- The cached pages after the two loops of RollbackCache.
use mathlib.Core.Path.{subst}
use vorder.Base.{
  ℕ, ◌≡◌, sym, inl, inr, false, none, some, List, [], ◌∷◌, if◌then◌else◌, arith, Option-cases,
}
use vorder.Storage.Cache.{Page, Cache, Layout, find, set_page}
use vorder.Storage.Cache.Pages.{Distinct, find-page_id, find-set_page, Distinct-set_page}
use vorder.Storage.Cache.Old.{OldPages}
use vorder.Storage.MultiUpdate.View.{has}
use vorder.Storage.Update.{ModifyMemLogItem, restore, restore_items, clean_pages}
use vorder.Storage.Update.Undo.{undo}

-- What the cached pages hold once the items are put back.
pub find-restore_items :
    (l : Layout) (i : ℕ) (ms : List ModifyMemLogItem) (ps : List Page)
    → find i (restore_items l ms ps) ≡ elim (find i ps) [
      | some p ↦ some (record p { content = undo l i ms p.content })
      | none ↦ none
    ]
unfolding restore_items undo
find-restore_items l i [] ps = ground arith
find-restore_items l i (m ∷ ms) ps = elim (Option-cases (find m.page ps)) [
  | inl e ↦ ground (arith, e, find-restore_items l i ms ps)
  | inr (p, e) ↦
      let q : Page = record p { content = restore l m.record_id m.original p.content } in
      ground (
        arith,
        e,
        find-page_id m.page ps p e,
        find-restore_items l i ms (set_page q ps),
        find-set_page i q ps,
      )
]

pub Distinct-restore_items :
    (l : Layout) (ms : List ModifyMemLogItem) (ps : List Page)
    → Distinct ps
    → Distinct (restore_items l ms ps)
unfolding restore_items
Distinct-restore_items l [] ps d = d
Distinct-restore_items l (m ∷ ms) ps d = elim (Option-cases (find m.page ps)) [
  | inl e ↦ rw (e, restore_items) (Distinct-restore_items l ms ps d)
  | inr (p, e) ↦
      let q : Page = record p { content = restore l m.record_id m.original p.content } in
      rw (e, restore_items) (Distinct-restore_items l ms (set_page q ps) (Distinct-set_page q ps d))
]

-- Pages that are not new stay, and those listed are clean.
pub find-clean_pages :
    (is : List ℕ) (c : Cache) (i : ℕ)
    → OldPages c.pages
    → find i (clean_pages is c).pages ≡ elim (find i c.pages) [
      | some p ↦ some (record p { is_dirty = if has i is then false else p.is_dirty })
      | none ↦ none
    ]
unfolding clean_pages has
find-clean_pages [] c i old = ground arith
find-clean_pages (k ∷ is) c i old = elim (Option-cases (find k c.pages)) [
  | inl e ↦ ground (arith, e, find-clean_pages is c i old)
  | inr (p, e) ↦
      let q : Page = record p { is_dirty = false } in
      let next : Cache = record c { pages = set_page q c.pages } in
      let flag = old k p e in
      let old' : OldPages next.pages =
        λ j r f. ground (arith, find-set_page j q c.pages, old j r) in
      ground (
        arith,
        e,
        flag,
        find-page_id k c.pages p e,
        find-clean_pages is next i old',
        find-set_page i q c.pages,
      )
]

pub Distinct-clean_pages :
    (is : List ℕ) (c : Cache)
    → OldPages c.pages
    → Distinct c.pages
    → Distinct (clean_pages is c).pages
unfolding clean_pages
Distinct-clean_pages [] c old d = d
Distinct-clean_pages (k ∷ is) c old d = elim (Option-cases (find k c.pages)) [
  | inl e ↦ rw (e, clean_pages) (Distinct-clean_pages is c old d)
  | inr (p, e) ↦
      let q : Page = record p { is_dirty = false } in
      let next : Cache = record c { pages = set_page q c.pages } in
      let flag = old k p e in
      let old' : OldPages next.pages =
        λ j r f. ground (arith, find-set_page j q c.pages, old j r) in
      let step : clean_pages (k ∷ is) c ≡ clean_pages is next = ground (arith, e, flag) in
      subst (λ (d : Cache). Distinct d.pages) (sym step)
        (Distinct-clean_pages is next old' (Distinct-set_page q c.pages d))
]
