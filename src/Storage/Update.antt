-- ===== src/Storage/Update.antt =====
-- vbh_update_table.{h,inl,cpp}: CVbhUpdateTable, the table of the records that a transaction changes in
-- place. Update keeps the bytes it overwrites in the log queue; the log file gets them before the dirty
-- pages are written, so that RollbackTransaction and RecoverFromLog can put them back.
pub mod Undo
pub mod Pages
pub mod Rollback
pub mod Run
use vorder.Base.{
  ℕ, ◌+◌, ◌-◌, ◌*◌, ◌/◌, ◌%◌, ◌≡◌, Bool, true, false, Option, none, some, List, [], ◌∷◌, ◌++◌, map,
  ltb, if◌then◌else◌, ◌==◌, length, take, replicate, slice, splice,
}
use vorder.Storage.PageStore.{PageStore}
use vorder.Storage.Cache.{
  Page, Cache, Layout, get_page, insert_page, release_page, set_page, find, get_page_id, get_offset,
}
use vorder.Storage.Record.{HostCodec, write_record}
use vorder.Storage.MultiUpdate.{Saved, saved, failed, fault, round_up, resize_mmap_file}

-- CModifyMemLogItem; `page` is the id of the page that m_pPage points to.
pub record ModifyMemLogItem : Type 0 where
  pub record_id : ℕ
  pub original : List ℕ
  pub page : ℕ

-- The encoder and decoder of the DSC library on a queue of items, outside the repository: the page
-- pointer is not encoded, and what follows the queue in the file is not read.
pub record ItemCodec : Type 0 where
  pub encode_items : List (ℕ × List ℕ) → List ℕ
  pub decode_items : List ℕ → Option (List (ℕ × List ℕ))
  pub decode-encode :
      (l : List (ℕ × List ℕ)) (rest : List ℕ) → decode_items (encode_items l ++ rest) ≡ some l

pub record UpdateTable (S : Type 0) : Type 0 where
  pub cache : Cache
  pub layout : Layout
  pub update_log : List ModifyMemLogItem
  pub dirty_pages : List ℕ
  pub log_file : List ℕ
  pub log_open : Bool
  pub log_filesize : ℕ
  pub store : S

-- The copy of an item that the codec reads.
abbrev pub to_entry : ModifyMemLogItem → ℕ × List ℕ
to_entry m = (m.record_id, m.original)

-- memcpy of the original bytes into the page at the record's place.
unfoldable pub restore : Layout → ℕ → List ℕ → List ℕ → List ℕ
unfolding get_offset splice
restore l record_id original content = splice (get_offset l record_id) original content

-- RollbackCache's first loop, on the pages that the items point to.
unfoldable pub restore_items : Layout → List ModifyMemLogItem → List Page → List Page
unfolding restore find set_page
restore_items l [] pages = pages
restore_items l (m ∷ ms) pages =
    let next : List Page = elim (find m.page pages) [
      | some p ↦ set_page (record p { content = restore l m.record_id m.original p.content }) pages
      | none ↦ pages
    ] in
    restore_items l ms next

-- RollbackCache's second loop: a new page is released, any other is clean again.
unfoldable pub clean_pages : List ℕ → Cache → Cache
unfolding release_page find set_page
clean_pages [] c = c
clean_pages (i ∷ is) c =
    let next : Cache = elim (find i c.pages) [
      | some p ↦
          if p.is_new
          then release_page i c
          else record c { pages = set_page (record p { is_dirty = false }) c.pages }
      | none ↦ c
    ] in
    clean_pages is next

-- The loop of CommitteTransaction over the dirty pages.
unfoldable pub commit_pages : List ℕ → List Page → List Page
unfolding find set_page
commit_pages [] pages = pages
commit_pages (i ∷ is) pages =
    let next : List Page = elim (find i pages) [
      | some p ↦ set_page (record p { is_new = false; is_dirty = false }) pages
      | none ↦ pages
    ] in
    commit_pages is next

module _ (ps : PageStore) where
  unfoldable pub fetch : ℕ → UpdateTable ps.State → Cache × Option Page
  unfolding get_page
  fetch i t = get_page (ps.read_page t.store) i t.cache

  -- The write of an encoded record into a cached page, and the entry in m_lstDirtyPage.
  unfoldable pub edit_page : List ℕ → Page → UpdateTable ps.State → UpdateTable ps.State
  unfolding set_page
  edit_page content p t = record t {
    cache = record (t.cache) {
      pages = set_page (record p { content = content; is_dirty = true }) t.cache.pages;
    };
    dirty_pages = if p.is_dirty then t.dirty_pages else t.dirty_pages ++ p.page_id ∷ [];
  }

  unfoldable pub rollback_cache : UpdateTable ps.State → UpdateTable ps.State
  unfolding restore_items clean_pages
  rollback_cache t = record t {
    cache =
        clean_pages t.dirty_pages
          (record (t.cache) { pages = restore_items t.layout t.update_log t.cache.pages });
    update_log = [];
    dirty_pages = [];
  }

  -- WritePage on the pages of a list, up to the first failure.
  unfoldable pub write_dirty : List ℕ → List Page → ps.State → ps.State × Bool
  unfolding find
  write_dirty [] pages s = (s, true)
  write_dirty (i ∷ is) pages s =
      let (s', done) : ps.State × Bool = elim (find i pages) [
        | some p ↦ ps.write_page p.is_new p.page_id p.content s
        | none ↦ (s, true)
      ] in
      let next = write_dirty is pages s' in if done then next else (s', false)

  unfoldable pub persistence : UpdateTable ps.State → UpdateTable ps.State × Bool
  unfolding write_dirty
  persistence t =
      let (s, done) = write_dirty t.dirty_pages t.cache.pages t.store in
      (record t { store = s }, done)

  -- One round of RecoverFromLog's first loop; none is a dereference of the page that GetPage did not
  -- find. `dirty` is lstDirtyPage.
  recover_item : ℕ × List ℕ → UpdateTable ps.State × List ℕ → Option (UpdateTable ps.State × List ℕ)
  unfolding fetch restore set_page get_page_id
  recover_item (record_id, original) (t, dirty) =
      let (c, got) = fetch (get_page_id t.layout record_id) t in
      elim got [
        | none ↦ none
        | some p ↦ some (
          record t {
            cache = record c {
              pages =
                  set_page
                    (record p {
                      content = restore t.layout record_id original p.content;
                      is_dirty = true;
                    })
                    c.pages;
            };
          },
          if p.is_dirty then dirty else dirty ++ p.page_id ∷ [],
        )
      ]

  recover_items :
      List (ℕ × List ℕ) → UpdateTable ps.State × List ℕ → Option (UpdateTable ps.State × List ℕ)
  unfolding recover_item
  recover_items [] r = some r
  recover_items (e ∷ es) r = elim (recover_item e r) [ none ↦ none | some q ↦ recover_items es q ]

  -- Its second loop: WritePage, which clears the dirty mark of each page that is written.
  write_recovered : List ℕ → UpdateTable ps.State → UpdateTable ps.State × Bool
  unfolding find set_page
  write_recovered [] t = (t, true)
  write_recovered (i ∷ is) t = elim (find i t.cache.pages) [
    | none ↦ write_recovered is t
    | some p ↦
        let (s, done) = ps.write_page p.is_new p.page_id p.content t.store in
        let next = write_recovered is (record t {
          store = s;
          cache = record (t.cache) {
            pages = set_page (record p { is_dirty = false }) t.cache.pages;
          };
        }) in
        if done then next else (record t { store = s }, false)
  ]

  unfoldable pub recover_from_log :
      ItemCodec → UpdateTable ps.State → Option (UpdateTable ps.State × Bool)
  unfolding recover_items write_recovered
  recover_from_log codec t = elim (codec.decode_items t.log_file) [
    | none ↦ some (t, false)
    | some entries ↦ elim (recover_items entries (t, [])) [
      | none ↦ none
      | some (u, dirty) ↦ some (write_recovered dirty u)
    ]
  ]

  unfoldable pub rollback_transaction :
      ItemCodec → UpdateTable ps.State → Option (UpdateTable ps.State × Bool)
  unfolding rollback_cache recover_from_log
  rollback_transaction codec t = recover_from_log codec (rollback_cache t)

  -- SaveToLog; `resized` is whether ResizeMmapFile succeeds, if it is called.
  write_log : List ℕ → UpdateTable ps.State → UpdateTable ps.State × Saved
  unfolding splice
  write_log bytes t =
      if t.log_open then (record t { log_file = splice 0 bytes t.log_file }, saved) else (t, fault)

  unfoldable pub save_to_log :
      ItemCodec → Bool → UpdateTable ps.State → UpdateTable ps.State × Saved
  unfolding resize_mmap_file write_log round_up
  save_to_log codec resized t =
      let bytes = codec.encode_items (map to_entry t.update_log) in
      let size = round_up (length bytes) in
      if ltb t.log_filesize (length bytes)
      then if resized
        then write_log bytes (record t {
          log_filesize = size;
          log_file = resize_mmap_file size t.log_file;
          log_open = true;
        })
        else (record t { log_filesize = size; log_open = false }, failed)
      else write_log bytes t

  unfoldable pub committe_transaction :
      ItemCodec → Bool → UpdateTable ps.State → UpdateTable ps.State
  unfolding commit_pages save_to_log
  committe_transaction codec resized t =
      (save_to_log codec resized (record t {
        cache = record (t.cache) { pages = commit_pages t.dirty_pages t.cache.pages };
        update_log = [];
        dirty_pages = [];
      })).0

module _ (ps : PageStore) {R : Type 0} (codec : HostCodec R) where
  -- Update; the Bool tells whether it returned 0.
  unfoldable pub update : ℕ → R → UpdateTable ps.State → UpdateTable ps.State × Bool
  unfolding fetch get_page_id get_offset edit_page write_record slice
  update record_id r t =
      let (c, got) = fetch ps (get_page_id t.layout record_id) t in
      elim got [
        | some p ↦ (
          edit_page ps (write_record codec t.layout record_id r p.content) p (record t {
            cache = c;
            update_log =
                t.update_log
                ++ record {
                  record_id = record_id;
                  original = slice (get_offset t.layout record_id) t.layout.record_len p.content;
                  page = p.page_id;
                }
                  ∷ [];
          }),
          true,
        )
        | none ↦ (record t { cache = c }, false)
      ]

  -- The branch of Append for the first record of a page: a new page in the memory `blank`.
  unfoldable pub append_page : List ℕ → ℕ → R → UpdateTable ps.State → UpdateTable ps.State
  unfolding get_page_id insert_page write_record
  append_page blank record_id r t =
      let i = get_page_id t.layout record_id in
      record t {
        cache =
            insert_page
              (record {
                is_new = true;
                is_dirty = true;
                content = write_record codec t.layout record_id r blank;
                page_id = i;
              })
              t.cache;
        dirty_pages = t.dirty_pages ++ i ∷ [];
      }

  -- Append; its branch for a later record of a page keeps no original bytes.
  unfoldable pub append : List ℕ → ℕ → R → UpdateTable ps.State → UpdateTable ps.State × Bool
  unfolding fetch append_page get_page_id edit_page write_record
  append blank record_id r t =
      let (c, got) = fetch ps (get_page_id t.layout record_id) t in
      if record_id % t.layout.page_record_num == 0
      then (append_page blank record_id r t, true)
      else elim got [
        | some p ↦ (
          edit_page ps (write_record codec t.layout record_id r p.content) p
              (record t { cache = c }),
          true,
        )
        | none ↦ (record t { cache = c }, false)
      ]
