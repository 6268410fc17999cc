-- ===== src/Storage/Append.antt =====
-- vbh_append_table.{h,inl,cpp}: CVbhAppendTable, the table that gives each new record the next id. The
-- pages filled by a transaction are m_pAppendPage and those of m_queueAppendPage before it.
pub mod Shows
pub mod Consecutive
pub mod Undone
use vorder.Base.{
  ℕ, ◌+◌, ◌-◌, ◌*◌, ◌/◌, ◌%◌, ◌^◌, Bool, true, false, Option, none, some, List, [], ◌∷◌, ◌++◌,
  if◌then◌else◌, ◌==◌, ltb,
}
use vorder.Storage.PageStore.{PageStore}
use vorder.Storage.Cache.{
  Page, Cache, Layout, get_page, insert_page, release_page, set_page, find, get_page_id,
}
use vorder.Storage.Record.{HostCodec, write_record}
use vorder.Storage.Update.{clean_pages, write_dirty}

-- The file that the mapping of the log shows.
pub data Mapped : Type 0 where
  config_file log_file : Mapped

-- A page pointer is the id of a cached page. `cfg_last` and `log_last` are the ids in the two files.
pub record AppendTable (S : Type 0) : Type 0 where
  pub cache : Cache
  pub layout : Layout
  pub last_record_id : ℕ
  pub append_page : Option ℕ
  pub append_queue : List ℕ
  pub cfg_last : ℕ
  pub log_last : ℕ
  pub log_map : Mapped
  pub store : S

-- Open on files that exist: m_pLog is mapped from strCtrlFilePath, as m_pCfg is.
unfoldable pub open_table : {S : Type 0} → Cache → Layout → ℕ → ℕ → S → AppendTable S
open_table cache layout cfg log store = record {
  cache = cache;
  layout = layout;
  last_record_id = cfg;
  append_page = none;
  append_queue = [];
  cfg_last = cfg;
  log_last = log;
  log_map = config_file;
  store = store;
}

-- m_pLog->m_nLastRecordID
abbrev pub read_log : {S : Type 0} → AppendTable S → ℕ
read_log t = elim t.log_map [ config_file ↦ t.cfg_last | log_file ↦ t.log_last ]

unfoldable pub save_to_log : {S : Type 0} → AppendTable S → AppendTable S
save_to_log t = elim t.log_map [ config_file ↦ t | log_file ↦ record t { log_last = t.cfg_last } ]

-- ++ and -- on ACE_UINT64.
unfoldable pub inc64 : ℕ → ℕ
inc64 n = (n + 1) % 2 ^ 64

unfoldable pub dec64 : ℕ → ℕ
dec64 n = (n + 2 ^ 64 - 1) % 2 ^ 64

-- The last page of the queue, and those before it.
unfoldable pub back_page : List ℕ → Option ℕ × List ℕ
back_page [] = (none, [])
back_page (i ∷ []) = (some i, [])
back_page (i ∷ j ∷ is) = let (b, rest) = back_page (j ∷ is) in (b, i ∷ rest)

unfoldable pub pop_back : {S : Type 0} → AppendTable S → AppendTable S
unfolding dec64 release_page back_page
pop_back t =
    let last = dec64 t.last_record_id in
    let u = record t { last_record_id = last } in
    let (b, rest) = back_page t.append_queue in
    if last % t.layout.page_record_num == 0
    then elim t.append_page [
      | none ↦ u
      | some p ↦ record u { cache = release_page p t.cache; append_page = b; append_queue = rest }
    ]
    else u

-- CommitteTransaction's loop over the queue.
unfoldable pub unmark_pages : List ℕ → List Page → List Page
unfolding find set_page
unmark_pages [] pages = pages
unmark_pages (i ∷ is) pages =
    let next : List Page = elim (find i pages) [
      | some p ↦ set_page (record p { is_dirty = false }) pages
      | none ↦ pages
    ] in
    unmark_pages is next

unfoldable pub committe_transaction : {S : Type 0} → AppendTable S → AppendTable S
unfolding unmark_pages find set_page
committe_transaction t =
    let pages = unmark_pages t.append_queue t.cache.pages in
    let marked : List Page = elim t.append_page [
      | none ↦ pages
      | some i ↦ elim (find i pages) [
        | some p ↦ set_page (record p { is_dirty = false; is_new = false }) pages
        | none ↦ pages
      ]
    ] in
    record t { cache = record (t.cache) { pages = marked }; append_page = none; append_queue = [] }

-- What RollbackCache does with m_pAppendPage: a new page is released, an old one is kept as it is.
unfoldable pub rollback_append_page : ℕ → Cache → Cache × Option ℕ
unfolding find set_page release_page
rollback_append_page i c = elim (find i c.pages) [
  | none ↦ (c, some i)
  | some p ↦ if p.is_new then (release_page i c, none) else (
    record c { pages = set_page (record p { is_dirty = false; is_new = false }) c.pages },
    some i,
  )
]

-- none is the dereference of an append page that is NULL.
unfoldable pub rollback_cache : {S : Type 0} → AppendTable S → Option (AppendTable S)
unfolding clean_pages rollback_append_page
rollback_cache t =
    let u = record t { last_record_id = t.cfg_last } in
    if ltb t.cfg_last t.last_record_id
    then elim t.append_page [
      | none ↦ none
      | some i ↦
          let (c, p) = rollback_append_page i (clean_pages t.append_queue t.cache) in
          some (record u { cache = c; append_page = p; append_queue = [] })
    ]
    else some u

-- A write to m_pCfg->m_nLastRecordID.
unfoldable pub rollback_transaction : {S : Type 0} → AppendTable S → Option (AppendTable S)
unfolding rollback_cache
rollback_transaction t = elim (rollback_cache t) [
  | none ↦ none
  | some u ↦ some (record u { cfg_last = read_log u })
]

unfoldable pub recover_from_log : {S : Type 0} → AppendTable S → AppendTable S
recover_from_log t = record t { cfg_last = read_log t; last_record_id = read_log t }

module _ (ps : PageStore) where
  -- Persistence; none is the write of an append page that is NULL.
  unfoldable pub persistence : AppendTable ps.State → Option (AppendTable ps.State × Bool)
  unfolding write_dirty
  persistence t =
      if ltb t.cfg_last t.last_record_id
      then elim t.append_page [
        | none ↦ none
        | some i ↦
            let (s, done) = write_dirty ps (t.append_queue ++ i ∷ []) t.cache.pages t.store in
            if done
            then some (record t { store = s; cfg_last = t.last_record_id }, true)
            else some (record t { store = s }, false)
      ]
      else some (record t { cfg_last = t.last_record_id }, true)

module _ (ps : PageStore) {R : Type 0} (codec : HostCodec R) where
  -- A new page in the memory `blank`, with the record written into it.
  unfoldable pub start_page : List ℕ → R → AppendTable ps.State → AppendTable ps.State
  unfolding get_page_id insert_page write_record inc64
  start_page blank r t =
      let i = get_page_id t.layout t.last_record_id in
      record t {
        cache =
            insert_page
              (record {
                is_new = true;
                is_dirty = true;
                content = write_record codec t.layout t.last_record_id r blank;
                page_id = i;
              })
              t.cache;
        append_page = some i;
        last_record_id = inc64 t.last_record_id;
      }

  -- The record written into the append page `i`.
  unfoldable pub fill_page : ℕ → R → AppendTable ps.State → AppendTable ps.State
  unfolding find set_page write_record inc64
  fill_page i r t = record t {
    cache = elim (find i t.cache.pages) [
      | none ↦ t.cache
      | some p ↦ record (t.cache) {
        pages =
            set_page
              (record p { content = write_record codec t.layout t.last_record_id r p.content })
              t.cache.pages;
      }
    ];
    last_record_id = inc64 t.last_record_id;
  }

  -- Append's branch for a partly filled page of an earlier transaction.
  unfoldable pub resume_page : R → AppendTable ps.State → AppendTable ps.State × Bool
  unfolding get_page get_page_id set_page write_record inc64
  resume_page r t =
      let (c, got) =
        get_page (ps.read_page t.store) (get_page_id t.layout t.last_record_id) t.cache in
      elim got [
        | none ↦ (record t { cache = c; append_page = none }, false)
        | some p ↦ (
          record t {
            cache = record c {
              pages =
                  set_page
                    (record p {
                      is_new = false;
                      is_dirty = true;
                      content = write_record codec t.layout t.last_record_id r p.content;
                    })
                    c.pages;
            };
            append_page = some p.page_id;
            last_record_id = inc64 t.last_record_id;
          },
          true,
        )
      ]

  -- Append; the id that it gives is last_record_id, the Bool tells whether it returned 0.
  unfoldable pub append : List ℕ → R → AppendTable ps.State → AppendTable ps.State × Bool
  unfolding start_page fill_page resume_page get_page_id
  append blank r t = elim t.append_page [
    | some p ↦
        if get_page_id t.layout t.last_record_id == p
        then (fill_page p r t, true)
        else (start_page blank r (record t { append_queue = t.append_queue ++ p ∷ [] }), true)
    | none ↦
        if t.last_record_id % t.layout.page_record_num == 0
        then (start_page blank r t, true)
        else resume_page r t
  ]
