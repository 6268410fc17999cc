-- ===== src/Storage/MultiUpdate.antt =====
-- vbh_multi_update_table.{h,inl,cpp}: CVbhMultiUpdateTable, the table of write-set versions. Changes
-- are made in cached pages, packed by PackModify into a package (one per block), and the oldest
-- package is logged, written and dropped when its block is confirmed. `order` is the order in which
-- an unordered_map of the standard library is iterated.
pub mod View
pub mod Edit
pub mod Pack
pub mod Persist
pub mod Log
use vorder.Base.{
  ℕ, zero, suc, ◌<◌, ◌^◌, ◌+◌, ◌*◌, ◌/◌, ◌%◌, ◌≡◌, Bool, true, false, not, Option, none, some, List,
  [], ◌∷◌, ◌++◌, map, ltb, if◌then◌else◌, ◌==◌, length, take, replicate, splice, ◌-◌,
}
use vorder.Storage.PageStore.{PageStore}
use vorder.Storage.Cache.{
  Page, Cache, Layout, get_page, insert_page, release_page, set_page, find, get_page_id, get_offset,
}
use vorder.Storage.Record.{HostCodec, read_record, write_record}

-- CModifyPackage::CCodecPage, and the map of a package, searched by page id.
pub record CodecPage : Type 0 where
  pub is_new : Bool
  pub page_id : ℕ
  pub page_data : List ℕ

abbrev pub Package : Type 0
Package = List CodecPage

unfoldable pub find_codec : ℕ → Package → Option CodecPage
find_codec i [] = none
find_codec i (p ∷ ps) = if p.page_id == i then some p else find_codec i ps

-- unordered_map::insert: a key that is there already keeps its value.
unfoldable pub insert_codec : CodecPage → Package → Package
unfolding find_codec
insert_codec p m = elim (find_codec p.page_id m) [ some q ↦ m | none ↦ m ++ p ∷ [] ]

-- What the encoder and the decoder of the DSC library do with a 32-bit number and with a CCodecPage,
-- outside the repository: the decoder gives the value and the bytes behind it.
pub record LogCodec : Type 0 where
  pub encode_count : ℕ → List ℕ
  pub decode_count : List ℕ → Option (ℕ × List ℕ)
  pub encode_page : CodecPage → List ℕ
  pub decode_page : List ℕ → Option (CodecPage × List ℕ)
  pub decode-encode_count :
      (n : ℕ) (rest : List ℕ) → n < 2 ^ 32 → decode_count (encode_count n ++ rest) ≡ some (n, rest)
  pub decode-encode_page :
      (p : CodecPage) (rest : List ℕ) → decode_page (encode_page p ++ rest) ≡ some (p, rest)

-- SaveToLog's loop over the pages, and what it writes: their number, cut to 32 bits, and the pages.
unfoldable pub encode_pages : LogCodec → List CodecPage → List ℕ
encode_pages codec [] = []
encode_pages codec (p ∷ ps) = codec.encode_page p ++ encode_pages codec ps

unfoldable pub encode_log : LogCodec → List CodecPage → List ℕ
unfolding encode_pages
encode_log codec ps = codec.encode_count (length ps % 2 ^ 32) ++ encode_pages codec ps

-- RedoByLog's loop over the pages, `n` of them left, and what it reads; none is an error of the decoder.
unfoldable pub decode_pages : LogCodec → ℕ → List ℕ → Option (List CodecPage)
decode_pages codec zero bytes = some []
decode_pages codec (suc n) bytes = elim (codec.decode_page bytes) [
  | none ↦ none
  | some (p, rest) ↦ elim (decode_pages codec n rest) [ none ↦ none | some ps ↦ some (p ∷ ps) ]
]

unfoldable pub decode_log : LogCodec → List ℕ → Option (List CodecPage)
unfolding decode_pages
decode_log codec bytes = elim (codec.decode_count bytes) [
  | none ↦ none
  | some (n, rest) ↦ decode_pages codec n rest
]

-- `log_file` is the content of the log file, `log_open` whether it is mapped.
pub record Table (S : Type 0) : Type 0 where
  pub cache : Cache
  pub layout : Layout
  pub packages : List Package
  pub cur_dirty : List ℕ
  pub log_file : List ℕ
  pub log_open : Bool
  pub log_filesize : ℕ
  pub store : S

-- EN_CLS_LOG_FILE_BASE_SIZE, and ACE_MALLOC_ROUNDUP to a multiple of it.
abbrev log_file_base_size : ℕ
log_file_base_size = 1024 * 1024

unfoldable pub round_up : ℕ → ℕ
round_up n = (n + (log_file_base_size - 1)) / log_file_base_size * log_file_base_size

-- ResizeMmapFile: the file is cut, or extended by zeros, and mapped again.
unfoldable pub resize_mmap_file : ℕ → List ℕ → List ℕ
resize_mmap_file n file = take n file ++ replicate (n - length file) 0

-- The newest package that has the page: the search of ReadPage from the back of the queue.
unfoldable pub find_packed : ℕ → List Package → Option CodecPage
unfolding find_codec
find_packed i [] = none
find_packed i (m ∷ ms) = elim (find_packed i ms) [ some q ↦ some q | none ↦ find_codec i m ]

pub data Saved : Type 0 where
  -- SaveToLog returned 0, returned -1, or wrote to a mapping that is not open.
  saved failed fault : Saved

module _ (ps : PageStore) where
  -- CVbhMultiUpdateTable::ReadPage
  unfoldable pub read_page : List Package → ps.State → ℕ → Option (List ℕ)
  unfolding find_packed
  read_page ms s i = elim (find_packed i ms) [ some q ↦ some q.page_data | none ↦ ps.read_page s i ]

  unfoldable pub fetch : ℕ → Table ps.State → Cache × Option Page
  unfolding read_page get_page
  fetch i t = get_page (read_page t.packages t.store) i t.cache

  -- The write of an encoded record into a cached page, and the entry in m_lstCurDirtyPage.
  unfoldable pub edit_page : List ℕ → Page → Table ps.State → Table ps.State
  unfolding set_page
  edit_page content p t = record t {
    cache = record (t.cache) {
      pages = set_page (record p { content = content; is_dirty = true }) t.cache.pages;
    };
    cur_dirty = if p.is_dirty then t.cur_dirty else t.cur_dirty ++ p.page_id ∷ [];
  }

  -- ReleasePage on each page of m_lstCurDirtyPage.
  unfoldable pub release_pages : List ℕ → Cache → Cache
  unfolding release_page
  release_pages [] c = c
  release_pages (i ∷ is) c = release_pages is (release_page i c)

  unfoldable pub rollback_unpack_cache : Table ps.State → Table ps.State
  unfolding release_pages
  rollback_unpack_cache t = record t { cache = release_pages t.cur_dirty t.cache; cur_dirty = [] }

  -- The copy of a dirty page that goes into the package.
  to_codec : Page → CodecPage
  to_codec p = record { is_new = p.is_new; page_id = p.page_id; page_data = p.content }

  -- One round of PackModify's loop.
  pack_page : ℕ → Package × List Page → Package × List Page
  unfolding insert_codec find set_page to_codec
  pack_page i (m, pages) = elim (find i pages) [
    | some p ↦ (
      insert_codec (to_codec p) m,
      set_page (record p { is_dirty = false; is_new = false }) pages,
    )
    | none ↦ (m, pages)
  ]

  unfoldable pub pack_pages : List ℕ → Package × List Page → Package × List Page
  unfolding pack_page
  pack_pages [] r = r
  pack_pages (i ∷ is) r = pack_pages is (pack_page i r)

  unfoldable pub pack_modify : Table ps.State → Table ps.State
  unfolding pack_pages
  pack_modify t =
      let (m, pages) = pack_pages t.cur_dirty ([], t.cache.pages) in
      record t {
        cache = record (t.cache) { pages = pages };
        packages = t.packages ++ m ∷ [];
        cur_dirty = [];
      }

  -- CommitteTransaction drops the oldest package.
  unfoldable pub committe_transaction : Table ps.State → Table ps.State
  committe_transaction t = record t { packages = elim t.packages [ [] ↦ [] | m ∷ ms ↦ ms ] }

  -- WritePage on each page, up to the first failure.
  unfoldable pub write_pages : List CodecPage → ps.State → ps.State × Bool
  write_pages [] s = (s, true)
  write_pages (p ∷ rest) s =
      let (s', done) = ps.write_page p.is_new p.page_id p.page_data s in
      let next = write_pages rest s' in if done then next else (s', false)

module _ (ps : PageStore) {R : Type 0} (codec : HostCodec R) where
  -- CVbhRecordTable::Read; none is the return code -1.
  unfoldable pub read : ℕ → Table ps.State → Table ps.State × Option R
  unfolding fetch get_page_id read_record
  read record_id t =
      let (c, r) = fetch ps (get_page_id t.layout record_id) t in
      (
        record t { cache = c },
        elim r [ some p ↦ some (read_record codec t.layout record_id p.content) | none ↦ none ],
      )

  -- Update; the Bool tells whether it returned 0.
  unfoldable pub update : ℕ → R → Table ps.State → Table ps.State × Bool
  unfolding fetch get_page_id edit_page write_record
  update record_id r t =
      let (c, got) = fetch ps (get_page_id t.layout record_id) t in
      elim got [
        | some p ↦ (
          edit_page ps (write_record codec t.layout record_id r p.content) p
              (record t { cache = c }),
          true,
        )
        | none ↦ (record t { cache = c }, false)
      ]

  -- The branch of Append for the first record of a page: a new page in the memory `blank`.
  unfoldable pub append_page : List ℕ → ℕ → R → Table ps.State → Table ps.State
  unfolding get_page_id insert_page write_record
  append_page blank record_id r t =
      let i = get_page_id t.layout record_id in
      record t {
        cache =
            insert_page
              (record {
                is_new = true;
                is_dirty = true;
                content = write_record codec t.layout record_id r blank;
                page_id = i;
              })
              t.cache;
        cur_dirty = t.cur_dirty ++ i ∷ [];
      }

  -- Append; its branch for a later record of a page writes as Update does.
  unfoldable pub append : List ℕ → ℕ → R → Table ps.State → Table ps.State × Bool
  unfolding update append_page
  append blank record_id r t =
      if record_id % t.layout.page_record_num == 0
      then (append_page blank record_id r t, true)
      else update record_id r t

module _ (ps : PageStore) (codec : LogCodec) (order : Package → List CodecPage) where
  write_log : List ℕ → Table ps.State → Table ps.State × Saved
  unfolding splice
  write_log bytes t =
      if t.log_open then (record t { log_file = splice 0 bytes t.log_file }, saved) else (t, fault)

  -- SaveToLog of the pages `pages`; `resized` is whether ResizeMmapFile succeeds, if it is called.
  -- A failure leaves the mapping closed and the file size already changed.
  unfoldable pub save_pages : Bool → List CodecPage → Table ps.State → Table ps.State × Saved
  unfolding resize_mmap_file write_log round_up encode_log
  save_pages resized pages t =
      let bytes = encode_log codec pages in
      let size = round_up (length bytes) in
      if ltb t.log_filesize (length bytes)
      then if resized
        then write_log bytes (record t {
          log_filesize = size;
          log_file = resize_mmap_file size t.log_file;
          log_open = true;
        })
        else (record t { log_filesize = size; log_open = false }, failed)
      else write_log bytes t

  unfoldable pub save_to_log : Bool → Table ps.State → Table ps.State × Saved
  unfolding save_pages
  save_to_log resized t = elim t.packages [
    | [] ↦ (t, fault)
    | m ∷ ms ↦ save_pages resized (order m) t
  ]

  unfoldable pub persistence : Table ps.State → Table ps.State × Bool
  unfolding write_pages
  persistence t = elim t.packages [
    | [] ↦ (t, false)
    | m ∷ ms ↦ let (s, done) = write_pages ps (order m) t.store in (record t { store = s }, done)
  ]

  -- RedoByLog: false when the log cannot be decoded or a page cannot be written.
  unfoldable pub redo_by_log : Table ps.State → Table ps.State × Bool
  unfolding write_pages decode_log
  redo_by_log t = elim (decode_log codec t.log_file) [
    | none ↦ (t, false)
    | some pages ↦ let (s, done) = write_pages ps pages t.store in (record t { store = s }, done)
  ]
