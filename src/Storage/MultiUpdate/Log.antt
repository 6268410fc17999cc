-- ===== src/Storage/MultiUpdate/Log.antt =====
-- SaveToLog and RedoByLog: the log file holds the oldest package, and a redo after a crash brings it
-- into the store.
use mathlib.Core.List.{append_assoc}
use vorder.Base.{
  ℕ, ◌<◌, ◌^◌, ◌%◌, ◌-◌, ◌≤◌, ◌≡◌, refl, ap, ◌∙◌, Bool, true, false, none, some, List, [], ◌∷◌,
  ◌++◌, ltb, length, length-append, length-take, length-replicate, length-splice, drop, take,
  replicate, splice, arith, Bool-cases, inl, inr,
}
use vorder.Storage.PageStore.{PageStore}
use vorder.Storage.MultiUpdate.{
  Table, Package, CodecPage, LogCodec, encode_pages, encode_log, decode_pages, decode_log, saved,
  failed, fault, find_codec, write_pages, save_pages, save_to_log, write_log, redo_by_log, round_up,
  resize_mmap_file,
}
use vorder.Storage.MultiUpdate.View.{IsPackage}
use vorder.Storage.MultiUpdate.Persist.{IsOrder, write_pages-Reads, Front}

splice-start : (bs c : List ℕ) → length bs ≤ length c → splice 0 bs c ≡ bs ++ drop (length bs) c
unfolding splice
splice-start [] [] h = refl
splice-start [] (x ∷ c) h = refl
splice-start (b ∷ bs) [] h = absurd (omega arith)
splice-start (b ∷ bs) (x ∷ c) h = ap (◌∷◌ b) (splice-start bs c (omega arith))

round_up-ge : (n : ℕ) → n ≤ round_up n
unfolding round_up
round_up-ge n = omega arith

length-resize : (n : ℕ) (file : List ℕ) → length (take n file ++ replicate (n - length file) 0) ≡ n
length-resize n file = omega (
  arith,
  length-append (take n file) (replicate (n - length file) 0),
  length-take n file,
  length-replicate {A = ℕ} (n - length file) 0,
)

-- The pages that the loop of SaveToLog encodes are those that the loop of RedoByLog decodes.
decode-encode_pages :
    (codec : LogCodec) (pages : List CodecPage) (rest : List ℕ)
    → decode_pages codec (length pages) (encode_pages codec pages ++ rest) ≡ some pages
unfolding decode_pages encode_pages
decode-encode_pages codec [] rest = refl
decode-encode_pages codec (p ∷ pages) rest =
    let split = append_assoc (codec.encode_page p) (encode_pages codec pages) rest in
    let first = codec.decode-encode_page p (encode_pages codec pages ++ rest) in
    let next = decode-encode_pages codec pages rest in ground (arith, split, first, next)

decode-encode_log :
    (codec : LogCodec) (pages : List CodecPage) (rest : List ℕ)
    → length pages < 2 ^ 32
    → decode_log codec (encode_log codec pages ++ rest) ≡ some pages
unfolding decode_log encode_log
decode-encode_log codec pages rest few =
    let cut : length pages % 2 ^ 32 ≡ length pages = omega arith in
    let split = append_assoc (codec.encode_count (length pages)) (encode_pages codec pages) rest in
    let count = codec.decode-encode_count (length pages) (encode_pages codec pages ++ rest) few in
    let next = decode-encode_pages codec pages rest in rw cut (ground (arith, split, count, next))

module _ (ps : PageStore) (order : Package → List CodecPage) (codec : LogCodec) where
  -- The log file has the length that the table has for it.
  abbrev pub IsLog : Table ps.State → Type 0
  IsLog t = length t.log_file ≡ t.log_filesize

  -- A log whose file decodes to `pages`.
  record Logs (t : Table ps.State) (pages : List CodecPage) : Type 0 where
    decodes : decode_log codec t.log_file ≡ some pages
    sized : IsLog t

  write_log-Logs :
      (pages : List CodecPage) (t : Table ps.State)
      → IsLog t
      → length (encode_log codec pages) ≤ t.log_filesize
      → length pages < 2 ^ 32
      → (write_log ps codec order (encode_log codec pages) t).1 ≡ saved
      → Logs (write_log ps codec order (encode_log codec pages) t).0 pages
  unfolding write_log
  write_log-Logs pages t h n few done =
      let bytes = encode_log codec pages in
      let fits : length bytes ≤ length t.log_file = omega arith in
      elim (Bool-cases t.log_open) [
        | inr closed ↦ absurd (ground (arith, closed))
        | inl opened ↦
            rw (opened, write_log)
              (record {
                decodes =
                    ap (decode_log codec) (splice-start bytes t.log_file fits)
                    ∙ decode-encode_log codec pages (drop (length bytes) t.log_file) few;
                sized = length-splice 0 bytes t.log_file ∙ h;
              })
      ]

  save_pages-Logs :
      (resized : Bool) (pages : List CodecPage) (t : Table ps.State)
      → IsLog t
      → length pages < 2 ^ 32
      → (save_pages ps codec order resized pages t).1 ≡ saved
      → Logs (save_pages ps codec order resized pages t).0 pages
  unfolding save_pages
  save_pages-Logs true pages t h few done =
      let bytes = encode_log codec pages in
      elim (Bool-cases (ltb t.log_filesize (length bytes))) [
        | inl short ↦
            rw (short, save_pages)
              (write_log-Logs pages
                (record t {
                  log_filesize = round_up (length bytes);
                  log_file = resize_mmap_file (round_up (length bytes)) t.log_file;
                  log_open = true;
                })
                (length-resize (round_up (length bytes)) t.log_file) (round_up-ge (length bytes))
                few (rw (short, save_pages) at done))
        | inr enough ↦
            rw (enough, save_pages)
              (write_log-Logs pages t h (ground arith) few (rw (enough, save_pages) at done))
      ]
  save_pages-Logs false pages t h few done =
      let bytes = encode_log codec pages in
      elim (Bool-cases (ltb t.log_filesize (length bytes))) [
        | inl short ↦ absurd (ground (arith, short))
        | inr enough ↦
            rw (enough, save_pages)
              (write_log-Logs pages t h (ground arith) few (rw (enough, save_pages) at done))
      ]

  save_to_log_front :
      (resized : Bool) (t : Table ps.State) (m : Package) (ms : List Package)
      → t.packages ≡ m ∷ ms
      → save_to_log ps codec order resized t ≡ save_pages ps codec order resized (order m) t
  unfolding save_to_log
  save_to_log_front resized t m ms e = ground arith

  -- The log that SaveToLog leaves.
  save_to_log-decode :
      (resized : Bool) (t : Table ps.State) (m : Package)
      → IsLog t
      → length (order m) < 2 ^ 32
      → Front ps order codec t m
      → (save_to_log ps codec order resized t).1 ≡ saved
      → (decode_log codec (save_to_log ps codec order resized t).0.log_file ≡ some (order m))
        × IsLog (save_to_log ps codec order resized t).0
  save_to_log-decode resized t m h few (ms, e) done =
      let f = save_to_log_front resized t m ms e in
      let l = save_pages-Logs resized (order m) t h few (rw f at done) in rw f (l.decodes, l.sized)

  -- RedoByLog after a crash: whatever the table `u` has in its cache, its packages and its store, if
  -- its log file is the one that a SaveToLog of `t` that returned 0 left and RedoByLog returns 0, then
  -- the store has every page of the oldest package of `t`, and every page not in it that could be read
  -- before; that package has fewer than 2 ^ 32 pages, of full size under ids of their own, the log file of `t` has the
  -- length known to it, and the iteration over a package visits its pages, each once.
  pub redo_by_log-recovers :
      (resized : Bool) (t u : Table ps.State) (m : Package) (j : ℕ)
      → IsOrder order
      → IsPackage ps.page_size m
      → IsLog t
      → length (order m) < 2 ^ 32
      → Front ps order codec t m
      → (save_to_log ps codec order resized t).1 ≡ saved
      → u.log_file ≡ (save_to_log ps codec order resized t).0.log_file
      → (redo_by_log ps codec order u).1 ≡ true
      → ((q : CodecPage)
          → find_codec j m ≡ some q
          → ps.read_page (redo_by_log ps codec order u).0.store j ≡ some q.page_data)
        × ((c : List ℕ)
            → find_codec j m ≡ none
            → ps.read_page u.store j ≡ some c
            → ps.read_page (redo_by_log ps codec order u).0.store j ≡ some c)
  unfolding redo_by_log
  redo_by_log-recovers resized t u m j o k h few f done same redone =
      let d : decode_log codec u.log_file ≡ some (order m) =
        ap (decode_log codec) same ∙ (save_to_log-decode resized t m h few f done).0 in
      let store : (redo_by_log ps codec order u).0.store ≡ (write_pages ps (order m) u.store).0 =
        ground (arith, d) in
      let wrote : (write_pages ps (order m) u.store).1 ≡ true = ground (arith, d) in
      let w = write_pages-Reads ps (order m) u.store j (o.keeps ps.page_size m k) wrote in
      let e = o.same ps.page_size m j k in
      (λ q g. rw store (w.0 q (e ∙ g)), λ c g r. rw store (w.1 c (e ∙ g) r))

  save_pages_retry :
      (resized : Bool) (pages : List CodecPage) (t : Table ps.State)
      → (save_pages ps codec order false pages t).1 ≡ failed
      → ((save_pages ps codec order resized pages (save_pages ps codec order false pages t).0).1
          ≡ fault)
        × ((save_pages ps codec order false pages t).0.packages ≡ t.packages)
  unfolding save_pages
  save_pages_retry resized pages t h = ground (arith, round_up-ge (length (encode_log codec pages)))

  -- After a SaveToLog that returned -1, because the log file could not be grown, a retry writes to a
  -- mapping that is closed, whether or not a resize would succeed then.
  pub save_to_log_retry :
      (resized : Bool) (t : Table ps.State)
      → (save_to_log ps codec order false t).1 ≡ failed
      → (save_to_log ps codec order resized (save_to_log ps codec order false t).0).1 ≡ fault
  unfolding save_to_log
  save_to_log_retry resized t h = at_front t.packages refl
    where
      at_front :
          (l : List Package)
          → t.packages ≡ l
          → (save_to_log ps codec order resized (save_to_log ps codec order false t).0).1 ≡ fault
      at_front [] e = absurd (ground (arith, e))
      at_front (m ∷ ms) e =
          let f = save_to_log_front false t m ms e in
          let r = save_pages_retry resized (order m) t (rw f at h) in
          let d : Table ps.State = (save_pages ps codec order false (order m) t).0 in
          rw (f, save_to_log_front resized d m ms (r.1 ∙ e)) r.0
