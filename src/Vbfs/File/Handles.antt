-- ===== src/Vbfs/File/Handles.antt =====
-- The open handles of a file volume, and what a full one answers.
use vorder.Base.{
  ℕ, ◌+◌, ◌<◌, ◌≡◌, refl, ap, ◌∙◌, true, false, ◌||◌, Option, none, some, List, [], ◌∷◌, ◌++◌, ◌==◌,
  arith, length, length-append,
}
use vorder.Vbfs.File.{
  TypeFile, FileVbfs, is_open, is_file, set_type, insert_file_handle, get_file_handle,
}

-- Files that exist and are not open, each named once.
abbrev pub AreClosed : ℕ → List ℕ → FileVbfs → Type 0
AreClosed t [] v = Unit {0}
AreClosed t (id ∷ ids) v =
    (is_open id (v.type_file t).handles ≡ false)
    × (is_open id ids ≡ false)
    × (is_file (v.dir t id) ≡ true)
    × AreClosed t ids v

-- GetFileHandle for one file after another.
unfoldable pub get_file_handles : ℕ → List ℕ → FileVbfs → Option FileVbfs
unfolding get_file_handle
get_file_handles t [] v = some v
get_file_handles t (id ∷ ids) v = elim (get_file_handle true t id v) [
  | none ↦ none
  | some (w, found) ↦ get_file_handles t ids w
]

is_open-append : (i j : ℕ) (is : List ℕ) → is_open i (is ++ j ∷ []) ≡ (is_open i is || (j == i))
unfolding is_open
is_open-append i j [] = ground arith
is_open-append i j (k ∷ is) = ground (arith, is_open-append i j is)

-- The volume with one more open handle.
opened : ℕ → ℕ → FileVbfs → FileVbfs
opened t id v =
    set_type t (record (v.type_file t) { handles = (v.type_file t).handles ++ id ∷ [] }) v

AreClosed-opened :
    (t id : ℕ) (ids : List ℕ) (v : FileVbfs)
    → is_open id ids ≡ false
    → AreClosed t ids v
    → AreClosed t ids (opened t id v)
unfolding is_open opened
AreClosed-opened t id [] v out h = tt
AreClosed-opened t id (k ∷ ids) v out h = (
  ground (arith, is_open-append k id (v.type_file t).handles),
  h.1,
  h.2,
  AreClosed-opened t id ids v (ground arith) h.3,
)

get_file_handle-opened :
    (t id : ℕ) (v : FileVbfs)
    → is_open id (v.type_file t).handles ≡ false
    → is_file (v.dir t id) ≡ true
    → (v.type_file t).opened_file_num < 64
    → (get_file_handle true t id v ≡ some (opened t id v, true))
      × ((opened t id v).type_file t
          ≡ record (v.type_file t) { handles = (v.type_file t).handles ++ id ∷ [] })
unfolding get_file_handle insert_file_handle opened
get_file_handle-opened t id v out file small = (ground arith, ground arith)

-- Opening files that are not open, where m_nOpenedFileNum is below EN_MAX_OPEN_FILE_NUM, opens a
-- handle for each of them and closes none, however many they are: m_nOpenedFileNum stays as it is.
pub get_file_handles-opens :
    (t : ℕ) (ids : List ℕ) (v : FileVbfs)
    → AreClosed t ids v
    → (v.type_file t).opened_file_num < 64
    → (w : FileVbfs) × (get_file_handles t ids v ≡ some w)
      × (length (w.type_file t).handles ≡ length (v.type_file t).handles + length ids)
      × ((w.type_file t).opened_file_num ≡ (v.type_file t).opened_file_num)
unfolding get_file_handles
get_file_handles-opens t [] v h small = (v, refl, omega arith, refl)
get_file_handles-opens t (id ∷ ids) v h small =
    let (step, at) = get_file_handle-opened t id v h.0 h.2 small in
    let below : ((opened t id v).type_file t).opened_file_num < 64 = rw at small in
    let (w, r, n, k) =
      get_file_handles-opens t ids (opened t id v) (AreClosed-opened t id ids v h.1 h.3) below in
    let more : length ((opened t id v).type_file t).handles ≡ length (v.type_file t).handles + 1 =
      rw at (length-append (v.type_file t).handles (id ∷ [])) in
    (
      w,
      ground (arith, step, r),
      omega (arith, n, more),
      k ∙ ap (λ (f : TypeFile). f.opened_file_num) at,
    )
