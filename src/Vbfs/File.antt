-- ===== src/Vbfs/File.antt =====
-- vbfs_file.{h,cpp}: CFileVbfs, the files of a volume as files of the operating system, type by type in
-- directories, with their open handles kept in a queue and a map that hold the same handles. A handle
-- is the id of its file; whether open, ftruncate, pread and pwrite succeed is an argument.
pub mod Handles
pub mod Full
use vorder.Base.{
  ℕ, ◌+◌, ◌%◌, ◌^◌, Bool, true, false, ◌&&◌, ◌||◌, Option, none, some, List, [], ◌∷◌, ◌++◌,
  if◌then◌else◌, ◌==◌, ltb,
}
use vorder.Vbfs.Device.{
  VbfsConfigParam, IoResult, ok, disk_error, read_bytes, write_bytes, max_file_type,
}
use vorder.Vbfs.Raw.{inc32}

-- CTypeFile; `handles` has the file ids of the open handles, the oldest first.
pub record TypeFile : Type 0 where
  pub handles : List ℕ
  pub max_allocated_file_id : ℕ
  pub opened_file_num : ℕ

-- `dir` is the content of the file that a directory has for an id.
pub record FileVbfs : Type 0 where
  pub type_file : ℕ → TypeFile
  pub total_file_num : ℕ
  pub param : VbfsConfigParam
  pub dir : ℕ → ℕ → Option (ℕ → ℕ)

-- EN_MAX_OPEN_FILE_NUM
abbrev pub max_open_file_num : ℕ
max_open_file_num = 64

unfoldable pub is_open : ℕ → List ℕ → Bool
is_open i [] = false
is_open i (j ∷ js) = (j == i) || is_open i js

-- InsertFileHandle; none is the dereference of the NULL that PopFront gives for an empty queue.
unfoldable pub insert_file_handle : ℕ → TypeFile → Option TypeFile
insert_file_handle id f =
    if ltb f.opened_file_num max_open_file_num
    then some (record f { handles = f.handles ++ id ∷ [] })
    else elim f.handles [
      | [] ↦ none
      | oldest ∷ rest ↦ some (record f { handles = rest ++ id ∷ [] })
    ]

abbrev pub set_type : ℕ → TypeFile → FileVbfs → FileVbfs
set_type t f v = record v { type_file = λ u. if t == u then f else v.type_file u }

abbrev pub is_file : Option (ℕ → ℕ) → Bool
is_file none = false
is_file (some c) = true

-- GetFileHandle: whether there is a handle.
unfoldable pub get_file_handle : Bool → ℕ → ℕ → FileVbfs → Option (FileVbfs × Bool)
unfolding is_open insert_file_handle
get_file_handle opens t id v =
    if is_open id (v.type_file t).handles
    then some (v, true)
    else if opens && is_file (v.dir t id)
    then elim (insert_file_handle id (v.type_file t)) [
      | none ↦ none
      | some f ↦ some (set_type t f v, true)
    ]
    else some (v, false)

-- Read; the inner none is -1.
unfoldable pub read : Bool → Bool → ℕ → ℕ → ℕ → ℕ → FileVbfs → Option (FileVbfs × Option (List ℕ))
unfolding get_file_handle read_bytes
read opens success t id size offset v = elim (get_file_handle opens t id v) [
  | none ↦ none
  | some (w, false) ↦ some (w, none)
  | some (w, true) ↦ elim (w.dir t id) [
    | none ↦ some (w, none)
    | some c ↦ some (w, if success then some (read_bytes c offset size) else none)
  ]
]

unfoldable pub write : Bool → Bool → ℕ → ℕ → List ℕ → ℕ → FileVbfs → Option (FileVbfs × Bool)
unfolding get_file_handle write_bytes
write opens success t id buf offset v = elim (get_file_handle opens t id v) [
  | none ↦ none
  | some (w, false) ↦ some (w, false)
  | some (w, true) ↦ elim (w.dir t id) [
    | none ↦ some (w, false)
    | some c ↦
        if success
        then some (
          record w {
            dir = λ u k. if t == u && id == k then some (write_bytes offset buf c) else w.dir u k;
          },
          true,
        )
        else some (w, false)
  ]
]

-- What ftruncate makes of a file: of a new one, zeros.
abbrev grown : Option (ℕ → ℕ) → ℕ → ℕ
grown none a = 0
grown (some c) a = c a

-- AllocatFile; a full volume and every failure is -1.
unfoldable pub allocat_file : Bool → Bool → ℕ → ℕ → FileVbfs → Option (FileVbfs × IoResult)
unfolding insert_file_handle inc32
allocat_file opens truncates t id v =
    let created = record v {
      dir = λ u k. if t == u && id == k then some (grown (v.dir t id)) else v.dir u k;
    } in
    if ltb v.total_file_num v.param.file_num
    then if opens
      then if truncates
        then elim (insert_file_handle id (v.type_file t)) [
          | none ↦ none
          | some f ↦ some (
            record (set_type t (record f { max_allocated_file_id = inc32 f.max_allocated_file_id })
                created) { total_file_num = inc32 v.total_file_num },
            ok,
          )
        ]
        else some (created, disk_error)
      else some (v, disk_error)
    else some (v, disk_error)
