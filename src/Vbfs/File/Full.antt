-- ===== src/Vbfs/File/Full.antt =====
-- CFileVbfs as a device of CVbfs: a full one.
use vorder.Base.{
  ℕ, ◌-◌, ◌^◌, ◌≤◌, ◌<◌, ◌≡◌, ap, ◌∙◌, true, false, Option, none, some, List, [], ◌∷◌, ◌++◌, arith,
}
use vorder.Vbfs.Device.{IoResult, disk_error}
use vorder.Vbfs.File.{FileVbfs, read, write, allocat_file}
use vorder.Vbfs.Volumes.{VbfsImpl, Offer, allocat, allocat_last}
use vorder.Vbfs.Volumes.Locate.{total, allocat_last-append}

-- A fault of a handle, which needs as many files noted as open as there may be, is an error here.
abbrev pub or_error : Option (FileVbfs × IoResult) → FileVbfs → FileVbfs × IoResult
or_error none v = (v, disk_error)
or_error (some r) v = r

-- A file volume on which every access succeeds; the changes of the open handles by Read and Write are
-- left out.
abbrev pub file_impl : VbfsImpl
file_impl = record {
  State = FileVbfs;
  get_aloc_logic_file_num = λ t v. (v.type_file t).max_allocated_file_id;
  get_aloc_phy_file_num = λ v. v.total_file_num;
  get_max_phy_file_num = λ v. v.param.file_num;
  read = λ t id size offset v. elim (read true true t id size offset v) [
    | none ↦ none
    | some (w, r) ↦ r
  ];
  write = λ t id buf offset v. elim (write true true t id buf offset v) [
    | none ↦ (v, false)
    | some r ↦ r
  ];
  allocat_file = λ t id v. or_error (allocat_file true true t id v) v;
}

full_answer :
    (t id : ℕ) (v : FileVbfs)
    → v.param.file_num ≤ v.total_file_num
    → file_impl.allocat_file t id v ≡ (v, disk_error)
unfolding allocat_file
full_answer t id v full = ground arith

allocat_error :
    (t id : ℕ) (ds es : List FileVbfs) (offers : List (Offer FileVbfs))
    → allocat_last file_impl t id ds ≡ some (es, disk_error)
    → allocat file_impl t id offers ds ≡ some (es, false)
unfolding allocat
allocat_error t id ds es [] h = ground arith
allocat_error t id ds es (o ∷ os) h = ground arith

-- AllocatFile of CVbfs where the last device is a file volume with as many files as it may have: it
-- fails and takes no further device, whatever the database offers, for every type and id.
pub allocat-full_file :
    (t id : ℕ) (before : List FileVbfs) (v : FileVbfs) (offers : List (Offer FileVbfs))
    → total file_impl t before ≤ id
    → id < 2 ^ 32
    → v.param.file_num ≤ v.total_file_num
    → allocat file_impl t id offers (before ++ v ∷ []) ≡ some (before ++ v ∷ [], false)
allocat-full_file t id before v offers low high full =
    let answer = full_answer t (id - total file_impl t before) v full in
    allocat_error t id (before ++ v ∷ []) (before ++ v ∷ []) offers (
      allocat_last-append file_impl t id before v low high
      ∙ ap (λ (r : FileVbfs × IoResult). some (before ++ r.0 ∷ [], r.1)) answer)
