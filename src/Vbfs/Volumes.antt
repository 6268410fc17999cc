-- ===== src/Vbfs/Volumes.antt =====
-- vbfs.cpp: CVbfs, the files of all devices of a channel numbered through, device after device. The
-- devices are an interface, IVbfsImpl (i_vbfs_impl.h). What the database offers when a device is full,
-- and whether the offered device opens, is an argument.
pub mod Locate
pub mod Opening
use vorder.Base.{
  ℕ, ◌+◌, ◌-◌, ◌%◌, ◌^◌, Bool, true, false, Option, none, some, List, [], ◌∷◌, ◌++◌, if◌then◌else◌,
  ltb, leb,
}
use vorder.Vbfs.Device.{IoResult, ok, disk_full, disk_error, logic_error}
use vorder.Vbfs.Raw.{RawVbfs, read, write, allocat_file}

-- IVbfsImpl
pub record VbfsImpl : Type 1 where
  pub State : Type 0
  pub get_aloc_logic_file_num : ℕ → State → ℕ
  pub get_aloc_phy_file_num : State → ℕ
  pub get_max_phy_file_num : State → ℕ
  pub read : ℕ → ℕ → ℕ → ℕ → State → Option (List ℕ)
  pub write : ℕ → ℕ → List ℕ → ℕ → State → State × Bool
  pub allocat_file : ℕ → ℕ → State → State × IoResult

-- A raw device on which every access succeeds; the counts of files are those of vbfs_raw.inl.
abbrev pub raw_impl : VbfsImpl
raw_impl = record {
  State = RawVbfs;
  get_aloc_logic_file_num = λ t v. (v.logic_file_idx t).cur_num;
  get_aloc_phy_file_num = λ v. v.start_free_phy_file_idx;
  get_max_phy_file_num = λ v. v.param.file_num;
  read = read true;
  write = write true;
  allocat_file = allocat_file true;
}

-- The next device in the database: none, one whose Open fails, or one that is open.
pub data Offer (S : Type 0) : Type 0 where
  no_device open_failed : Offer S
  opened : S → Offer S

module _ (impl : VbfsImpl) where
  -- Whether a device can give a further file.
  unfoldable pub has_free : impl.State → Bool
  has_free d = ltb (impl.get_aloc_phy_file_num d) (impl.get_max_phy_file_num d)

  -- Open's loop over the devices that the database names, behind those that are open; none stands for
  -- a device whose Open fails, and as a result for -1, with every device closed.
  unfoldable pub open_devices :
      List (Option impl.State) → List impl.State → Option (List impl.State)
  unfolding has_free
  open_devices [] ds = some ds
  open_devices (none ∷ os) ds = none
  open_devices (some d ∷ os) ds =
      let rest = open_devices os (ds ++ d ∷ []) in if has_free d then some (ds ++ d ∷ []) else rest

  -- m_pLastVbfs
  unfoldable pub last_device : List impl.State → Option impl.State
  last_device [] = none
  last_device (d ∷ []) = some d
  last_device (d ∷ e ∷ ds) = last_device (e ∷ ds)

  -- Open behind the queries of the database; none outside is a call through m_pLastVbfs, NULL where
  -- there is no device.
  unfoldable pub open_volumes : List (Option impl.State) → Option (Option (List impl.State))
  unfolding open_devices last_device has_free
  open_volumes os = elim (open_devices os []) [
    | none ↦ some none
    | some ds ↦ elim (last_device ds) [
      | none ↦ none
      | some d ↦ some (if has_free d then some ds else none)
    ]
  ]

  -- The search of Read and Write for the device of a file, and the id of the file there; none is the
  -- entry behind the last device.
  unfoldable pub locate : ℕ → ℕ → List impl.State → Option (impl.State × ℕ)
  locate t id [] = none
  locate t id (d ∷ ds) =
      let n = impl.get_aloc_logic_file_num t d in
      let rest = locate t (id - n) ds in if leb n id then rest else some (d, id)

  -- Read; the outer none is a call through the entry behind the last device.
  unfoldable pub read_file : ℕ → ℕ → ℕ → ℕ → List impl.State → Option (Option (List ℕ))
  unfolding locate
  read_file t id size offset ds = elim (locate t id ds) [
    | none ↦ none
    | some (d, k) ↦ some (impl.read t k size offset d)
  ]

  unfoldable pub write_file : ℕ → ℕ → List ℕ → ℕ → List impl.State → Option (List impl.State × Bool)
  write_file t id buf offset [] = none
  write_file t id buf offset (d ∷ ds) =
      let n = impl.get_aloc_logic_file_num t d in
      let rest : Option (List impl.State × Bool) = elim (write_file t (id - n) buf offset ds) [
        | none ↦ none
        | some (es, done) ↦ some (d ∷ es, done)
      ] in
      let (e, done) = impl.write t id buf offset d in if leb n id then rest else some (e ∷ ds, done)

  -- AllocatFile on the last device, of the id less the files of the devices before, in 32 bits. none
  -- is a call after Close.
  unfoldable pub allocat_last : ℕ → ℕ → List impl.State → Option (List impl.State × IoResult)
  allocat_last t id [] = none
  allocat_last t id (d ∷ []) = let (e, r) = impl.allocat_file t id d in some (e ∷ [], r)
  allocat_last t id (d ∷ e ∷ ds) =
      let seg = (id + (2 ^ 32 - impl.get_aloc_logic_file_num t d)) % 2 ^ 32 in
      elim (allocat_last t seg (e ∷ ds)) [ none ↦ none | some (es, r) ↦ some (d ∷ es, r) ]

  -- AllocatFile; a full device is followed by the next one that is offered, and a device that does
  -- not open closes all of them.
  unfoldable pub allocat :
      ℕ → ℕ → List (Offer impl.State) → List impl.State → Option (List impl.State × Bool)
  unfolding allocat_last
  allocat t id [] ds = elim (allocat_last t id ds) [
    | none ↦ none
    | some (es, ok) ↦ some (es, true)
    | some (es, other) ↦ some (es, false)
  ]
  allocat t id (o ∷ os) ds = elim (allocat_last t id ds) [
    | none ↦ none
    | some (es, ok) ↦ some (es, true)
    | some (es, logic_error) ↦ some (es, false)
    | some (es, disk_error) ↦ some (es, false)
    | some (es, disk_full) ↦ elim o [
      | no_device ↦ some (es, false)
      | open_failed ↦ some ([], false)
      | opened e ↦ allocat t id os (es ++ e ∷ [])
    ]
  ]
