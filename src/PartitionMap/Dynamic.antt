-- ===== src/PartitionMap/Dynamic.antt =====
-- srclib/libpartition_map/src/DynamicPartitionTable.cpp: `DynamicTableData`, the logical partitions of
-- the super partition, with the metadata that liblp reads.
pub mod Laws
use pmt_renovated.Base.{
  ℕ, zero, suc, ◌+◌, ◌-◌, ◌*◌, ◌%◌, ◌^◌, Bool, true, false, not, ◌&&◌, Option, none, some, List, [],
  ◌∷◌, ◌++◌, Text, codes, text_eq, is_empty, ltb, leb, ◌==◌, if◌then◌else◌, find_if, any, length,
  get_elem?,
}
use pmt_renovated.Helper.Error.{Outcome, done, undefined, ◌>>=◌}
use pmt_renovated.PartitionMap.OpenPart.{Handle, Devices, uint64_max}
use pmt_renovated.PartitionMap.Partition.{
  Gpt, Partition, name, size, as_logical_partition, empty_partition, path_append,
}
use pmt_renovated.PartitionMap.Table.Query.{named, about}

-- The metadata, as far as the class reads it.
pub record LpPartition : Type 0 where
  pub name : Text
  pub group_index : ℕ
  pub first_extent_index : ℕ
  pub num_extents : ℕ

pub record LpGroup : Type 0 where
  pub name : Text
  pub maximum_size : ℕ

pub record LpExtent : Type 0 where
  pub is_linear : Bool
  pub target_source : ℕ
  pub target_data : ℕ
  pub num_sectors : ℕ

pub record LpMetadata : Type 0 where
  pub magic : ℕ
  pub partitions : List LpPartition
  pub groups : List LpGroup
  pub extents : List LpExtent
  -- The sizes of the block devices.
  pub block_devices : List ℕ

pub record Dynamic (G : Gpt) : Type 0 where
  pub local_partitions : List (Partition G)
  pub lp_metadata : Option LpMetadata
  pub supported : Bool

abbrev pub wrap : ℕ → ℕ
wrap n = n % 2 ^ 64

-- Subtraction in `uint64_t`.
abbrev pub minus : ℕ → ℕ → ℕ
minus a b = (a + 2 ^ 64 - b % 2 ^ 64) % 2 ^ 64

-- `*optional`, `*unique_ptr` and `vector[i]` of something that is not there.
abbrev pub deref {ℓ} : {A : Type ℓ} → Option A → Outcome A
deref none = undefined
deref (some a) = done a

unfoldable pub group_named : Text → LpMetadata → Option LpGroup
unfolding find_if
group_named n m = find_if (λ g. text_eq n g.name) m.groups

module _ {G : Gpt} where
  unfoldable pub register :
      Devices → List LpPartition → List (Partition G) → Outcome (List (Partition G))
  register devices [] parts = done parts
  register devices (p ∷ ps) parts =
      as_logical_partition devices (empty_partition G)
        (path_append (codes "/dev/block/mapper") p.name)
      >>= λ part. register devices ps (parts ++ (part ∷ []))

  -- `scan`: whether the link to the super partition exists, and what `ReadMetadata` gives (`none`: the
  -- null pointer).
  unfoldable pub scan : Devices → Bool → Option LpMetadata → Dynamic G → Outcome (Dynamic G)
  unfolding register
  scan devices exists read d =
      let read_in = deref read >>= λ m.
      register devices m.partitions d.local_partitions >>= λ parts.
      done (record d { supported = true; lp_metadata = some m; local_partitions = parts }) in
      if exists then read_in else done d

  unfoldable pub re_scan : Devices → Bool → Option LpMetadata → Dynamic G → Outcome (Dynamic G)
  re_scan devices exists read d = scan devices exists read (record d { local_partitions = [] })

  unfoldable pub clear : Dynamic G → Dynamic G
  clear d = record d { local_partitions = []; lp_metadata = none }

  unfoldable pub about_partitions : Dynamic G → Outcome (List (Text × ℕ × Bool))
  about_partitions d = about false d.local_partitions

  unfoldable pub partition : Text → Dynamic G → Option (Partition G)
  unfolding find_if
  partition n d = find_if (named n) d.local_partitions

  unfoldable pub has_partition : Text → Dynamic G → Bool
  unfolding any
  has_partition n d = any (named n) d.local_partitions

  unfoldable pub metadata : Text → Dynamic G → Outcome (Option LpPartition)
  unfolding find_if
  metadata n d = deref d.lp_metadata >>= λ m. done (find_if (λ p. text_eq n p.name) m.partitions)

  unfoldable pub sum_sizes : List (Partition G) → ℕ → Outcome ℕ
  sum_sizes [] total = done total
  sum_sizes (p ∷ ps) total = size p >>= λ n. sum_sizes ps (wrap (total + n))

  unfoldable pub free_space : Dynamic G → Outcome ℕ
  unfolding sum_sizes
  free_space d = sum_sizes d.local_partitions 0 >>= λ total. deref d.lp_metadata >>= λ m.
      deref (get_elem? m.block_devices 0) >>= λ device. done (minus device total)

  unfoldable pub super_size : Dynamic G → Outcome ℕ
  super_size d = deref d.lp_metadata >>= λ m. deref (get_elem? m.block_devices 0)

  -- `size(name)`
  unfoldable pub group_size : Text → Dynamic G → Outcome ℕ
  unfolding group_named
  group_size n d = deref d.lp_metadata >>= λ m. elim (group_named n m) [
    | none ↦ done uint64_max
    | some g ↦ done g.maximum_size
  ]

  -- The loop of `freeSpace(name)`: it looks up the partition that has the group's name.
  unfoldable pub used_of_group : Text → LpMetadata → Dynamic G → List LpPartition → ℕ → Outcome ℕ
  unfolding partition
  used_of_group n m d [] used = done used
  used_of_group n m d (p ∷ ps) used = deref (get_elem? m.groups p.group_index) >>= λ g.
      (if text_eq g.name n then (deref (partition n d) >>= λ q. size q) else done 0) >>= λ more.
      used_of_group n m d ps (wrap (used + more))

  unfoldable pub free_in_group : Text → LpMetadata → Dynamic G → Option LpGroup → Outcome ℕ
  unfolding used_of_group
  free_in_group n m d none = done uint64_max
  free_in_group n m d (some g) =
      used_of_group n m d m.partitions 0 >>= λ used. done (minus g.maximum_size used)

  -- `freeSpace(name)`
  unfoldable pub group_free_space : Text → Dynamic G → Outcome ℕ
  unfolding group_named free_in_group
  group_free_space n d = deref d.lp_metadata >>= λ m. free_in_group n m d (group_named n m)

-- The number that `openpart_sync` returns, as a `bool`: 0 for success, -1 otherwise.
unfoldable pub synced_as_bool : (Handle → Bool) → Option Handle → Bool
synced_as_bool fsync_works none = true
synced_as_bool fsync_works (some h) = not (fsync_works h)

-- The checks of `validMetadata` on the extents and on the partitions.
unfoldable pub extents_fit : List ℕ → List LpExtent → Outcome Bool
extents_fit devices [] = done true
extents_fit devices (e ∷ extents) =
    let rest = extents_fit devices extents in
    let check = deref (get_elem? devices e.target_source) >>= λ device.
    if ltb device (wrap (wrap (e.target_data + e.num_sectors) * 512)) then done false else rest in
    if e.is_linear then check else rest

unfoldable pub indices_fit : ℕ → List LpPartition → Bool
indices_fit extents [] = true
indices_fit extents (p ∷ ps) =
    if ltb extents ((p.first_extent_index + p.num_extents) % 2 ^ 32)
    then false
    else indices_fit extents ps

module _ {G : Gpt} where
  unfoldable pub sync_one : (Handle → Bool) → Text → Dynamic G → Bool
  unfolding partition synced_as_bool
  sync_one fsync_works n d = elim (partition n d) [
    | none ↦ false
    | some p ↦ synced_as_bool fsync_works p.op
  ]

  unfoldable pub sync_all : (Handle → Bool) → List (Partition G) → Bool → Dynamic G → Bool
  unfolding sync_one
  sync_all fsync_works [] success d = success
  sync_all fsync_works (p ∷ ps) success d =
      sync_all fsync_works ps (success && sync_one fsync_works (name p) d) d

  unfoldable pub sync : (Handle → Bool) → Dynamic G → Bool
  unfolding sync_all
  sync fsync_works d = sync_all fsync_works d.local_partitions true d

  -- The sizes of the partitions of a group.
  unfoldable pub total_of_group : ℕ → Dynamic G → List LpPartition → ℕ → Outcome ℕ
  unfolding partition
  total_of_group i d [] total = done total
  total_of_group i d (p ∷ ps) total =
      (if p.group_index == i then (deref (partition p.name d) >>= λ q. size q) else done 0)
      >>= λ more. total_of_group i d ps (wrap (total + more))

  unfoldable pub groups_fit : LpMetadata → Dynamic G → ℕ → List LpGroup → Outcome Bool
  unfolding total_of_group
  groups_fit m d i [] = done true
  groups_fit m d i (g ∷ groups) =
      let rest = groups_fit m d (i + 1) groups in
      let check = total_of_group i d m.partitions 0 >>= λ total.
      if ltb g.maximum_size total then done false else rest in
      if g.maximum_size == 0 then rest else check

  -- `validMetadata`; the header's magic number is liblp's.
  unfoldable pub valid_metadata : ℕ → Dynamic G → Outcome Bool
  unfolding groups_fit extents_fit indices_fit
  valid_metadata header_magic d = elim (d.lp_metadata) [
    | none ↦ done false
    | some m ↦
        let checks = groups_fit m d 0 m.groups >>= λ groups_ok.
        if groups_ok
        then (extents_fit m.block_devices m.extents >>= λ extents_ok.
            if extents_ok then done (indices_fit (length m.extents) m.partitions) else done false)
        else done false in
        if m.magic == header_magic then checks else done false
  ]

  unfoldable pub valid : ℕ → Dynamic G → Outcome Bool
  unfolding valid_metadata
  valid header_magic d =
      if is_empty d.local_partitions then done false else valid_metadata header_magic d
