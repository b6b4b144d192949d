-- ===== src/PartitionMap/OpenPart.antt =====
-- srclib/libopenpart: the object that stands for an open block device, as far as the partition
-- objects use it (core.c, io.c).
use pmt_renovated.Base.{
  ℕ, ◌-◌, ◌/◌, ◌%◌, ◌^◌, Bool, true, false, Option, none, some, Text, ◌==◌, if◌then◌else◌,
}

pub record Handle : Type 0 where
  pub device : Text
  pub flags : ℕ
  pub size : ℕ
  pub sector_size : ℕ

-- What the kernel says of a path: the size and the sector size of the block device, if it is one that
-- can be opened.
abbrev pub Devices : Type 0
Devices = Text → Option (ℕ × ℕ)

abbrev pub op_wronly : ℕ
op_wronly = 2

abbrev pub op_rdwr : ℕ
op_rdwr = 4

-- `openpart_open`, without `OP_IGNTYPE`.
unfoldable pub openpart_open : Devices → Text → ℕ → Option Handle
openpart_open devices path flags = elim (devices path) [
  | none ↦ none
  | some (size, sector) ↦
      some record { device = path; flags = flags; size = size; sector_size = sector }
]

abbrev pub uint64_max : ℕ
uint64_max = 2 ^ 64 - 1

unfoldable pub openpart_get_size : Option Handle → ℕ
openpart_get_size none = uint64_max
openpart_get_size (some h) = h.size

unfoldable pub openpart_get_sector_size : Option Handle → ℕ
openpart_get_sector_size none = uint64_max
openpart_get_sector_size (some h) = h.sector_size

-- The guard of `openpart_write`: `op->flags & OP_RDWR`.
unfoldable pub may_write : Option Handle → Bool
may_write none = false
may_write (some h) = if h.flags / 4 % 2 == 0 then false else true
