-- ===== src/Plugins/Listing.antt =====
-- src/plugins/PartitionSizePlugin.cpp and src/plugins/InfoPlugin.cpp: the partitions that are shown,
-- and the unit of their sizes; `forEach` and `forEachFor` of the tables.
pub mod Laws
use pmt_renovated.Base.{
  ℕ, Bool, true, false, not, ◌&&◌, ◌||◌, Option, none, some, List, [], ◌∷◌, ◌++◌, Text, codes,
  text_eq, if◌then◌else◌,
}
use pmt_renovated.Helper.Error.{Outcome, done, undefined, ◌>>=◌, throw_new}
use pmt_renovated.PartitionMap.Magic.{SizeUnit, byte, kib, mib, gib}
use pmt_renovated.PartitionMap.Partition.{Gpt, Partition}
use pmt_renovated.PartitionMap.Table.{Disks, Table}
use pmt_renovated.PartitionMap.Table.Query
use pmt_renovated.PartitionMap.Dynamic
use pmt_renovated.PartitionMap.Dynamic.{Dynamic, deref}

-- The flags for the unit, after the arguments are parsed.
pub record UnitFlags : Type 0 where
  pub as_byte : Bool
  pub as_kilo_bytes : Bool
  pub as_mega : Bool
  pub as_giga : Bool

-- `multiple`, from the value that it starts with: each flag that is set writes over the ones before.
unfoldable pub size_unit : SizeUnit → UnitFlags → SizeUnit
size_unit multiple f =
    let m1 = if f.as_byte then byte else multiple in
    let m2 = if f.as_kilo_bytes then kib else m1 in
    let m3 = if f.as_mega then mib else m2 in if f.as_giga then gib else m3

-- The flags that are typed, without a value, and the others become the flags of the plugin by the defaults: `--as-megabyte` is set
-- when it is absent in `sizeof`, and `--as-byte` in `info`.
unfoldable pub with_defaults : UnitFlags → UnitFlags → UnitFlags
with_defaults defaults typed = record {
  as_byte = typed.as_byte || defaults.as_byte;
  as_kilo_bytes = typed.as_kilo_bytes || defaults.as_kilo_bytes;
  as_mega = typed.as_mega || defaults.as_mega;
  as_giga = typed.as_giga || defaults.as_giga;
}

abbrev pub sizeof_defaults : UnitFlags
sizeof_defaults = record { as_byte = false; as_kilo_bytes = false; as_mega = true; as_giga = false }

abbrev pub info_defaults : UnitFlags
info_defaults = record { as_byte = true; as_kilo_bytes = false; as_mega = false; as_giga = false }

-- `partitions.back()`
unfoldable pub back : List Text → Outcome Text
back [] = undefined
back (n ∷ []) = done n
back (n ∷ m ∷ names) = back (m ∷ names)

module _ {G : Gpt} where
  -- The partitions that `forEachFor` of the dynamic table calls its function with.
  unfoldable pub for_each_for_dynamic : List Text → Dynamic G → Outcome (List (Partition G))
  for_each_for_dynamic [] d = done []
  for_each_for_dynamic (n ∷ names) d =
      let rest = for_each_for_dynamic names d in
      let found = deref (Dynamic.partition n d) >>= λ p. rest >>= λ ps. done (p ∷ ps) in
      if Dynamic.has_partition n d then found else rest

module _ {G : Gpt} {D : Disks G} where
  -- The same of the classic table.
  unfoldable pub for_each_for : List Text → Table G D → Outcome (List (Partition G))
  for_each_for [] t = done []
  for_each_for (n ∷ names) t =
      let rest = for_each_for names t in
      let found = Query.partition n [] t >>= λ o. deref o >>= λ p. rest >>= λ ps. done (p ∷ ps) in
      if Query.has_partition n t then found else rest

  -- The check that each name is known.
  unfoldable pub all_exist : List Text → Table G D → Dynamic G → Bool
  all_exist [] t d = true
  all_exist (n ∷ names) t d =
      (Query.has_partition n t || Dynamic.has_partition n d) && all_exist names t d

  -- The partitions that the plugins show, in their order.
  unfoldable pub shown : List Text → Table G D → Dynamic G → Outcome (List (Partition G))
  unfolding back all_exist for_each_for for_each_for_dynamic
  shown partitions t d =
      let by_name = for_each_for partitions t >>= λ ps.
      for_each_for_dynamic partitions d >>= λ qs. done (ps ++ qs) in
      back partitions >>= λ last.
      if text_eq last (codes "get-all") || text_eq last (codes "getvar-all")
      then done (t.local_partitions ++ d.local_partitions)
      else if text_eq last (codes "get-logicals")
      then done d.local_partitions
      else if text_eq last (codes "get-physicals")
      then done t.local_partitions
      else if all_exist partitions t d
      then by_name
      else throw_new (codes "Couldn't find partition")
