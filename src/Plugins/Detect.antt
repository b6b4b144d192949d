-- ===== src/Plugins/Detect.antt =====
-- src/plugins/TypePlugin.cpp, and the tables of magic numbers of srclib/libpartition_map/src/Magic.cpp.
pub mod Laws
pub mod Run
pub mod Holds
use pmt_renovated.Base.{
  ℕ, ◌^◌, ◌==◌, Bool, true, false, not, ◌&&◌, Option, none, some, List, [], ◌∷◌, ◌++◌, Text, codes,
  ltb, text_eq, if◌then◌else◌,
}
use pmt_renovated.Helper.Error.{Outcome, done, ◌>>=◌, threw, new_error, copy, throw_new}
use pmt_renovated.PartitionMap.Magic.{has_magic}
use pmt_renovated.PartitionMap.Partition.{Gpt, Partition, absolute_path}
use pmt_renovated.PartitionMap.Partition.Transfer.{before, after}
use pmt_renovated.PartitionMap.Table.{Disks}
use pmt_renovated.PartitionMap.Dynamic.{deref}
use pmt_renovated.PartitionMap.Select.{TableType}
use pmt_renovated.Plugins.Work.{Flags, find}

-- `std::map<uint64_t, std::string>`: the entries with their keys in ascending order.
abbrev pub MagicMap : Type 0
MagicMap = List (ℕ × Text)

-- `insert`, which leaves a key that is there with its value.
unfoldable pub insert : ℕ × Text → MagicMap → MagicMap
insert e [] = e ∷ []
insert e (x ∷ m) =
    let later = insert e m in
    if e.0 == x.0 then x ∷ m else if ltb e.0 x.0 then e ∷ x ∷ m else x ∷ later

-- A map of an initialiser list: of two entries with one key the first one stays.
unfoldable pub map_from : MagicMap → List (ℕ × Text) → MagicMap
unfolding insert
map_from m [] = m
map_from m (e ∷ es) = map_from (insert e m) es

unfoldable pub has_key : ℕ → MagicMap → Bool
has_key k [] = false
has_key k (e ∷ m) = if k == e.0 then true else has_key k m

-- `target.merge(source)`: the entries with new keys move over, and the others stay in the source.
unfoldable pub merge : MagicMap → MagicMap → MagicMap × MagicMap
unfolding insert has_key
merge target [] = (target, [])
merge target (e ∷ source) =
    let (all, left) = merge (insert e target) source in
    (all, if has_key e.0 target then e ∷ left else left)

abbrev pub file_system_entries : List (ℕ × Text)
file_system_entries =
    (0xEF53, codes "EXT2/3/4")
    ∷ (0xF2F52010, codes "F2FS")
    ∷ (0xE0F5E1E2, codes "EROFS")
    ∷ (0x5441465845, codes "exFAT")
    ∷ (0x3231544146, codes "FAT12")
    ∷ (0x3631544146, codes "FAT16")
    ∷ (0x3233544146, codes "FAT32")
    ∷ (0x5346544E, codes "NTFS")
    ∷ (0x4d44, codes "MSDOS")
    ∷ []

abbrev pub android_entries : List (ℕ × Text)
android_entries =
    (0x2144494F52444E41, codes "Android Boot Image")
    ∷ (0x544F4F4252444E56, codes "Android Vendor Boot Image")
    ∷ (0x6B6C, codes "Android LK (Bootloader)")
    ∷ (0x1EABB7D7, codes "Android DTBO Image")
    ∷ (0x425641, codes "Android VBMeta Image")
    ∷ (0x61446C67, codes "Android Super Image")
    ∷ (0x3AFF26ED, codes "Android Sparse Image")
    ∷ (0x7A7465636667, codes "ZTE Configuration")
    ∷ (0x524444, codes "DDR Image")
    ∷ (0x464C457F, codes "ELF")
    ∷ (0, codes "Raw Data")
    ∷ []

unfoldable pub file_system_magics : MagicMap
unfolding map_from
file_system_magics = map_from [] file_system_entries

unfoldable pub android_magics : MagicMap
unfolding map_from
android_magics = map_from [] android_entries

-- `Magics`, which names the entry of FAT12 twice.
unfoldable pub all_magics : MagicMap
unfolding map_from
all_magics = map_from [] (android_entries ++ (0x3231544146, codes "FAT12") ∷ file_system_entries)

-- The three maps, which are variables of the program.
pub record MagicMaps : Type 0 where
  pub android : MagicMap
  pub file_system : MagicMap
  pub all : MagicMap

-- The options of the subcommand.
pub record Options : Type 0 where
  pub contents : List Text
  pub only_check_android_magics : Bool
  pub only_check_file_system_magics : Bool
  pub buffer_size : ℕ

-- The map to search, and the three maps behind the merge.
unfoldable pub chosen : Options → MagicMaps → MagicMap × MagicMaps
unfolding merge
chosen o m =
    let (android, android_left) = merge [] m.android in
    let (file_system, file_system_left) = merge [] m.file_system in
    let (all, all_left) = merge [] m.all in
    if o.only_check_android_magics
    then (android, record m { android = android_left })
    else if o.only_check_file_system_magics
    then (file_system, record m { file_system = file_system_left })
    else (all, record m { all = all_left })

-- The files of the system: whether one exists, and whether it opens with what a `read` of so many
-- bytes gives.
pub record Reads : Type 0 where
  pub exists : Text → Bool
  pub opens : Text → Bool
  pub first_bytes : Text → ℕ → Option (List ℕ)

-- `static_cast<ssize_t>(bufferSize)`; the numbers from `2 ^ 63` on become negative, which `hasMagic`
-- refuses as it refuses 0.
unfoldable pub as_ssize : ℕ → ℕ
as_ssize n = if ltb n (2 ^ 63) then n else 0

unfoldable pub check : Reads → ℕ → Text → ℕ → Outcome Bool
unfolding as_ssize
check r buf path magic =
    has_magic magic (as_ssize buf) (r.opens path) (r.first_bytes path (as_ssize buf))

-- The loop over the map: the first entry whose magic number is there.
unfoldable pub first_magic : (ℕ → Outcome Bool) → MagicMap → Outcome (Option (ℕ × Text))
first_magic test [] = done none
first_magic test (e ∷ m) =
    let rest = first_magic test m in test e.0 >>= λ hit. if hit then done (some e) else rest

-- The text behind the message when nothing is found.
unfoldable pub hint : Text → Text
hint content = if text_eq content (codes "userdata") then codes " (encrypted filesystem?)" else []

unfoldable pub found_or_throw : Text → Option (ℕ × Text) → Outcome (ℕ × Text)
unfolding hint
found_or_throw content none =
    threw (copy (new_error ((codes "Couldn't determine type of " ++ content) ++ hint content)))
found_or_throw content (some entry) = done entry

unfoldable pub is_missing :
    {G : Gpt} → Reads → Text → Option (Partition G) → Option TableType → Bool
is_missing r content (some p) t_type = false
is_missing r content none (some t) = false
is_missing r content none none = not (r.exists content)

module _ {G : Gpt} {D : Disks G} where
  -- The file to read. A null pointer is read where the table has no partition and there is no file.
  unfoldable pub path_for : Flags G D → Reads → Text → Option (Partition G) → Outcome Text
  path_for f r content p =
      if r.exists content then done content else (deref p >>= λ q. absolute_path f.files q)

  -- The test of the loop's body. The path is made for each entry of the map; it is the same each time.
  unfoldable pub check_content :
      Flags G D → Reads → ℕ → Text → Option (Partition G) → ℕ → Outcome Bool
  unfolding path_for check
  check_content f r buf content p magic = path_for f r content p >>= λ path. check r buf path magic

  -- What is found for a content.
  unfoldable pub identify : Flags G D → Reads → ℕ → MagicMap → Text → Option (Outcome (ℕ × Text))
  unfolding is_missing first_magic check_content found_or_throw
  identify f r buf magics content = after (find f content) λ (p, t_type).
      let found = first_magic (check_content f r buf content p) magics in
      if is_missing r content p t_type
      then some (throw_new (codes "Couldn't find partition or image file: " ++ content))
      else some (found >>= found_or_throw content)

  unfoldable pub identify_all :
      Flags G D → Reads → ℕ → MagicMap → List Text → Option (Outcome (List (ℕ × Text)))
  unfolding identify
  identify_all f r buf magics [] = some (done [])
  identify_all f r buf magics (content ∷ contents) =
      after (identify f r buf magics content)
        (λ e. after (identify_all f r buf magics contents) (λ es. some (done (e ∷ es))))

  -- `run`: the entries that are printed for the contents, and the maps that it leaves, where it returns
  -- true; it never returns false.
  unfoldable pub run :
      Flags G D → Reads → Options → MagicMaps → Option (Outcome (List (ℕ × Text) × MagicMaps))
  unfolding identify_all chosen
  run f r o m =
      let (magics, left) = chosen o m in
      after (identify_all f r o.buffer_size magics o.contents) (λ es. some (done (es, left)))
