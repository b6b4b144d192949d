-- ===== src/Plugins/Work.antt =====
-- What the plugins share: the flags, the search for a partition, the size of the buffer, and how a
-- plugin waits for its tasks (include/PartitionManager, src/plugins).
pub mod Laws
pub mod Search
use pmt_renovated.Base.{
  ℕ, ◌≡◌, refl, Bool, true, false, not, ◌&&◌, Option, none, some, List, [], ◌∷◌, ◌++◌, Text, codes,
  is_empty, ltb, min, if◌then◌else◌,
}
use pmt_renovated.Helper.Error.{Outcome, done, threw, escaped, exited, undefined}
use pmt_renovated.Helper.Async.{Result, run_all}
use pmt_renovated.PartitionMap.Partition.{Gpt, Files, Partition}
use pmt_renovated.PartitionMap.Partition.Transfer.{before, after}
use pmt_renovated.PartitionMap.Table.{Disks}
use pmt_renovated.PartitionMap.Select.{
  BaseTable, TableType, classic_type, dynamic_type, get_correct_table_obj, setup_partition,
}

-- `BasicFlags`, with the files of the system and what the user types where a choice is asked for.
pub record Flags (G : Gpt) (D : Disks G) : Type 0 where
  pub partition_tables : Option (BaseTable G D) × Option (BaseTable G D)
  pub on_logical : Bool
  pub force_process : Bool
  pub files : Files
  pub choices : List Text

-- `AsyncResult_t::Error` and `AsyncResult_t::Success`, with the formatted text.
unfoldable pub failure : Text → Result
failure message = record { message = message; result = false }

unfoldable pub success : Text → Result
success message = record { message = message; result = true }

-- `std::clamp`, whose bounds must not be the wrong way round.
unfoldable pub clamp : ℕ → ℕ → ℕ → Outcome ℕ
clamp v lo hi =
    if ltb hi lo then undefined else done (if ltb v lo then lo else if ltb hi v then hi else v)

abbrev pub min_buffer_size : ℕ
min_buffer_size = 1024

-- The `buf` of the three plugins.
unfoldable pub buffer_for : ℕ → ℕ → Outcome ℕ
unfolding clamp
buffer_for buffer_size total = clamp buffer_size min_buffer_size (min buffer_size total)

-- `tType != PartitionMap::DYNAMIC`
unfoldable pub not_dynamic : Option TableType → Bool
not_dynamic none = true
not_dynamic (some classic_type) = true
not_dynamic (some dynamic_type) = false

-- A directory in front of a name: `name.insert(0, directory + '/')`, unless it is empty.
unfoldable pub in_directory : Text → Text → Text
in_directory [] name = name
in_directory (c ∷ directory) name = ((c ∷ directory) ++ codes "/") ++ name

module _ {G : Gpt} {D : Disks G} where
  -- The partition of a name with the type of its table; `none` waits for the user.
  unfoldable pub find :
      Flags G D → Text → Option (Outcome (Option (Partition G) × Option TableType))
  find f n =
      let (table, t_type) =
        get_correct_table_obj n f.partition_tables.0 f.partition_tables.1 none in
      after (setup_partition f.files f.choices n table) (λ p. some (done (p, t_type)))

  -- Whether the partition is refused since a logical one was asked for.
  unfoldable pub refused : Flags G D → Option TableType → Bool
  unfolding not_dynamic
  refused f t_type = f.on_logical && not_dynamic t_type && not f.force_process

-- A task that ends with this result, and what it leaves behind.
abbrev pub gives : {L : Type 0} → Result → L → Option (Outcome (Result × L))
gives r l = some (done (r, l))

-- What the future of a task gives: the result without what the task leaves behind.
abbrev pub result_of : {L : Type 0} → Option (Outcome (Result × L)) → Option (Outcome Result)
result_of m = after m (λ (r, l). some (done r))

-- `getResults`: the futures in their order; what a task throws is thrown again.
unfoldable pub await : List (Option (Outcome Result)) → Option (Outcome (List Result))
await [] = some (done [])
await (t ∷ ts) = after t (λ r. after (await ts) (λ rs. some (done (r ∷ rs))))

-- The end of a plugin whose tasks end as given.
unfoldable pub end_with : List (Option (Outcome Result)) → Option (Outcome Bool)
unfolding await
end_with ts = after (await ts) (λ rs. some (run_all rs))
