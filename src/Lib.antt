-- ===== src/Lib.antt =====
-- Partition manager for Android devices: a command line program with plugins, the library libhelper
-- and the library libpartition_map.
--
-- A run builds the command line application, parses the arguments and lets a plugin work on
-- partitions, which the tables of libpartition_map list and find.
--
-- Files, and the code that they model:
--   Base: lists, texts, integers and repeated steps that the other files share.
--   Helper/Error: srclib/libhelper/include/libhelper/error.hpp. An error object, and `Outcome`, the
--     ways in which a call ends; an exception is a value.
--   Helper/CmdLine: srclib/libhelper/include/libhelper/cmdline.hpp. Split, Number, Size and Convert
--     read texts; Option and Group are the classes of these names; World holds the options, groups
--     and subcommands, which the program owns through pointers, in a memory where a pointer is a
--     number; Loop is the loop of `App::parse`, Settle what follows it, and Parse the two handlers.
--   PartitionMap/Magic: srclib/libpartition_map/src/Magic.cpp.
--   PartitionMap/OpenPart: the objects of srclib/libopenpart that partitions use.
--   PartitionMap/Partition: srclib/libpartition_map/include/libpartition_map/partition.hpp; Transfer
--     has `dump` and `write`.
--   PartitionMap/Table: srclib/libpartition_map/src/PartitionTableData.cpp, the changes that scan;
--     Query has the questions and the other changes.
--   PartitionMap/Dynamic: srclib/libpartition_map/src/DynamicPartitionTable.cpp.
--   PartitionMap/Select: `getCorrectTableObj` and `setupPartition` of
--     srclib/libpartition_map/include/libpartition_map/builder.hpp.
--   Helper/Async: `AsyncManager` of srclib/libhelper/include/libhelper/management.hpp.
--   Helper/UniqueFd: `BasicUniqueFD` of the same file, over the descriptors that are open; `fsync` has
--     no effect on them and is left out. Helper/Silencer: `Silencer` of the same file.
--   Manager: include/PartitionManager/Plugin.hpp and src/Main.cpp. Inputs has the helpers that plugins
--     apply to their arguments, Plugins is `PluginManager`, Main what `main` decides behind the parser,
--     over the tables and the manager.
--   Helper/Prompt: `confirmPrompt` of srclib/libhelper/src/Utilities.cpp. Helper/Sha256:
--     srclib/libhelper/src/Sha256.cpp.
--   Plugins: src/plugins. Work has what the plugins share (flags, the search for a partition, the size
--     of the buffer, waiting for tasks), Flash, Backup, Erase and Gpt are the plugins of these names,
--     Detect is the type plugin with the tables of magic numbers, and Listing has the partitions and
--     the unit that the sizeof and info plugins show. A task gives its result
--     with what it leaves behind; the tasks of a run are modelled one by one, so two of them that work
--     on one partition are not.
--   Tests: concrete inputs.
--
-- Code of other projects is an argument: the GPT library (`Gpt`, `Disks`), floating point
-- (`Floating`), the metadata of liblp (`LpMetadata`), the files of the system (`Files`, `System`) and
-- the answers of the kernel to reads and writes (`Kernel`), OpenSSL's digest (`Digest`), the files and
-- the library behind the gpt plugin (`Host`), `::open` and the next free descriptor (`Opens`,
-- `Silencer.System`), what a `read` gives (`Reads`), and what the user types. The laws that a theorem
-- needs of them are its hypotheses (`IsExact`, `Serves`, `Accepts`, `IsBounded`,
-- `Progresses`, `GivesFresh`, `GivesFree`).
--
-- Bounds: sizes are 64 bits wide and wrap around where the code can reach that; indices of partitions
-- are 32 bits wide. Fuel: the loops of `dump`, `write` and the erase plugin take at most one round for
-- each byte and one more; the recursion over subcommands takes the number of cells of
-- the memory, which bounds the depth of the tree.
--
-- A sort of partitions with equal names leaves their order open in the program; here it is that of an
-- insertion sort.
--
-- Not modelled: output, logging and the progress renderer; the plugins that clean the log, show the
-- path, reboot, test the memory and write metadata; the set-up of options in src/Main.cpp and in the
-- plugins; the guards `ScopeGuard` and `BasicUniqueFP`, and the taking over of a descriptor that is open
-- already; `Capsule`; the threads themselves (a task stands for its result); and the wrappers of system
-- calls.
pub mod Base
pub mod Helper
pub mod PartitionMap
pub mod Manager
pub mod Plugins
pub mod Tests
