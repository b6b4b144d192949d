-- ===== src/PartitionMap.antt =====
-- libpartition_map: magic numbers, partitions, the partition tables and the choice between them.
pub mod Magic
pub mod OpenPart
pub mod Partition
pub mod Table
pub mod Dynamic
pub mod Select
