-- ===== src/Tests.antt =====
-- The theorems applied to concrete nodes, tries and tables, by module.
pub mod Nodes
pub mod Tries
pub mod Tables
pub mod Entries
pub mod Lookups
pub mod Destructions
pub mod Colors
pub mod Stats
pub mod Batches
pub mod Shifts
pub mod Emptied
mod Matches
pub mod Exists
pub mod Overlaps
use prefix_lookup_mc.Base.{false}
use prefix_lookup_mc.Mm.{Mm, no_stat}

-- The statistics of the simple allocator, at the start.
abbrev pub simple : Mm
simple = record {
  ms = no_stat;
  op = record { type = 0; priv_size = 0; has_init = false; has_uinit = false };
}
