-- ===== src/Tests/Overlaps.antt =====
-- The bits of both prefixes of one bit are set; the stride 21 starts with 010.
use prefix_lookup_mc.Base.{arith}
use prefix_lookup_mc.TreeFunction.{find_overlap_in_node}
use prefix_lookup_mc.TreeFunction.Overlap.{IsLongestBelow, find_overlap_in_node_lem}

find_overlap_in_node_lem_example : IsLongestBelow 3 6 21 6 (find_overlap_in_node 6 21 3)
find_overlap_in_node_lem_example = find_overlap_in_node_lem 6 21 3 (omega arith)
