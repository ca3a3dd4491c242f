-- ===== src/Slice/Tests.antt =====
-- Keys at concrete values.
use mbb_devel.Prelude.{◌<◌, ◌≡◌, ◌↔◌, arith}
use mbb_devel.Prelude.Int.{pos}
use mbb_devel.Slice.Keys.{inet_cmp}
use mbb_devel.Slice.Keys.Instances.{inet_cmp_one}

inet_cmp_one_example : (inet_cmp 9 3 ≡ pos 1) ↔ (◌<◌ 3 9)
inet_cmp_one_example = inet_cmp_one 3 9 (omega arith) (omega arith)
