-- ===== src/Gateway/Tests.antt =====
-- Three links of a gateway: 1 in force up to time 10, 2 from 20 to 30, 3 from 40 on.
use mbb_devel.Prelude.{ℕ, refl, [], ◌∷◌}
use mbb_devel.Prelude.Int.{pos}
use mbb_devel.Prelude.Tests.{◌==◌, if◌then◌else◌}
use mbb_devel.Times.{timecmp, mbb_time_becmp}
use mbb_devel.Gateway.{GwLink, cut_at, gw_queue_insert_gl, reorder}
use mbb_devel.Gateway.Insert.{IsInsertion, gw_queue_insert_gl-IsInsertion}
use mbb_devel.Gateway.Reorder.{IsReorder, reorder-IsReorder}

abbrev gwlink : ℕ → ℕ → ℕ → GwLink
gwlink id start end = record { id = id; link = 1; start = pos start; end = pos end }

-- Link 4 fits between 1 and 2; the other addresses hold links that are always in force.
abbrev three_links : ℕ → GwLink
three_links n =
    if n == 1
    then gwlink 1 0 10
    else if n == 2
    then gwlink 2 20 30
    else if n == 3
    then gwlink 3 40 0
    else if n == 4
    then gwlink 4 12 15
    else gwlink n 0 0

gw_queue_insert_gl-IsInsertion_example :
    IsInsertion three_links 4 (1 ∷ 2 ∷ 3 ∷ []) (gw_queue_insert_gl three_links 4 (1 ∷ 2 ∷ 3 ∷ []))
unfolding mbb_time_becmp timecmp cut_at
gw_queue_insert_gl-IsInsertion_example =
    gw_queue_insert_gl-IsInsertion three_links 4 (1 ∷ 2 ∷ 3 ∷ []) refl (refl, (refl, (refl, tt)))
      ((refl, (refl, tt)), ((refl, tt), (tt, tt)))

reorder-IsReorder_example :
    IsReorder three_links 4
      (1 ∷ 2 ∷ 3 ∷ 4 ∷ [])
      (1 ∷ 2 ∷ 3 ∷ [])
      (reorder three_links 4 (1 ∷ 2 ∷ 3 ∷ 4 ∷ []))
unfolding mbb_time_becmp timecmp cut_at
reorder-IsReorder_example =
    reorder-IsReorder three_links 4 (1 ∷ 2 ∷ 3 ∷ 4 ∷ []) refl (refl, (refl, (refl, tt)))
      ((refl, (refl, tt)), ((refl, tt), (tt, tt)))
