-- ===== src/Units/Tests.antt =====
-- A consumer with one unit, which has one network.
use mbb_devel.Prelude.{ℕ, ◌≡◌, ◌⊎◌, refl, arith, true, false, none, [], ◌∷◌}
use mbb_devel.Prelude.Int.{pos, minus_one}
use mbb_devel.Prelude.Lists.{All}
use mbb_devel.Prelude.Text.{codes}
use mbb_devel.Objects.Consumer.{Consumer, mbb_consumer_mod_time}
use mbb_devel.Units.{MbbUnit, InetPoolEntry, set_consumer_at}
use mbb_devel.Map.{Map, MapCross}
use mbb_devel.Units.Intervals.{InTime, IsTimed, test_time, mbb_consumer_mod_time-IsTimed}

abbrev one_consumer : ℕ → Consumer
one_consumer c = record { id = 1; name = codes "con"; units = 8 ∷ []; start = pos 100; end = pos 0 }

abbrev one_unit : ℕ → MbbUnit
one_unit u = record {
  id = 2;
  name = codes "unit";
  con = 5;
  local = false;
  start = minus_one;
  end = pos 900;
  sep = 3 ∷ [];
  map = none;
}

abbrev one_network : ℕ → InetPoolEntry
one_network e = record {
  id = 3;
  inet = record { addr = 0xa00_0000; mask = 8 };
  flag = 1;
  start = pos 500;
  end = minus_one;
  nice = 0;
  owner = 8;
  node_list = [];
}

mbb_consumer_mod_time-IsTimed_example :
    (((mbb_consumer_mod_time
          (test_time one_unit one_network)
          (one_consumer 5)
          (pos 200)
          (pos 800)).1
        ≡ false)
      × ((mbb_consumer_mod_time
            (test_time one_unit one_network)
            (one_consumer 5)
            (pos 200)
            (pos 800)).0
          ≡ one_consumer 5))
    ⊎ (((mbb_consumer_mod_time
            (test_time one_unit one_network)
            (one_consumer 5)
            (pos 200)
            (pos 800)).1
          ≡ true)
        × InTime (pos 200) (pos 800)
        × All
            (λ u.
              IsTimed
                (set_consumer_at 5
                  (mbb_consumer_mod_time
                    (test_time one_unit one_network)
                    (one_consumer 5)
                    (pos 200)
                    (pos 800)).0
                  one_consumer)
                one_network
                (one_unit u))
            (8 ∷ []))
mbb_consumer_mod_time-IsTimed_example =
    mbb_consumer_mod_time-IsTimed one_unit one_network one_consumer 5 (pos 200) (pos 800)
      (omega arith) (λ e. (refl, refl)) (refl, tt)

abbrev no_cross : MapCross
no_cross = record { slice = record { begin = 0; end = 0 }; value = 0; found = false }
