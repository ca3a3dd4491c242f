-- ===== src/Gateway/Lookup.antt =====
-- `mbb_gateway_get_link`.
use mbb_devel.Prelude.{ℕ, ◌≡◌, true, List, [], ◌∷◌, ◌⊎◌}
use mbb_devel.Prelude.Int.{ℤ}
use mbb_devel.Gateway.{GwLink}
use mbb_devel.Gateway.Order.{covers}

module _ (heap : ℕ → GwLink) (t : ℤ) where
  -- A link of the queue that is in force.
  abbrev pub InForce : ℕ → List ℕ → Type 0
  InForce gl [] = ⊥
  InForce gl (cur ∷ q) = ((gl ≡ cur) × (covers (heap cur) t ≡ true)) ⊎ InForce gl q
