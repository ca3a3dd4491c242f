-- ===== src/Prelude/Slists.antt =====
-- GLib's lists of addresses.
use Prim.Native.Nat.{ℕ}
use mathlib.Core.Bool.{Bool, true, false}
use mathlib.Core.List.{List, [], ◌∷◌}
use mbb_devel.Prelude.Tests.{◌==◌, if◌then◌else◌}

-- g_slist_find and g_slist_remove.
unfoldable pub slist_has : ℕ → List ℕ → Bool
slist_has x [] = false
slist_has x (y ∷ l) = let rest = slist_has x l in if y == x then true else rest

unfoldable pub slist_remove : ℕ → List ℕ → List ℕ
slist_remove x [] = []
slist_remove x (y ∷ l) = let rest = slist_remove x l in if y == x then l else y ∷ rest
