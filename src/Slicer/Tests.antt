-- ===== src/Slicer/Tests.antt =====
-- The slicer run on addresses, with a sum of numbers as the data of an entry.
use mbb_devel.Prelude.{ℕ, ◌+◌, ◌≡◌, refl, arith, inr, not, Option, none, some, [], ◌∷◌}
use mbb_devel.Prelude.Int.{pos}
use mbb_devel.Inet.{ipv4_max}
use mbb_devel.Slice.{Slice}
use mbb_devel.Slice.Keys.{inet_ops}
use mbb_devel.Slice.Keys.Instances.{inet_laws}
use mbb_devel.Slicer.{Entry, Slicer, DataOps, is_some, slicer_insert, slicer_delete}
use mbb_devel.Slicer.FirstHit.{first_hit, first_hit_laws}
use mbb_devel.Slicer.Glue.{slicer_glue_null}
use mbb_devel.Slicer.Glue.Runs.{visible_at, Apart, slicer_glue_null-visible}
use mbb_devel.Slicer.Partition.{IsPartition, IsRequest}
use mbb_devel.Slicer.Effect.{Computes, Changed, slicer_insert-Changed, slicer_delete-Changed}

-- A sum as data: adding adds, deleting removes.
abbrev add_up : ℕ → Option ℕ → Option ℕ
add_up n none = some n
add_up n (some m) = some (m + n)

abbrev sums : DataOps (Unit {0}) ℕ ℕ
sums = record {
  add = λ n d env. (add_up n d, env);
  del = λ n d env. (none, env);
  dup = λ d. d;
  is_null = λ d. not (is_some d);
}

abbrev AnyData : Option ℕ → Type 0
AnyData d = Unit

abbrev AnyState : Unit {0} → Type 0
AnyState env = Unit

abbrev entry : ℕ → ℕ → Option ℕ → Entry ℕ
entry b e d = record { slice = record { begin = b; end = e }; content = d }

-- 0.0.0.0 to 9.255.255.255 without data, the rest with 5.
abbrev two_parts : Slicer ℕ
two_parts = record {
  queue = entry 0 0x9ff_ffff none ∷ entry 0xa00_0000 ipv4_max (some 5) ∷ [];
  count = pos 1;
}

abbrev request_slice : Slice
request_slice = record { begin = 0x900_0000; end = 0xaff_ffff }

two_parts-IsPartition : IsPartition ipv4_max ipv4_max two_parts.queue
two_parts-IsPartition = omega arith

request_slice-IsRequest : IsRequest ipv4_max ipv4_max request_slice
request_slice-IsRequest = record {
  begins = omega arith;
  not_one = omega arith;
  ends = omega arith;
  not_empty = omega arith;
}

adds : Computes (sums.add 3) (add_up 3) AnyData AnyState
adds = record { result = λ d env p g. refl; good = λ d env p g. tt }

deletes : Computes (sums.del 3) (λ d. none) AnyData AnyState
deletes = record { result = λ d env p g. refl; good = λ d env p g. tt }

slicer_insert-Changed_example :
    (s' : Slicer ℕ) × (env' : Unit {0}) × (slicer_insert inet_ops sums first_hit 3 request_slice
        two_parts tt
      ≡ some (s', env'))
    × Changed inet_ops ipv4_max ipv4_max first_hit (add_up 3) request_slice two_parts s'
    × Unit {0}
slicer_insert-Changed_example =
    slicer_insert-Changed inet_laws ipv4_max (inr refl) request_slice request_slice-IsRequest sums
      (λ d. refl) first_hit first_hit_laws 3 two_parts tt adds two_parts-IsPartition
      (λ h. tt, (λ h. tt, tt)) tt

slicer_delete-Changed_example :
    (s' : Slicer ℕ) × (env' : Unit {0}) × (slicer_delete inet_ops sums first_hit 3 request_slice
        two_parts tt
      ≡ some (s', env'))
    × Changed inet_ops ipv4_max ipv4_max first_hit (λ d. none) request_slice two_parts s'
    × Unit {0}
slicer_delete-Changed_example =
    slicer_delete-Changed inet_laws ipv4_max (inr refl) request_slice request_slice-IsRequest sums
      (λ d. refl) first_hit first_hit_laws 3 two_parts tt deletes two_parts-IsPartition
      (λ h. tt, (λ h. tt, tt)) tt

-- Two entries with null data before one with 5.
abbrev three_parts : Slicer ℕ
three_parts = record {
  queue = entry 0 7 none ∷ entry 8 0x9ff_ffff none ∷ entry 0xa00_0000 ipv4_max (some 5) ∷ [];
  count = pos 1;
}

slicer_glue_null-visible_example :
    IsPartition ipv4_max ipv4_max (slicer_glue_null inet_ops sums three_parts).queue
    × Apart sums (slicer_glue_null inet_ops sums three_parts).queue
    × ((p : ℕ)
        → visible_at sums ipv4_max p (slicer_glue_null inet_ops sums three_parts).queue
          ≡ visible_at sums ipv4_max p three_parts.queue)
slicer_glue_null-visible_example =
    slicer_glue_null-visible inet_ops sums inet_laws.dup_same refl ipv4_max ipv4_max three_parts
      (omega arith)
