-- ===== src/Tests/Generations.antt =====
-- Examples for the collection of both generations: the young objects of Tests.Collector's heap in
-- front of a persistent string.
use slake.Prelude.{◌≡◌, refl, false, some, [], ◌∷◌, ◌==◌, arith}
use slake.Gc.Serial.{Collected}
use slake.Gc.Generations.{Allocated, Generations, gc, move_young_size}
use slake.Gc.Generations.Joined.{IsJoined, gc-IsJoined}
use slake.Tests.Collector.{heap, children, runtime, generation, visits, no_type_defs, reached}

abbrev generations : Generations
generations = record {
  runtime = runtime;
  young_objects = generation;
  persistent_objects = record { objects = 4 ∷ []; num_objects = 1 };
  allocated = record { young_alloc = 96; persistent_alloc = 32 };
  sz_persistent_mem_used_after_last_gc = 512;
  sz_computed_persistent_gc_limit = 768;
  sz_mem_used_after_last_gc = 64;
  sz_computed_gc_limit = 96;
}

-- The string that is deallocated took 32 bytes.
abbrev account : Collected → Allocated → Allocated
account r s = record { young_alloc = 64; persistent_alloc = 32 }

gc-IsJoined_example :
    (r : Collected) × (h : Generations) × (gc 2 1 heap account false generations ≡ some h)
    × IsJoined children generations r h
unfolding move_young_size
gc-IsJoined_example =
    gc-IsJoined heap 0 children generations (1 ∷ 2 ∷ []) (λ a. refl) (λ a r. visits a) reached
      (λ a k. ground (arith, k)) (λ a. ground arith)
      (λ a k t. absurd (ground (arith, t, no_type_defs (a == 1)))) 2 (omega arith) account
      (λ r. refl)
