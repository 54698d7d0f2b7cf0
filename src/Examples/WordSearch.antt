-- ===== src/Examples/WordSearch.antt =====
-- A small job of the word search, and its pieces.
use mathlib.Core.List.{Memᴰ}
use mathlib.Core.List.Perm
use distributed_systems.Prelude.{
  ◌+◌, ◌*◌, ◌≡◌, refl, some, List, [], ◌∷◌, replicate, Text, codes, text_eq, arith,
}
use distributed_systems.Mr.StateStore.{LocalStateAccess, local, local-IsStore, get}
use distributed_systems.Prelude.HashMap
use distributed_systems.Mr.TestData.{Config, Rng}
use distributed_systems.Mr.WordSearch.{
  MapWorkAssignment, ReduceWorkAssignment, WordSearchContext, create_map_assignments,
  create_reduce_assignments, map_work, partition, chunks, slice, number_chunks, with_keys,
}
use distributed_systems.Mr.WordSearch.MapPhase.{occurrences, total, map_work-total}
use distributed_systems.Mr.WordSearch.Phases.{run_map, run_reduce}
use distributed_systems.Mr.WordSearch.Result.{word_search_counts, repeated_assignment_counts_again}

abbrev items : List Text
items = codes "abc" ∷ codes "xbz" ∷ codes "q" ∷ []

abbrev context : WordSearchContext
context = record { targets = codes "b" ∷ codes "z" ∷ [] }

abbrev empty : LocalStateAccess
empty = record { values = [] }

abbrev first_chunk : MapWorkAssignment
first_chunk = record {
  chunk_id = 0;
  chunk = codes "abc" ∷ codes "xbz" ∷ [];
  targets = codes "b" ∷ codes "z" ∷ [];
}

abbrev second_chunk : MapWorkAssignment
second_chunk = record { chunk_id = 1; chunk = codes "q" ∷ []; targets = codes "b" ∷ codes "z" ∷ [] }

abbrev keys : ReduceWorkAssignment
keys = record { keys = codes "b" ∷ codes "z" ∷ [] }

map_work-total_example :
    total (get (map_work local first_chunk empty) (codes "b"))
    ≡ total (get empty (codes "b")) + occurrences (codes "b") first_chunk.chunk
unfolding local
map_work-total_example =
    map_work-total local local-IsStore first_chunk empty (codes "b") (Memᴰ.head refl) (omega arith)

repeated_assignment_counts_again_example :
    total (local.get (run_map local (replicate 2 first_chunk) empty) (codes "b"))
    ≡ total (local.get empty (codes "b")) + 2 * occurrences (codes "b") first_chunk.chunk
repeated_assignment_counts_again_example =
    repeated_assignment_counts_again local local-IsStore first_chunk empty (codes "b") 1
      (Memᴰ.head refl) (omega arith)

made_maps : create_map_assignments items context 2 ≡ some (first_chunk ∷ second_chunk ∷ [])
unfolding create_map_assignments partition chunks slice number_chunks
made_maps = refl

made_keys : create_reduce_assignments context 2 ≡ some (keys ∷ [])
unfolding create_reduce_assignments partition chunks slice with_keys
made_keys = refl

-- The chunks in the other order.
word_search_counts_example :
    local.get
      (run_reduce local (keys ∷ []) (run_map local (second_chunk ∷ first_chunk ∷ []) empty))
      (codes "b")
    ≡ occurrences (codes "b") items ∷ []
unfolding local get HashMap.get
word_search_counts_example =
    word_search_counts local local-IsStore items context 2 2 (first_chunk ∷ second_chunk ∷ [])
      (second_chunk ∷ first_chunk ∷ []) (keys ∷ []) (keys ∷ []) empty (codes "b") (omega arith)
      (omega arith) (omega arith) made_maps made_keys (Perm.swap second_chunk first_chunk [])
      (Perm.refl (keys ∷ [])) (Memᴰ.head refl) refl

-- A generator that always draws the least number.
abbrev least : Rng Unit
least = record { random_range = λ w low high. (w, low) }

abbrev small_run : Config
small_run = record {
  num_strings = 3;
  max_string_length = 5;
  num_target_words = 2;
  target_word_length = 2;
  partition_size = 2;
  keys_per_reducer = 1;
  num_mappers = 2;
  num_reducers = 2;
  mapper_failure_probability = 0;
  reducer_failure_probability = 0;
  mapper_timeout_ms = 0;
  reducer_timeout_ms = 0;
  mapper_straggler_probability = 0;
  mapper_straggler_delay_ms = 1000;
  reducer_straggler_probability = 0;
  reducer_straggler_delay_ms = 1000;
}
