-- ===== src/Examples/Jobs.antt =====
-- A phase that adds up, whole jobs, and a report.
use mathlib.Core.List.{Permᴰ}
use distributed_systems.Prelude.{
  Option, none, ℕ, ◌-◌, ◌≡◌, refl, List, [], ◌∷◌, length, take, Text, codes, text_eq, nat_eq, arith,
  u32,
}
use distributed_systems.Prelude.Totals.{total}
use distributed_systems.Prelude.HashMap
use distributed_systems.Prelude.HashMap.{HashMap}
use distributed_systems.Mr.StateStore.{LocalStateAccess, local}
use distributed_systems.Mr.Executor.{Outcome}
use distributed_systems.Mr.Report.{Report, report, first_count}
use distributed_systems.Mr.Report.Sorted.{IsSorted, report_lem}
use distributed_systems.Mr.WordSearch.{
  MapWorkAssignment, ReduceWorkAssignment, map_work, reduce_work,
}
use distributed_systems.Mr.TestData.{Config}
use distributed_systems.Mr.Job.{Platform}
use distributed_systems.Mr.Job.Mains.{Succeeds}
use distributed_systems.Examples.Bench.{Part, bench, seen, unreported}

-- One kind of worker that adds what it is given to a sum.
record Adders : Type 0 where
  slots : HashMap ℕ ℕ
  listed : List ℕ
  sum : ℕ
  wrote : Option ℕ

abbrev adders : Part Adders ℕ ℕ
adders = record {
  slots = λ w. w.slots;
  listed = λ w. w.listed;
  store = λ w. w.sum;
  writer = λ w. w.wrote;
  set = λ w m h l s. record { slots = m; listed = l; sum = s; wrote = h };
  writer-set = λ w m h l s. refl;
  slots-set = λ w m h l s. refl;
  listed-set = λ w m h l s. refl;
  store-set = λ w m h l s. refl;
}

abbrev no_sum : Adders
no_sum = record { slots = []; listed = []; sum = 0; wrote = none }

-- Mappers and reducers that share a store.
record Shop : Type 0 where
  map_slots : HashMap ℕ MapWorkAssignment
  mapped : List MapWorkAssignment
  reduce_slots : HashMap ℕ ReduceWorkAssignment
  reduced : List ReduceWorkAssignment
  state : LocalStateAccess
  map_wrote : Option ℕ
  reduce_wrote : Option ℕ

abbrev map_part : Part Shop MapWorkAssignment LocalStateAccess
map_part = record {
  slots = λ w. w.map_slots;
  listed = λ w. w.mapped;
  store = λ w. w.state;
  writer = λ w. w.map_wrote;
  set = λ w m h l s. record w { map_slots = m; mapped = l; state = s; map_wrote = h };
  writer-set = λ w m h l s. refl;
  slots-set = λ w m h l s. refl;
  listed-set = λ w m h l s. refl;
  store-set = λ w m h l s. refl;
}

abbrev reduce_part : Part Shop ReduceWorkAssignment LocalStateAccess
reduce_part = record {
  slots = λ w. w.reduce_slots;
  listed = λ w. w.reduced;
  store = λ w. w.state;
  writer = λ w. w.reduce_wrote;
  set = λ w m h l s. record w { reduce_slots = m; reduced = l; state = s; reduce_wrote = h };
  writer-set = λ w m h l s. refl;
  slots-set = λ w m h l s. refl;
  listed-set = λ w m h l s. refl;
  store-set = λ w m h l s. refl;
}

abbrev shop_platform : Platform Shop ℕ ℕ
shop_platform = record {
  rng = record { random_range = λ w low high. (w, low) };
  initialize_state = λ w targets. record w { state = record { values = [] } };
  create_mapper = λ w id. (w, id);
  create_reducer = λ w id. (w, id);
  mappers = bench map_part (map_work local);
  reducers = bench reduce_part (reduce_work local);
  get_map = λ w. (w.state).values;
}

abbrev shop : Shop
shop = record {
  map_slots = [];
  mapped = [];
  reduce_slots = [];
  reduced = [];
  state = record { values = [] };
  map_wrote = none;
  reduce_wrote = none;
}

abbrev shop_config : Config
shop_config = record {
  num_strings = 3;
  max_string_length = 3;
  num_target_words = 2;
  target_word_length = 1;
  partition_size = 2;
  keys_per_reducer = 1;
  num_mappers = 2;
  num_reducers = 2;
  mapper_failure_probability = 0;
  reducer_failure_probability = 0;
  mapper_timeout_ms = 0;
  reducer_timeout_ms = 0;
  mapper_straggler_probability = 0;
  mapper_straggler_delay_ms = 2000;
  reducer_straggler_probability = 0;
  reducer_straggler_delay_ms = 2000;
}

abbrev IsShown : Outcome (Shop × Report) → Type 0
IsShown =
    Succeeds shop_platform (λ w. w.state) (seen map_part (map_work local))
      (seen reduce_part (reduce_work local)) (unreported map_part (map_work local))
      (unreported reduce_part (reduce_work local)) 0 0 shop_config shop

abbrev results : List (Text × List ℕ)
results = (codes "b", 2 ∷ []) ∷ (codes "a", 2 ∷ []) ∷ (codes "z", []) ∷ (codes "q", 7 ∷ []) ∷ []

report_lem_example :
    (sorted : List (Text × List ℕ)) × Permᴰ sorted results
    × IsSorted sorted
    × ((report results).lines ≡ take 20 sorted)
    × ((report results).more_words ≡ length results - 20)
    × ((report results).total_occurrences ≡ u32 (total first_count results))
unfolding first_count
report_lem_example =
    report_lem results (omega arith, (omega arith, (omega arith, (omega arith, tt))))
