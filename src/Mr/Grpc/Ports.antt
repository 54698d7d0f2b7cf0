-- ===== src/Mr/Grpc/Ports.antt =====
-- The ports of map-reduce/process-rpc: of the workers, in src/config.rs, src/mapper.rs and
-- src/reducer.rs, and of the state server, in `run_coordinator` of src/main.rs. A `u16` wraps around
-- in a release build.
use distributed_systems.Prelude.{ℕ, ◌+◌, ◌%◌, ◌<◌, ◌≢◌, arith}

abbrev pub u16 : ℕ → ℕ
u16 n = n % 65536

abbrev pub mapper_base_port : ℕ
mapper_base_port = 30000

abbrev pub reducer_base_port : ℕ
reducer_base_port = 40000

-- `MAPPER_BASE_PORT + id as u16`
unfoldable pub mapper_port : ℕ → ℕ
mapper_port id = u16 (mapper_base_port + u16 id)

unfoldable pub reducer_port : ℕ → ℕ
reducer_port id = u16 (reducer_base_port + u16 id)

-- `rand::random::<u16>() % 10000 + 20000`
unfoldable pub state_port : ℕ → ℕ
state_port random = random % 10000 + 20000

-- With at most 10000 mappers and 10000 reducers no two workers have the same port, and none has that
-- of the state server.
pub ports_differ :
    (i j k random : ℕ)
    → i < 10000
    → j < 10000
    → k < 10000
    → i ≢ j
    → (mapper_port i ≢ mapper_port j)
      × (reducer_port i ≢ reducer_port j)
      × (mapper_port i ≢ reducer_port k)
      × (state_port random ≢ mapper_port i)
      × (state_port random ≢ reducer_port k)
unfolding mapper_port reducer_port state_port
ports_differ i j k random small_i small_j small_k other = (
  λ e. other (omega arith),
  λ e. other (omega arith),
  λ e. omega arith,
  λ e. omega arith,
  λ e. omega arith,
)
