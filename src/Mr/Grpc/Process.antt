-- ===== src/Mr/Grpc/Process.antt =====
-- The processes of map-reduce/process-rpc: how the coordinator starts one, in
-- src/grpc_worker_runtime.rs, and what one does with its command line, in `main` and `run_worker` of
-- src/main.rs. Processes, serde and the parser of the command line are parameters.
use distributed_systems.Prelude.{
  ◌≡◌, Bool, true, false, Option, none, some, List, [], ◌∷◌, Text, codes, text_beq, if◌then◌else◌,
}
use distributed_systems.Mr.Executor.{Outcome, panicked}
use distributed_systems.Mr.Grpc.Work.{Json}

pub record Cli : Type 0 where
  pub worker : Bool
  pub worker_type : Option Text
  pub task : Option Text

-- the arguments with which `spawn` starts this program again
unfoldable pub arguments : Text → Text → List Text
arguments worker_type task_json =
    codes "--worker" ∷ codes "--type" ∷ worker_type ∷ codes "--task" ∷ task_json ∷ []

module _ {W MapperTask ReducerTask : Type 0} (mappers : Json MapperTask)
    (reducers : Json ReducerTask) where
  -- `start` runs this program with some arguments; `none` is the panic of an `expect`.
  unfoldable pub spawn_mapper :
      {Child : Type 0} → (W → List Text → Option (W × Child)) → W → MapperTask → Option (W × Child)
  unfolding arguments
  spawn_mapper start w task = start w (arguments (codes "mapper") (mappers.to_string task))

  unfoldable pub spawn_reducer :
      {Child : Type 0} → (W → List Text → Option (W × Child)) → W → ReducerTask → Option (W × Child)
  unfolding arguments
  spawn_reducer start w task = start w (arguments (codes "reducer") (reducers.to_string task))

  module _ (run_mapper : MapperTask → W → Outcome W)
      (run_reducer : ReducerTask → W → Outcome W) where
    unfoldable pub run_task : {T : Type 0} → Json T → (T → W → Outcome W) → Text → W → Outcome W
    run_task json run task_json w = elim (json.from_str task_json) [
      | none ↦ panicked
      | some task ↦ run task w
    ]

    unfoldable pub run_worker : Cli → W → Outcome W
    unfolding run_task
    run_worker cli w = elim cli.task [
      | none ↦ panicked
      | some task_json ↦ elim cli.worker_type [
        | none ↦ panicked
        | some worker_type ↦
            let mapper = run_task mappers run_mapper task_json w in
            let reducer = run_task reducers run_reducer task_json w in
            if text_beq worker_type (codes "mapper")
            then mapper
            else if text_beq worker_type (codes "reducer")
            then reducer
            else panicked
      ]
    ]

    unfoldable pub main : (List Text → Cli) → (W → Outcome W) → List Text → W → Outcome W
    unfolding run_worker
    main parse run_coordinator args w =
        let cli = parse args in
        let worked = run_worker cli w in
        let coordinated = run_coordinator w in if cli.worker then worked else coordinated

    -- What clap documents of these options: they stand in any order, `--worker` takes no value, the
    -- two others take the next argument, and one that is not there is `false` or `None`.
    pub record IsClap (parse : List Text → Cli) : Type 0 where
      pub no_options : parse [] ≡ record { worker = false; worker_type = none; task = none }
      pub worker_flag :
          (rest : List Text)
          → (parse rest).worker ≡ false
          → parse (codes "--worker" ∷ rest) ≡ record (parse rest) { worker = true }
      pub type_option :
          (value : Text) (rest : List Text)
          → (parse rest).worker_type ≡ none
          → parse (codes "--type" ∷ value ∷ rest) ≡ record (parse rest) { worker_type = some value }
      pub task_option :
          (value : Text) (rest : List Text)
          → (parse rest).task ≡ none
          → parse (codes "--task" ∷ value ∷ rest) ≡ record (parse rest) { task = some value }
