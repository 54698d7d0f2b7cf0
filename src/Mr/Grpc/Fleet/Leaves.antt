-- ===== src/Mr/Grpc/Fleet/Leaves.antt =====
-- Which processes of workers are left running by the coordinator of map-reduce/process-rpc.
use distributed_systems.Prelude.{
  ℕ, zero, suc, ◌+◌, ◌<◌, ◌≤◌, none, ◌≡◌, ◌≢◌, refl, ap, ◌⊎◌, inl, inr, some, List, [], ◌∷◌, length,
  Text, arith,
}
use distributed_systems.Mr.TestData.{create_workers}
use distributed_systems.Mr.Grpc.Fleet.{
  Processes, mem_replace, drop_child, Worker, drop_worker, drop_workers, exchange_worker,
}

module _ {A C : Type 0} (child : A → C) where
  -- One of the workers has the process.
  abbrev pub Owned : C → List A → Type 0
  Owned c [] = ⊥
  Owned c (x ∷ xs) = (child x ≡ c) ⊎ Owned c xs

  abbrev Replaced : List A → A → A × List A → Type 0
  Replaced xs a (old, ys) =
      (length ys ≡ length xs)
      × ((c : C) → child a ≡ c → Owned c ys)
      × ((c : C) → Owned c xs → (child old ≡ c) ⊎ Owned c ys)

  replace_later :
      (x a old : A) (xs ys : List A) → Replaced xs a (old, ys) → Replaced (x ∷ xs) a (old, x ∷ ys)
  replace_later x a old xs ys (same, new, others) = (
    ap suc same,
    (λ c e. inr (new c e)),
    λ c o. elim o [
      | inl first ↦ inr (inl first)
      | inr later ↦ elim (others c later) [
        | inl replaced ↦ inl replaced
        | inr kept ↦ inr (inr kept)
      ]
    ],
  )

  mem_replace-Replaced :
      (xs : List A) (i : ℕ) (a : A)
      → i < length xs
      → (old : A) × (ys : List A) × (mem_replace xs i a ≡ some (old, ys)) × Replaced xs a (old, ys)
  unfolding mem_replace
  mem_replace-Replaced [] i a h = absurd (omega arith)
  mem_replace-Replaced (x ∷ xs) zero a h = (
    x,
    a ∷ xs,
    refl,
    (refl, (λ c e. inl e), λ c o. elim o [ inl first ↦ inl first | inr later ↦ inr (inr later) ]),
  )
  mem_replace-Replaced (x ∷ xs) (suc i) a h =
      let (old, ys, e, replaced) = mem_replace-Replaced xs i a (omega arith) in
      (old, x ∷ ys, rw (e, mem_replace) refl, replace_later x a old xs ys replaced)

mem_replace-past :
    {A : Type 0} (xs : List A) (i : ℕ) (a : A) → length xs ≤ i → mem_replace xs i a ≡ none
unfolding mem_replace
mem_replace-past [] i a h = refl
mem_replace-past (x ∷ xs) zero a h = absurd (omega arith)
mem_replace-past (x ∷ xs) (suc i) a h = rw (mem_replace-past xs i a (omega arith)) refl

module _ {W Child Error : Type 0} (processes : Processes W Child Error)
    (live : W → Child → Type 0) where
  -- `live` are the processes that run and that nobody has told to end.
  pub record IsOs : Type 0 where
    pub starts_one :
        (w : W) (args : List Text) (c : Child)
        → live (processes.start w args).0 c
        → live w c ⊎ ((processes.start w args).1 ≡ c)
    pub killed : (w : W) (c d : Child) → live (processes.start_kill w c) d → live w d × (c ≢ d)

  abbrev pub child_of : Worker processes → Child
  child_of worker = worker.task_handle.child

  -- Every live process that is new since `w` is that of a worker.
  abbrev pub IsKept : W → W → List (Worker processes) → Type 0
  IsKept w v workers = (c : Child) → live v c → live w c ⊎ Owned child_of c workers

  module _ (os : IsOs) where
    pub drop_workers-Ends :
        (workers : List (Worker processes)) (w : W) (c : Child)
        → live (drop_workers processes workers w) c
        → live w c × (¬ (Owned child_of c workers))
    unfolding drop_workers drop_worker drop_child
    drop_workers-Ends [] w c h = (h, λ o. o)
    drop_workers-Ends (x ∷ xs) w c h =
        let (left, others) = drop_workers-Ends xs (drop_worker processes x w) c h in
        let (before, another) = os.killed w (child_of x) c left in
        (before, λ o. elim o [ inl first ↦ another first | inr later ↦ others later ])

    module _ (create_worker : W → ℕ → W × Worker processes)
        (creates : (w : W) (id : ℕ) (c : Child)
          → live (create_worker w id).0 c
          → live w c ⊎ (child_of (create_worker w id).1 ≡ c)) where
      pub create_workers-IsKept :
          (n id : ℕ) (w : W)
          → (length (create_workers create_worker n id w).1 ≡ n)
            × IsKept w
                (create_workers create_worker n id w).0
                (create_workers create_worker n id w).1
      unfolding create_workers
      create_workers-IsKept zero id w = (refl, λ c h. inl h)
      create_workers-IsKept (suc n) id w =
          let v = (create_worker w id).0 in
          let (same, kept) = create_workers-IsKept n (id + 1) v in
          (
            ap suc same,
            λ c h. elim (kept c h) [
              | inr later ↦ inr (inr later)
              | inl first ↦ elim (creates w id c first) [
                | inl old ↦ inl old
                | inr new ↦ inr (inl new)
              ]
            ],
          )

      pub exchange_worker-IsKept :
          (w v : W) (id : ℕ) (workers : List (Worker processes))
          → id < length workers
          → IsKept w v workers
          → (v' : W) × (workers' : List (Worker processes)) × (exchange_worker processes
                create_worker id workers v
              ≡ some (v', workers'))
            × (length workers' ≡ length workers)
            × IsKept w v' workers'
      unfolding exchange_worker drop_worker drop_child
      exchange_worker-IsKept w v id workers inside kept =
          let v1 = (create_worker v id).0 in
          let worker = (create_worker v id).1 in
          let (old, workers', e, (same, new, others)) =
            mem_replace-Replaced child_of workers id worker inside in
          (
            drop_worker processes old v1,
            workers',
            rw (e, exchange_worker) refl,
            same,
            λ c h.
                let (before, another) = os.killed v1 (child_of old) c h in
                elim (creates v id c before) [
                  | inr fresh ↦ inr (new c fresh)
                  | inl lived ↦ elim (kept c lived) [
                    | inl first ↦ inl first
                    | inr owned ↦ elim (others c owned) [
                      | inl gone ↦ absurd (another gone)
                      | inr still ↦ inr still
                    ]
                  ]
                ],
          )

      pub exchange_worker-past :
          (v : W) (id : ℕ) (workers : List (Worker processes))
          → length workers ≤ id
          → exchange_worker processes create_worker id workers v ≡ none
      unfolding exchange_worker
      exchange_worker-past v id workers past =
          rw (mem_replace-past workers id (create_worker v id).1 past, exchange_worker) refl
