-- ===== src/Kv/Runner/Clients.antt =====
-- The list of the clients: what cancelling all of them and moving on the task of one of them do.
use distributed_systems.Prelude.{
  ℕ, zero, suc, ◌+◌, ◌≤◌, ◌≡◌, refl, ap, true, false, some, some-inj, List, [], ◌∷◌, ◌++◌, length,
  get_elem?, take, All, arith,
}
use distributed_systems.Kv.Runner.{
  Client, Task, sleeping, running, ended, cancel, cancel_all, set_task,
}

abbrev pub IsCancelled : Client → Type 0
IsCancelled c = c.cancelled ≡ true

abbrev pub IsFree : Client → Type 0
IsFree c = c.cancelled ≡ false

abbrev pub IsOver : Client → Type 0
IsOver c = c.task ≡ ended

pub cancel_all-IsCancelled : (cs : List Client) → All IsCancelled (cancel_all cs)
unfolding cancel_all cancel
cancel_all-IsCancelled [] = tt
cancel_all-IsCancelled (c ∷ cs) = (refl, cancel_all-IsCancelled cs)

pub cancel_all-IsOver :
    (j : ℕ) (cs : List Client) → All IsOver (take j cs) → All IsOver (take j (cancel_all cs))
unfolding cancel_all cancel
cancel_all-IsOver zero cs h = tt
cancel_all-IsOver (suc j) [] h = tt
cancel_all-IsOver (suc j) (c ∷ cs) (h, hs) = (h, cancel_all-IsOver j cs hs)

pub cancel_all-All : (cs : List Client) → All IsOver cs → All IsOver (cancel_all cs)
unfolding cancel_all cancel
cancel_all-All [] h = tt
cancel_all-All (c ∷ cs) (h, hs) = (h, cancel_all-All cs hs)

pub All-set_task :
    (P : Client → Type 0) (i : ℕ) (task : Task) (cs : List Client)
    → ((c : Client) → P c → P (record c { task = task }))
    → All P cs
    → All P (set_task i task cs)
unfolding set_task
All-set_task P i task [] keep h = tt
All-set_task P zero task (c ∷ cs) keep (h, hs) = (keep c h, hs)
All-set_task P (suc i) task (c ∷ cs) keep (h, hs) = (h, All-set_task P i task cs keep hs)

-- A task that is over stays over.
pub set_task-IsOver :
    (i j : ℕ) (task : Task) (c : Client) (cs : List Client)
    → get_elem? cs i ≡ some c
    → (c.task ≡ ended → task ≡ ended)
    → All IsOver (take j cs)
    → All IsOver (take j (set_task i task cs))
unfolding set_task
set_task-IsOver i zero task c cs at keep h = tt
set_task-IsOver i (suc j) task c [] at keep h = tt
set_task-IsOver zero (suc j) task c (d ∷ cs) at keep (h, hs) =
    let same : d ≡ c = some-inj d c at in (keep (rw (← same) h), hs)
set_task-IsOver (suc i) (suc j) task c (d ∷ cs) at keep (h, hs) =
    (h, set_task-IsOver i j task c cs at keep hs)

pub All-take-suc :
    (P : Client → Type 0) (i : ℕ) (c : Client) (cs : List Client)
    → get_elem? cs i ≡ some c
    → P c
    → All P (take i cs)
    → All P (take (suc i) cs)
All-take-suc P zero c (d ∷ cs) at p h = (rw (some-inj d c at) p, tt)
All-take-suc P zero c [] at p h = tt
All-take-suc P (suc i) c [] at p h = tt
All-take-suc P (suc i) c (d ∷ cs) at p (h, hs) = (h, All-take-suc P i c cs at p hs)

pub take_of_le : (i : ℕ) (cs : List Client) → length cs ≤ i → take i cs ≡ cs
take_of_le zero [] h = refl
take_of_le zero (c ∷ cs) h = absurd (omega arith)
take_of_le (suc i) [] h = refl
take_of_le (suc i) (c ∷ cs) h = ap (λ r. c ∷ r) (take_of_le i cs (omega arith))

-- The steps that a client's task has before it.
abbrev pub steps_left : Task → ℕ
steps_left sleeping = 2
steps_left running = 1
steps_left ended = 0

unfoldable pub all_left : List Client → ℕ
all_left [] = 0
all_left (c ∷ cs) = steps_left c.task + all_left cs

pub all_left-append : (cs ds : List Client) → all_left (cs ++ ds) ≡ all_left cs + all_left ds
unfolding all_left
all_left-append [] ds = omega arith
all_left-append (c ∷ cs) ds = omega (arith, all_left-append cs ds)

pub all_left-cancel_all : (cs : List Client) → all_left (cancel_all cs) ≡ all_left cs
unfolding all_left cancel_all cancel
all_left-cancel_all [] = refl
all_left-cancel_all (c ∷ cs) = omega (arith, all_left-cancel_all cs)

pub length-cancel_all : (cs : List Client) → length (cancel_all cs) ≡ length cs
unfolding cancel_all
length-cancel_all [] = refl
length-cancel_all (c ∷ cs) = omega (arith, length-cancel_all cs)

pub all_left-set_task :
    (i : ℕ) (task : Task) (c : Client) (cs : List Client)
    → get_elem? cs i ≡ some c
    → all_left (set_task i task cs) + steps_left c.task ≡ all_left cs + steps_left task
unfolding all_left set_task
all_left-set_task i task c [] at = absurd (ground arith)
all_left-set_task zero task c (d ∷ cs) at =
    let same : d ≡ c = some-inj d c at in rw (← same) (omega arith)
all_left-set_task (suc i) task c (d ∷ cs) at = omega (arith, all_left-set_task i task c cs at)

pub length-set_task :
    (i : ℕ) (task : Task) (cs : List Client) → length (set_task i task cs) ≡ length cs
unfolding set_task
length-set_task i task [] = refl
length-set_task zero task (c ∷ cs) = refl
length-set_task (suc i) task (c ∷ cs) = omega (arith, length-set_task i task cs)

pub All-at :
    (P : Client → Type 0) (i : ℕ) (c : Client) (cs : List Client)
    → get_elem? cs i ≡ some c
    → All P cs
    → P c
All-at P i c [] at h = absurd (ground arith)
All-at P zero c (d ∷ cs) at (h, hs) = rw (← some-inj d c at) h
All-at P (suc i) c (d ∷ cs) at (h, hs) = All-at P i c cs at hs

pub lt_of_at : (i : ℕ) (c : Client) (cs : List Client) → get_elem? cs i ≡ some c → suc i ≤ length cs
lt_of_at i c [] at = absurd (ground arith)
lt_of_at zero c (d ∷ cs) at = omega arith
lt_of_at (suc i) c (d ∷ cs) at = omega (arith, lt_of_at i c cs at)

-- an index below the length has a client
pub at_of_lt :
    (i : ℕ) (cs : List Client) → suc i ≤ length cs → (c : Client) × (get_elem? cs i ≡ some c)
at_of_lt i [] h = absurd (omega arith)
at_of_lt zero (c ∷ cs) h = (c, refl)
at_of_lt (suc i) (c ∷ cs) h = at_of_lt i cs (omega arith)
