-- ===== src/Kv/PutOperation/Loop.antt =====
-- One round of the loop of `execute`, by what it decides.
use distributed_systems.Prelude.{ℕ, suc, ◌≡◌, some, Result}
use distributed_systems.Kv.Client.{World}
use distributed_systems.Kv.PutOperation.{PutOperation, continue, finish, round, execute}

module _ {W Status : Type 0} (env : World W Status) (fuel : ℕ) (op : PutOperation) (w : W) where
  pub execute-finish :
      {r : Result (Unit {0}) (Unit {0})}
      → (round env op w).1 ≡ finish r
      → execute env (suc fuel) op w ≡ some ((round env op w).0, r)
  unfolding execute
  execute-finish h = rw (execute, h)

  pub execute-continue :
      {op' : PutOperation}
      → (round env op w).1 ≡ continue op'
      → execute env (suc fuel) op w ≡ execute env fuel op' (round env op w).0
  unfolding execute
  execute-continue h = rw (execute, h)
