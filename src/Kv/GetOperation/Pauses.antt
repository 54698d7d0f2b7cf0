-- ===== src/Kv/GetOperation/Pauses.antt =====
-- A get against the server of a deployment.
use distributed_systems.Prelude.{
  ℕ, ◌+◌, ◌≡◌, refl, Option, some, Bool, false, Bool-cases, inl, inr, Text, arith,
}
use distributed_systems.Kv.Storage.{Storage, View, contract_get, Implements}
use distributed_systems.Kv.Client.{ClientConfig}
use distributed_systems.Kv.Deployment.{Deployment, deployment, stored, next_loss}
use distributed_systems.Kv.GetOperation.{GetOperation, execute}

-- how long a get waits that is lost or not, for a key that holds an entry or not
abbrev pub pause : Bool → Option (Text × ℕ) → ClientConfig → ℕ
pause false (some entry) config = config.success_sleep_ms
pause _ _ config = config.error_sleep_ms

module _ {S Status : Type 0} (st : Storage S) (deadline_exceeded : Text → Status) {Inv : S → Type 0}
    {Clean : Text → Type 0} {view : S → View} (laws : Implements st Inv Clean view) where
  -- A get changes nothing in the storage, and pauses once: for the success pause exactly if its
  -- request is sent and its key is there, else for the error pause.
  pub execute_pauses :
      (op : GetOperation) (w : Deployment S)
      → Inv (stored w)
      → Clean op.key
      → let w' = execute (deployment st deadline_exceeded) op w in
        (stored w' ≡ stored w)
        × (w'.slept_ms
            ≡ w.slept_ms + pause (next_loss w.client_losses).0 (view (stored w) op.key) op.config)
  unfolding execute deployment contract_get
  execute_pauses op w inv ck = elim (Bool-cases (next_loss w.client_losses).0) [
    | inl lost ↦ rw lost (refl, refl)
    | inr sent ↦ rw (sent, laws.get_lem (stored w) op.key inv ck) (ground arith)
  ]
