-- ===== src/Mr/Grpc/Store.antt =====
-- map-reduce/process-rpc/src/grpc_state_server.rs, a state store behind a service, and its client in
-- src/grpc_state_store.rs, which prints or drops every error. All clones of the client share one
-- connection; the state holds it, the network and the server's store.
pub mod Effects
use distributed_systems.Prelude.{ℕ, Bool, true, false, Option, none, some, List, [], Text, codes}
use distributed_systems.Mr.StateStore.{StateStore}
use distributed_systems.Mr.Grpc.{Fate, Network, call}

pub record StateResponse : Type 0 where
  pub success : Bool
  pub error : Text

-- `N` is the state of the network.
pub record Remote (N S : Type 0) : Type 0 where
  pub network : N
  pub has_client : Bool
  pub state : S

module _ {N S : Type 0} (net : Network N) (st : StateStore S) where
  abbrev pub network_of : Network (Remote N S)
  network_of = record {
    connect =
        λ r. let (n, connected) = net.connect r.network in (record r { network = n }, connected);
    fate = λ r. let (n, fate) = net.fate r.network in (record r { network = n }, fate);
  }

  -- the handlers of `GrpcStateServer`
  unfoldable pub serve_initialize : List Text → Remote N S → Remote N S × Option StateResponse
  serve_initialize keys r = (
    record r { state = st.initialize r.state keys },
    some (record { success = true; error = [] }),
  )

  unfoldable pub serve_update : Text → ℕ → Remote N S → Remote N S × Option StateResponse
  serve_update key value r = (
    record r { state = st.update r.state key value },
    some (record { success = true; error = [] }),
  )

  unfoldable pub serve_replace : Text → ℕ → Remote N S → Remote N S × Option StateResponse
  serve_replace key value r = (
    record r { state = st.replace r.state key value },
    some (record { success = true; error = [] }),
  )

  unfoldable pub serve_get : Text → Remote N S → Remote N S × Option (List ℕ)
  serve_get key r = (r, some (st.get r.state key))

  -- `get_client`: the connection that is there, or a new one
  unfoldable pub get_client : Remote N S → Remote N S × Bool
  get_client r = elim r.has_client [
    | true ↦ (r, true)
    | false ↦
        let (n, connected) = net.connect r.network in
        (record r { network = n; has_client = connected }, connected)
  ]

  -- a call on the client, if there is one
  unfoldable pub on_client :
      {Resp : Type 0}
      → (Remote N S → Remote N S × Option Resp)
      → Remote N S
      → Remote N S × Option Resp
  unfolding get_client call
  on_client handler r =
      let (r1, connected) = get_client r in
      elim connected [ false ↦ (r1, none) | true ↦ call network_of handler r1 ]

  unfoldable pub initialize : Remote N S → List Text → Remote N S
  unfolding on_client serve_initialize
  initialize r keys = (on_client (serve_initialize keys) r).0

  unfoldable pub update : Remote N S → Text → ℕ → Remote N S
  unfolding on_client serve_update
  update r key value = (on_client (serve_update key value) r).0

  unfoldable pub replace : Remote N S → Text → ℕ → Remote N S
  unfolding on_client serve_replace
  replace r key value = (on_client (serve_replace key value) r).0

  unfoldable pub get : Remote N S → Text → Remote N S × List ℕ
  unfolding on_client serve_get
  get r key =
      let (r1, response) = on_client (serve_get key) r in
      elim response [ none ↦ (r1, []) | some values ↦ (r1, values) ]

  -- `GrpcStateStore` as a state store, for a network that answers every call: `get` of the trait
  -- takes `&self`, so the connection that a call leaves is not threaded on here; `get` above has it.
  unfoldable pub grpc : StateStore (Remote N S)
  unfolding initialize update replace get
  grpc = record {
    initialize = initialize;
    update = update;
    replace = replace;
    get = λ r key. (get r key).1;
  }
