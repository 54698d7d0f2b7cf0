-- ===== src/Kv/History.antt =====
-- The requests of any number of clients to one `KeyValueServer`
-- (key-value-server/core/src/key_value_server.rs), in the order in which its storage serves them.
pub mod Chain
use distributed_systems.Prelude.{
  ℕ, none, some, List, [], ◌∷◌, ◌++◌, Text, text_beq, Result, ok, err, if◌then◌else◌,
}
use distributed_systems.Kv.Error.{
  GetRequest, PutRequest, GetResponse, PutResponse, PutResult, put_success, put_error,
}
use distributed_systems.Kv.Storage.{Storage}
use distributed_systems.Kv.Server.{KeyValueServer, get, put}

pub data Request : Type 0 where
  get_of : GetRequest → Request
  put_of : PutRequest → Request

-- A put that was accepted: the version it expected, its value, and the version it was told.
abbrev pub Accepted : Type 0
Accepted = ℕ × Text × ℕ

unfoldable pub accepted_result : PutRequest → PutResult → List Accepted
accepted_result request (put_success version) = (request.version, request.value, version) ∷ []
accepted_result request (put_error e) = []

-- the response to a put, if it is one that accepts
unfoldable pub accepted_of :
    {Status : Type 0} → PutRequest → Result PutResponse Status → List Accepted
unfolding accepted_result
accepted_of request (err status) = []
accepted_of request (ok response) = elim response.result [
  | none ↦ []
  | some result ↦ accepted_result request result
]

pub data Answer (Status : Type 0) : Type 0 where
  to_get : Result GetResponse Status → Answer Status
  to_put : Result PutResponse Status → Answer Status

-- what a request and its answer add to the accepted puts of a key
unfoldable pub accepted : {Status : Type 0} → Text → Request → Answer Status → List Accepted
unfolding accepted_of
accepted key (put_of request) (to_put response) =
    if text_beq request.key key then accepted_of request response else []
accepted key _ _ = []

module _ {S Status : Type 0} (st : Storage S) where
  unfoldable pub serve : KeyValueServer S → Request → KeyValueServer S × Answer Status
  unfolding get put
  serve server (get_of request) = (server, to_get (get st server request))
  serve server (put_of request) =
      let (server', response) = put st server request in (server', to_put response)

  unfoldable pub serve_all :
      KeyValueServer S → List Request → KeyValueServer S × List (Request × Answer Status)
  unfolding serve
  serve_all server [] = (server, [])
  serve_all server (request ∷ requests) =
      let (server1, answer) = serve server request in
      let (server2, answers) = serve_all server1 requests in (server2, (request, answer) ∷ answers)

-- the accepted puts of a key in a history
unfoldable pub accepted_puts :
    {Status : Type 0} → Text → List (Request × Answer Status) → List Accepted
unfolding accepted
accepted_puts key [] = []
accepted_puts key ((request, answer) ∷ rest) = accepted key request answer ++ accepted_puts key rest
