-- ===== src/Kv/Error.antt =====
-- key-value-server/core/src/storage_error.rs and the messages of
-- key-value-server/core/proto/key-value-server.proto. The generated `ErrorType` travels as an `i32`,
-- a `oneof` as an `Option` of its cases.
use distributed_systems.Prelude.{ℕ, ◌++◌, Option, none, some, Text, codes, ◌==◌, if◌then◌else◌}
use distributed_systems.Prelude.Decimal.{format}

pub data StorageError : Type 0 where
  key_not_found : Text → StorageError
  key_already_exists : Text → StorageError
  -- expected, actual
  version_mismatch : ℕ → ℕ → StorageError
  storage_error : Text → StorageError

unfoldable pub quote_key : Text → Text → Text
quote_key key rest = codes "Key '" ++ key ++ codes "' " ++ rest

-- `impl Display for StorageError`
unfoldable pub to_string : StorageError → Text
unfolding quote_key
to_string (key_not_found key) = quote_key key (codes "not found")
to_string (key_already_exists key) = quote_key key (codes "already exists")
to_string (version_mismatch expected actual) =
    codes "Version mismatch: expected " ++ format expected ++ codes ", actual " ++ format actual
to_string (storage_error msg) = codes "Storage error: " ++ msg

pub data ErrorType : Type 0 where
  not_found already_exists mismatch : ErrorType

-- `ErrorType::… as i32`
unfoldable pub as_i32 : ErrorType → ℕ
as_i32 not_found = 0
as_i32 already_exists = 1
as_i32 mismatch = 2

-- `ErrorType::try_from(i32)`
unfoldable pub try_from : ℕ → Option ErrorType
try_from n =
    if n == 0
    then some not_found
    else if n == 1
    then some already_exists
    else if n == 2
    then some mismatch
    else none

pub record GetRequest : Type 0 where
  pub key : Text

pub record PutRequest : Type 0 where
  pub key : Text
  pub value : Text
  pub version : ℕ

pub record GetSuccess : Type 0 where
  pub value : Text
  pub version : ℕ

pub record GetError : Type 0 where
  pub error_type : ℕ
  pub message : Text

pub data GetResult : Type 0 where
  get_success : GetSuccess → GetResult
  get_error : GetError → GetResult

pub record GetResponse : Type 0 where
  pub result : Option GetResult

pub record PutError : Type 0 where
  pub error_type : ℕ
  pub message : Text
  pub actual_version : Option ℕ

pub data PutResult : Type 0 where
  -- the new version
  put_success : ℕ → PutResult
  put_error : PutError → PutResult

pub record PutResponse : Type 0 where
  pub result : Option PutResult
