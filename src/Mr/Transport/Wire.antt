-- ===== src/Mr/Transport/Wire.antt =====
-- A message on a TCP connection: its length, four bytes with the most significant first, and then its
-- JSON text. The code stands in map-reduce/thread-socket/src/socket_status_sender.rs,
-- socket_work_sender.rs, socket_work_receiver.rs and socket_worker_synchronization.rs. The
-- connections and serde are parameters. A byte is a number below 256.
pub mod Frames
use distributed_systems.Prelude.{
  ℕ, ◌+◌, ◌*◌, ◌/◌, ◌%◌, ◌<◌, ◌≡◌, Bool, true, false, Option, none, some, List, [], ◌∷◌, ◌++◌,
  length, u32, if◌then◌else◌,
}

-- `u32::to_be_bytes`
unfoldable pub to_be_bytes : ℕ → List ℕ
to_be_bytes n = n / 16777216 % 256 ∷ n / 65536 % 256 ∷ n / 256 % 256 ∷ n % 256 ∷ []

-- `u32::from_be_bytes`, of four bytes
unfoldable pub from_be_bytes : List ℕ → ℕ
from_be_bytes (a ∷ b ∷ c ∷ d ∷ []) = a * 16777216 + b * 65536 + c * 256 + d
from_be_bytes _ = 0

-- Connections, with state `W`: `connect` to a port of this machine, `write_all` and `read_exact`,
-- which fail or do all of it, and the drop of a connection.
pub record Tcp (W C : Type 0) : Type 0 where
  pub connect : W → ℕ → W × Option C
  pub write_all : W → C → List ℕ → W × Bool
  pub read_exact : W → C → ℕ → W × Option (List ℕ)
  pub drop_stream : W → C → W

-- `serde_json::to_vec` and `serde_json::from_slice`
pub record Serde (M : Type 0) : Type 0 where
  pub to_vec : M → Option (List ℕ)
  pub from_slice : List ℕ → Option M

module _ {W C M : Type 0} (tcp : Tcp W C) (serde : Serde M) where
  -- Both writes, the second only when the first succeeds.
  unfoldable pub write_frame : W → C → List ℕ → W × Bool
  unfolding to_be_bytes
  write_frame w stream serialized =
      let (w1, wrote_length) = tcp.write_all w stream (to_be_bytes (u32 (length serialized))) in
      if wrote_length then tcp.write_all w1 stream serialized else (w1, false)

  -- Both writes, whatever comes of them.
  unfoldable pub write_both : W → C → List ℕ → W
  unfolding to_be_bytes
  write_both w stream serialized =
      let (w1, _) = tcp.write_all w stream (to_be_bytes (u32 (length serialized))) in
      let (w2, _) = tcp.write_all w1 stream serialized in w2

  -- the body of a message whose length has been read
  unfoldable pub read_body : W → C → ℕ → W × Option M
  read_body w stream len =
      let (w1, buffer) = tcp.read_exact w stream len in
      elim buffer [ none ↦ (w1, none) | some bytes ↦ (w1, serde.from_slice bytes) ]

  unfoldable pub read_frame : W → C → W × Option M
  unfolding read_body from_be_bytes
  read_frame w stream =
      let (w1, len_bytes) = tcp.read_exact w stream 4 in
      elim len_bytes [ none ↦ (w1, none) | some bytes ↦ read_body w1 stream (from_be_bytes bytes) ]

  -- what `SocketStatusSender::send` does with a message
  unfoldable pub send_message : W → ℕ → M → W × Bool
  unfolding write_frame
  send_message w port message =
      let (w1, connected) = tcp.connect w port in
      elim connected [
        | none ↦ (w1, false)
        | some stream ↦ elim (serde.to_vec message) [
          | none ↦ (tcp.drop_stream w1 stream, false)
          | some serialized ↦
              let (w2, sent) = write_frame w1 stream serialized in (tcp.drop_stream w2 stream, sent)
        ]
      ]

  -- the body of a thread of `SocketWorkSender`
  unfoldable pub post_message : ℕ → M → W → W
  unfolding write_both
  post_message port message w =
      let (w1, connected) = tcp.connect w port in
      elim connected [
        | none ↦ w1
        | some stream ↦ elim (serde.to_vec message) [
          | none ↦ tcp.drop_stream w1 stream
          | some serialized ↦ tcp.drop_stream (write_both w1 stream serialized) stream
        ]
      ]
