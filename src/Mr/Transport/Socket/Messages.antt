-- ===== src/Mr/Transport/Socket/Messages.antt =====
-- What becomes of a status on its way to the coordinator.
use distributed_systems.Prelude.{ℕ, suc, ◌<◌, ◌≡◌, refl, ◌∙◌, true, some, List, ◌++◌, length}
use distributed_systems.Mr.Worker.{Status}
use distributed_systems.Mr.Transport.{told}
use distributed_systems.Mr.Transport.Wire.{Tcp, Serde, read_frame}
use distributed_systems.Mr.Transport.Wire.Frames.{
  IsTcp, IsSerde, frame, read_frame_lem, send_message_arrives, cut_frame_yields_nothing,
}
use distributed_systems.Mr.Transport.Socket.{
  Listeners, CompletionMessage, SocketStatusSender, SocketWorkerSynchronization, answered,
  message_of, result_of, send, wait_next,
}

result_of-message_of :
    (sender : SocketStatusSender) (status : Status)
    → result_of (message_of sender status) ≡ told sender.worker_id status
unfolding result_of message_of
result_of-message_of sender (Status.ok id) = refl
result_of-message_of sender Status.err = refl

module _ {W L C : Type 0} (tcp : Tcp W C) (sockets : Listeners W L C)
    (json : Serde CompletionMessage) (unread : W → C → List ℕ) (laws : IsTcp tcp unread) where
  -- A status that a worker sends is what the executor is told: when the send reports success and its
  -- connection is the next to arrive, `wait_next` answers with the result that was sent, and with the
  -- sender's slot for a failure. The stream of bytes is that of `IsTcp`, serde reads what it writes,
  -- and no message is longer than 2^32 - 1 bytes.
  pub status_round_trip :
      IsSerde json
      → ((m : CompletionMessage) (bytes : List ℕ)
          → json.to_vec m ≡ some bytes
          → length bytes < 4294967296)
      → (w : W) (sender : SocketStatusSender) (status : Status) (c : C)
        (s : SocketWorkerSynchronization L) (id fuel : ℕ)
      → let w' = (send tcp sockets json w sender status).0 in
        (send tcp sockets json w sender status).1 ≡ true
        → (tcp.connect w sender.port).1 ≡ some c
        → (sockets.next w' s.listeners).1 ≡ some (id, some c)
        → unread ((sockets.next w' s.listeners).0) c ≡ unread w' c
        → (w2 : W) × (wait_next tcp sockets json (suc fuel) w' s
            ≡ answered w2 (some (told sender.worker_id status)))
  unfolding send wait_next
  status_round_trip reads small w sender status c s id fuel sent connects arrives kept =
      let m = message_of sender status in
      let (bytes, writes, there) =
        send_message_arrives tcp json unread laws w sender.port m c sent connects in
      let w' = (send tcp sockets json w sender status).0 in
      let w1 = (sockets.next w' s.listeners).0 in
      let got : (read_frame tcp json w1 c).1 ≡ some m =
        read_frame_lem tcp json unread laws w1 c bytes _ (small m bytes writes) (kept ∙ there)
        ∙ reads m bytes writes in
      (
        tcp.drop_stream ((read_frame tcp json w1 c).0) c,
        rw (arrives, wait_next) (rw got (rw (result_of-message_of sender status) refl)),
      )

  -- A connection that is closed before its message is whole is skipped.
  pub cut_status_is_skipped :
      (w : W) (c : C) (s : SocketWorkerSynchronization L) (id fuel : ℕ) (bytes missing : List ℕ)
      → let w1 = (sockets.next w s.listeners).0 in
        (sockets.next w s.listeners).1 ≡ some (id, some c)
        → length bytes < 4294967296
        → unread w1 c ++ missing ≡ frame bytes
        → 0 < length missing
        → wait_next tcp sockets json (suc fuel) w s
          ≡ wait_next tcp sockets json fuel (tcp.drop_stream ((read_frame tcp json w1 c).0) c) s
  unfolding wait_next
  cut_status_is_skipped w c s id fuel bytes missing arrives small cut lost =
      let w1 = (sockets.next w s.listeners).0 in
      let nothing =
        cut_frame_yields_nothing tcp json unread laws w1 c bytes missing small cut lost in
      rw (arrives, wait_next) (rw nothing refl)
