-- ===== src/Mr/Transport/Wire/Frames.antt =====
-- Frames on a connection, for Mr/Transport/Wire.antt.
use mathlib.Core.List.{head-eq_of_cons-eq, tail-eq_of_cons-eq}
use distributed_systems.Prelude.{
  ltb, ◌≤◌, ℕ, ◌<◌, ◌≡◌, refl, sym, ◌∙◌, true, none, some, List, [], ◌∷◌, ◌++◌, length,
  length-append, append_assoc, append-nil, u32, arith, Bool-cases, Option-cases, inl, inr, ap,
}
use distributed_systems.Mr.Transport.Wire.{
  Tcp, Serde, to_be_bytes, from_be_bytes, write_frame, read_body, read_frame, send_message,
}

pub from_be_bytes-to_be_bytes : (n : ℕ) → n < 4294967296 → from_be_bytes (to_be_bytes n) ≡ n
unfolding from_be_bytes to_be_bytes
from_be_bytes-to_be_bytes n h = omega arith

-- A stream of bytes: `unread w c` are those written on the connection and not yet read. `read_exact`
-- takes the first ones; when the sender has closed the connection and there are fewer, it fails.
pub record IsTcp {W C : Type 0} (tcp : Tcp W C) (unread : W → C → List ℕ) : Type 0 where
  pub connect_empty :
      (w : W) (port : ℕ) (c : C)
      → (tcp.connect w port).1 ≡ some c
      → unread ((tcp.connect w port).0) c ≡ []
  pub write_all_adds :
      (w : W) (c : C) (bytes : List ℕ)
      → (tcp.write_all w c bytes).1 ≡ true
      → unread ((tcp.write_all w c bytes).0) c ≡ unread w c ++ bytes
  pub drop_keeps : (w : W) (c : C) → unread (tcp.drop_stream w c) c ≡ unread w c
  pub read_exact_takes :
      (w : W) (c : C) (first rest : List ℕ)
      → unread w c ≡ first ++ rest
      → ((tcp.read_exact w c (length first)).1 ≡ some first)
        × (unread ((tcp.read_exact w c (length first)).0) c ≡ rest)
  pub read_exact_short :
      (w : W) (c : C) (n : ℕ) → length (unread w c) < n → (tcp.read_exact w c n).1 ≡ none

-- serde reads what it has written.
abbrev pub IsSerde : {M : Type 0} → Serde M → Type 0
IsSerde {M} serde =
    (m : M) (bytes : List ℕ) → serde.to_vec m ≡ some bytes → serde.from_slice bytes ≡ some m

-- the bytes of a message
abbrev pub frame : List ℕ → List ℕ
frame bytes = to_be_bytes (u32 (length bytes)) ++ bytes

length-to_be_bytes : (n : ℕ) → length (to_be_bytes n) ≡ 4
unfolding to_be_bytes
length-to_be_bytes n = refl

-- A text that starts with the beginning of another one and is longer than it.
split_header {ℓ} :
    {A : Type ℓ} (part missing header bytes : List A)
    → part ++ missing ≡ header ++ bytes
    → length header ≤ length part
    → (rest : List A) × (part ≡ header ++ rest) × (rest ++ missing ≡ bytes)
split_header part missing [] bytes e h = (part, refl, e)
split_header [] missing (x ∷ header) bytes e h = absurd (omega arith)
split_header (y ∷ part) missing (x ∷ header) bytes e h =
    let (rest, e1, e2) =
      split_header part missing header bytes (tail-eq_of_cons-eq e) (omega arith) in
    (rest, cc (e1, head-eq_of_cons-eq e), e2)

module _ {W C M : Type 0} (tcp : Tcp W C) (serde : Serde M) (unread : W → C → List ℕ)
    (laws : IsTcp tcp unread) where
  read_body_lem :
      (w : W) (c : C) (bytes rest : List ℕ)
      → unread w c ≡ bytes ++ rest
      → (read_body tcp serde w c (length bytes)).1 ≡ serde.from_slice bytes
  unfolding read_body
  read_body_lem w c bytes rest h = rw ((laws.read_exact_takes w c bytes rest h).0, read_body) refl

  pub read_frame_lem :
      (w : W) (c : C) (bytes rest : List ℕ)
      → length bytes < 4294967296
      → unread w c ≡ frame bytes ++ rest
      → (read_frame tcp serde w c).1 ≡ serde.from_slice bytes
  unfolding read_frame
  read_frame_lem w c bytes rest small h =
      let header = to_be_bytes (u32 (length bytes)) in
      let (got, left) =
        laws.read_exact_takes w c header (bytes ++ rest) (h ∙ append_assoc header bytes rest) in
      let got4 : (tcp.read_exact w c 4).1 ≡ some header = unfold to_be_bytes in got in
      let left4 : unread ((tcp.read_exact w c 4).0) c ≡ bytes ++ rest =
        unfold to_be_bytes in left in
      let same : from_be_bytes header ≡ length bytes =
        from_be_bytes-to_be_bytes (u32 (length bytes)) (omega arith) ∙ omega arith in
      rw (got4, read_frame) (rw same (read_body_lem ((tcp.read_exact w c 4).0) c bytes rest left4))

  pub write_frame_lem :
      (w : W) (c : C) (bytes : List ℕ)
      → (write_frame tcp serde w c bytes).1 ≡ true
      → unread ((write_frame tcp serde w c bytes).0) c ≡ unread w c ++ frame bytes
  unfolding write_frame
  write_frame_lem w c bytes sent =
      let header = to_be_bytes (u32 (length bytes)) in
      elim (Bool-cases ((tcp.write_all w c header).1)) [
        | inr fails ↦ absurd (ground (arith, sent, fails))
        | inl wrote ↦
            let w1 = (tcp.write_all w c header).0 in
            let wrote_rest : (tcp.write_all w1 c bytes).1 ≡ true = rw wrote at sent in
            rw wrote (
              laws.write_all_adds w1 c bytes wrote_rest
              ∙ ap (λ l. l ++ bytes) (laws.write_all_adds w c header wrote)
              ∙ append_assoc (unread w c) header bytes)
      ]

  -- A frame of which only a part arrives before the connection is closed yields nothing.
  pub cut_frame_yields_nothing :
      (w : W) (c : C) (bytes missing : List ℕ)
      → length bytes < 4294967296
      → unread w c ++ missing ≡ frame bytes
      → 0 < length missing
      → (read_frame tcp serde w c).1 ≡ none
  unfolding read_frame
  cut_frame_yields_nothing w c bytes missing small cut lost =
      let header = to_be_bytes (u32 (length bytes)) in
      let w1 = (tcp.read_exact w c 4).0 in
      let four = length-to_be_bytes (u32 (length bytes)) in
      elim (Bool-cases (ltb (length (unread w c)) 4)) [
        | inl less ↦ rw (laws.read_exact_short w c 4 (ground (arith, less)), read_frame) refl
        | inr more ↦
            let (rest, whole, left) =
              split_header (unread w c) missing header bytes cut (ground (arith, more, four)) in
            let (got, then_left) = laws.read_exact_takes w c header rest whole in
            let got4 : (tcp.read_exact w c 4).1 ≡ some header = unfold to_be_bytes in got in
            let left4 : unread w1 c ≡ rest = unfold to_be_bytes in then_left in
            let same : from_be_bytes header ≡ length bytes =
              from_be_bytes-to_be_bytes (u32 (length bytes)) (omega arith) ∙ omega arith in
            let short : (tcp.read_exact w1 c (length bytes)).1 ≡ none =
              laws.read_exact_short w1 c (length bytes)
                (omega (arith, ap length left4, ap length left, length-append rest missing)) in
            rw (got4, read_frame) (rw same (rw (short, read_body) refl))
      ]

  -- What `SocketStatusSender::send` reports as sent stands on its connection.
  pub send_message_arrives :
      (w : W) (port : ℕ) (m : M) (c : C)
      → (send_message tcp serde w port m).1 ≡ true
      → (tcp.connect w port).1 ≡ some c
      → (bytes : List ℕ) × (serde.to_vec m ≡ some bytes)
        × (unread ((send_message tcp serde w port m).0) c ≡ frame bytes ++ [])
  unfolding send_message
  send_message_arrives w port m c sent connects = elim (Option-cases (serde.to_vec m)) [
    | inl fails ↦ absurd (ground (arith, rw (connects, send_message) at sent, fails))
    | inr (bytes, writes) ↦
        let w1 = (tcp.connect w port).0 in
        let w2 = (write_frame tcp serde w1 c bytes).0 in
        let wrote : (write_frame tcp serde w1 c bytes).1 ≡ true =
          rw (writes, write_frame) at (rw (connects, send_message) at sent) in
        let arrived : unread (tcp.drop_stream w2 c) c ≡ frame bytes ++ [] =
          laws.drop_keeps w2 c
          ∙ write_frame_lem w1 c bytes wrote
          ∙ ap (λ l. l ++ frame bytes) (laws.connect_empty w port c connects)
          ∙ sym (append-nil (frame bytes)) in
        (bytes, writes, rw (connects, send_message) (rw writes arrived))
  ]
