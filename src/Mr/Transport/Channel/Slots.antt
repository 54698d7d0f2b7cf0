-- ===== src/Mr/Transport/Channel/Slots.antt =====
-- The channels of the slots: which sender belongs to which stream, and what a reset leaves of them.
use mathlib.Core.List.{nil≢cons}
use distributed_systems.Prelude.{
  some-inj, ℕ, zero, suc, ◌+◌, ◌≡◌, ◌≢◌, refl, sym, ap, ◌∙◌, Option, none, some, List, [], ◌∷◌,
  ◌++◌, length, get_elem?, Result, nat_eq, ◌==◌, if_==, if◌then◌else◌, arith, Option-cases, inl,
  inr, Ends, length-append,
}
use distributed_systems.Prelude.HashMap
use distributed_systems.Mr.Worker.{Status}
use distributed_systems.Mr.Transport.{Mpsc, told}
use distributed_systems.Mr.Transport.Channel.{
  Streams, ChannelWorkerSynchronization, set_elem?, get_status_sender, result_of, add_slots, setup,
  reset_worker, wait_next, drain_slot,
}

module _ {A : Type 0} where
  get_elem?-append :
      (xs : List A) (a : A) (j : ℕ)
      → get_elem? (xs ++ a ∷ []) j ≡ (if length xs == j then some a else get_elem? xs j)
  get_elem?-append [] a zero = refl
  get_elem?-append [] a (suc j) = ground arith
  get_elem?-append (x ∷ xs) a zero = ground arith
  get_elem?-append (x ∷ xs) a (suc j) = ground (arith, get_elem?-append xs a j)

  -- `ys` is `xs` with `a` at `i`.
  abbrev IsUpdate : List A → ℕ → A → List A → Type 0
  IsUpdate xs i a ys = (j : ℕ) → get_elem? ys j ≡ (if i == j then some a else get_elem? xs j)

  set_here : (x a : A) (xs : List A) → IsUpdate (x ∷ xs) 0 a (a ∷ xs)
  set_here x a xs zero = refl
  set_here x a xs (suc j) = ground arith

  set_later :
      (x a : A) (xs ys : List A) (i : ℕ) → IsUpdate xs i a ys → IsUpdate (x ∷ xs) (suc i) a (x ∷ ys)
  set_later x a xs ys i h zero = ground arith
  set_later x a xs ys i h (suc j) = ground (arith, h j)

  set_elem?-IsUpdate : (xs : List A) (i : ℕ) (a : A) → Ends (IsUpdate xs i a) (set_elem? xs i a)
  unfolding set_elem?
  set_elem?-IsUpdate [] i a = tt
  set_elem?-IsUpdate (x ∷ xs) zero a = set_here x a xs
  set_elem?-IsUpdate (x ∷ xs) (suc i) a = elim (Option-cases (set_elem? xs i a)) [
    | inl fails ↦ rw (fails, set_elem?) tt
    | inr (ys, works) ↦
        rw (works, set_elem?) (set_later x a xs ys i (rw works at (set_elem?-IsUpdate xs i a)))
  ]

pub result_of-told : (slot : ℕ) (msg : Status) → result_of slot msg ≡ told slot msg
unfolding result_of
result_of-told slot (Status.ok id) = refl
result_of-told slot Status.err = refl

module _ {W Tx Rx : Type 0} (mpsc : Mpsc W Tx Rx Status) (streams : Streams W Rx Status)
    (peer : Tx → Rx) (queued : W → Rx → List Status) where
  -- A new channel is empty, and its two ends belong together.
  pub record IsMpsc : Type 0 where
    pub channel_peer : (w : W) (n : ℕ) → peer ((mpsc.channel w n).1) ≡ (mpsc.channel w n).2
    pub channel_empty : (w : W) (n : ℕ) → queued ((mpsc.channel w n).0) ((mpsc.channel w n).2) ≡ []
    -- What a `StreamMap` yields is the first message that waits in one of its streams.
    pub next_waits :
        (w : W) (m : HashMap.HashMap ℕ Rx) (id : ℕ) (msg : Status)
        → (streams.next w m).1 ≡ some (id, msg)
        → (rx : Rx) × (rest : List Status) × (HashMap.get m id ≡ some rx)
          × (queued w rx ≡ msg ∷ rest)

  abbrev ends : Option Tx → Option Rx
  ends none = none
  ends (some tx) = some (peer tx)

  -- Every slot's stream is the other end of its sender.
  abbrev pub IsPaired : ChannelWorkerSynchronization Tx Rx → Type 0
  IsPaired s = (j : ℕ) → HashMap.get s.completion_streams j ≡ ends (get_elem? s.completion_txs j)

  -- What the executor is told by a status that waits in the stream of a slot: a failure names the
  -- slot, whoever sent it.
  abbrev pub Tells : W → ChannelWorkerSynchronization Tx Rx → ℕ → Result ℕ ℕ → Type 0
  Tells w s slot result =
      (rx : Rx) × (msg : Status) × (rest : List Status) × (HashMap.get s.completion_streams slot
        ≡ some rx)
      × (queued w rx ≡ msg ∷ rest)
      × (result ≡ told slot msg)

  module _ (laws : IsMpsc) where
    add_slots-IsPaired :
        (n i : ℕ) (w : W) (s : ChannelWorkerSynchronization Tx Rx)
        → IsPaired s
        → length s.completion_txs ≡ i
        → IsPaired ((add_slots mpsc streams n i w s).1)
          × (length (((add_slots mpsc streams n i w s).1).completion_txs) ≡ i + n)
    unfolding add_slots
    add_slots-IsPaired zero i w s paired len = (paired, omega (arith, len))
    add_slots-IsPaired (suc n) i w s paired len =
        let tx = (mpsc.channel w 10).1 in
        let rx = (mpsc.channel w 10).2 in
        let (h, k) =
          add_slots-IsPaired n (i + 1) ((mpsc.channel w 10).0)
            (record {
              completion_txs = s.completion_txs ++ tx ∷ [];
              completion_streams = HashMap.insert s.completion_streams i rx;
            })
            (λ j. ground (
              arith,
              HashMap.get-insert s.completion_streams i j rx,
              get_elem?-append s.completion_txs tx j,
              laws.channel_peer w 10,
              paired j,
              len,
            ))
            (omega (arith, length-append s.completion_txs (tx ∷ []), len)) in
        (h, omega (arith, k))

    -- `setup` gives each worker a sender whose other end is the stream of its slot, and no more.
    pub setup-IsPaired :
        (w : W) (n : ℕ)
        → IsPaired ((setup mpsc streams w n).1)
          × (length (((setup mpsc streams w n).1).completion_txs) ≡ n)
    unfolding setup HashMap.get
    setup-IsPaired w n =
        let (paired, len) =
          add_slots-IsPaired n 0 w (record { completion_txs = []; completion_streams = [] })
            (λ j. refl) refl in
        (paired, omega (arith, len))

    -- `s1` is `s` but for a new channel in slot `i`, where nothing waits; `tx` is its sender.
    pub record Replaced (s : ChannelWorkerSynchronization Tx Rx) (i : ℕ) (w1 : W)
        (s1 : ChannelWorkerSynchronization Tx Rx) (tx : Tx) : Type 0 where
      pub paired : IsPaired s1
      pub nothing_waits : queued w1 (peer tx) ≡ []
      pub streams_at :
          (j : ℕ)
          → HashMap.get s1.completion_streams j
            ≡ (if i == j then some (peer tx) else HashMap.get s.completion_streams j)
      pub senders_at :
          (j : ℕ) → get_status_sender s1 j ≡ (if i == j then some tx else get_status_sender s j)

    new_channel-Replaced :
        (s : ChannelWorkerSynchronization Tx Rx) (i : ℕ) (v : W) (txs : List Tx)
        → IsPaired s
        → let (v', tx, rx) = mpsc.channel v 10 in
          IsUpdate s.completion_txs i tx txs
          → Replaced s i v'
              (record {
                completion_txs = txs;
                completion_streams = HashMap.insert (HashMap.remove s.completion_streams i) i rx;
              })
              tx
    unfolding get_status_sender
    new_channel-Replaced s i v txs paired update =
        let tx = (mpsc.channel v 10).1 in
        let rx = (mpsc.channel v 10).2 in
        let peers = laws.channel_peer v 10 in
        let removed = HashMap.get-remove s.completion_streams i in
        let inserted =
          λ (j : ℕ). HashMap.get-insert (HashMap.remove s.completion_streams i) i j rx in
        record {
          paired = λ j. ground (arith, inserted j, removed j, update j, peers, paired j);
          nothing_waits = rw peers (laws.channel_empty v 10);
          streams_at = λ j. ground (arith, inserted j, removed j, peers);
          senders_at = update;
        }

    reset_worker-Ends :
        (fuel i : ℕ) (w : W) (s : ChannelWorkerSynchronization Tx Rx)
        → IsPaired s
        → Ends (λ (w1, s1, tx). Replaced s i w1 s1 tx) (reset_worker mpsc streams fuel w s i)
    unfolding reset_worker
    reset_worker-Ends fuel i w s paired =
        let v = drain_slot mpsc streams fuel w s i in
        let tx = (mpsc.channel v 10).1 in
        elim (Option-cases (set_elem? s.completion_txs i tx)) [
          | inl fails ↦ rw (fails, reset_worker) tt
          | inr (txs, works) ↦
              let h =
                new_channel-Replaced s i v txs paired
                  (rw works at (set_elem?-IsUpdate s.completion_txs i tx)) in
              rw (works, reset_worker) (rw (h.senders_at i ∙ if_== i _ _) h)
        ]

    -- A reset gives the worker's slot a channel of its own, of which it returns the sender and in
    -- which nothing waits, and leaves the other slots as they are.
    pub reset_worker_replaces :
        (fuel i : ℕ) (w w1 : W) (s s1 : ChannelWorkerSynchronization Tx Rx) (tx : Tx)
        → IsPaired s
        → reset_worker mpsc streams fuel w s i ≡ some (w1, s1, tx)
        → Replaced s i w1 s1 tx
    reset_worker_replaces fuel i w w1 s s1 tx paired done =
        rw done at (reset_worker-Ends fuel i w s paired)

    -- After a reset the executor is not told what the replaced worker had sent: an answer comes from
    -- a message that waits in the stream of another slot.
    pub no_answer_of_replaced_worker :
        (fuel i : ℕ) (w w1 : W) (s s1 : ChannelWorkerSynchronization Tx Rx) (tx : Tx)
        (result : Result ℕ ℕ)
        → IsPaired s
        → reset_worker mpsc streams fuel w s i ≡ some (w1, s1, tx)
        → (wait_next mpsc streams w1 s1).1 ≡ some result
        → (j : ℕ) × (i ≢ j) × Tells w1 s1 j result
    unfolding wait_next result_of
    no_answer_of_replaced_worker fuel i w w1 s s1 tx result paired done answers =
        let h = reset_worker_replaces fuel i w w1 s s1 tx paired done in
        elim (Option-cases ((streams.next w1 s1.completion_streams).1)) [
          | inl nothing ↦ absurd (ground (arith, rw (nothing, wait_next) at answers))
          | inr ((j, msg), comes) ↦
              let (rx, rest, at, waits) = laws.next_waits w1 s1.completion_streams j msg comes in
              let told_it = rw (comes, wait_next) at answers in
              (
                j,
                (λ same.
                    let one : rx ≡ peer tx = some-inj rx (peer tx) (
                      sym at
                      ∙ ap (HashMap.get s1.completion_streams) (sym same)
                      ∙ h.streams_at i
                      ∙ if_== i _ _) in
                    nil≢cons (sym h.nothing_waits ∙ ap (queued w1) (sym one) ∙ waits)),
                (
                  rx,
                  msg,
                  rest,
                  at,
                  waits,
                  sym (some-inj (result_of j msg) result told_it) ∙ result_of-told j msg,
                ),
              )
        ]
