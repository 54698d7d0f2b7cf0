-- ===== src/Mr/Grpc/Store/Effects.antt =====
-- What the calls of the state store do to the server's store.
use distributed_systems.Prelude.{
  Option-cases, ℕ, ◌≡◌, refl, ◌∙◌, ◌⊎◌, inl, inr, true, Option, none, List, [], ◌∷◌, Text, text_beq,
  text_beq_iff, arith, text_eq, Bool-cases, sym, ap,
}
use distributed_systems.Mr.StateStore.{StateStore, IsStore}
use distributed_systems.Mr.WordSearch.{sum_i32}
use distributed_systems.Mr.Grpc.{Fate, Network, call}
use distributed_systems.Mr.Grpc.Store.{
  Remote, network_of, serve_initialize, serve_update, serve_replace, serve_get, get_client,
  on_client, initialize, update, replace, get, grpc,
}

-- A network on which every connection is made and every call is answered.
pub record IsReliable {N : Type 0} (net : Network N) : Type 0 where
  pub connects : (n : N) → (net.connect n).1 ≡ true
  pub answers : (n : N) → (net.fate n).1 ≡ Fate.answered

module _ {N S : Type 0} (net : Network N) (st : StateStore S) where
  -- The server has carried out the request once or not at all.
  abbrev pub AtMostOnce : (S → S) → S → S → Type 0
  AtMostOnce f s s' = (s' ≡ s) ⊎ (s' ≡ f s)

  call-AtMostOnce :
      {Resp : Type 0} (handler : Remote N S → Remote N S × Option Resp) (f : S → S)
      → ((r : Remote N S) → ((handler r).0).state ≡ f r.state)
      → (r : Remote N S) → AtMostOnce f r.state (((call (network_of net st) handler r).0).state)
  unfolding call
  call-AtMostOnce handler f does r = go ((net.fate r.network).1) refl
    where
      go :
          (fate : Fate)
          → (net.fate r.network).1 ≡ fate
          → AtMostOnce f r.state (((call (network_of net st) handler r).0).state)
      go Fate.lost e = rw (e, call) (inl refl)
      go Fate.unanswered e = rw (e, call) (inr (does _))
      go Fate.answered e = rw (e, call) (inr (does _))

  get_client-state : (r : Remote N S) → ((get_client net st r).0).state ≡ r.state
  unfolding get_client
  get_client-state r = elim (Bool-cases r.has_client) [
    | inl has ↦ rw (has, get_client) refl
    | inr new ↦ rw (new, get_client) refl
  ]

  on_client-AtMostOnce :
      {Resp : Type 0} (handler : Remote N S → Remote N S × Option Resp) (f : S → S)
      → ((r : Remote N S) → ((handler r).0).state ≡ f r.state)
      → (r : Remote N S) → AtMostOnce f r.state (((on_client net st handler r).0).state)
  unfolding on_client
  on_client-AtMostOnce handler f does r = elim (Bool-cases ((get_client net st r).1)) [
    | inr fails ↦ rw (fails, on_client) (inl (get_client-state r))
    | inl connects ↦
        rw (connects, on_client)
          (rw (get_client-state r) at (call-AtMostOnce handler f does ((get_client net st r).0)))
  ]

  -- Whatever the network does, a call to change the store changes it as asked or leaves it as it was,
  -- and a call to read it leaves it as it was.
  pub calls-AtMostOnce :
      (r : Remote N S) (keys : List Text) (key : Text) (value : ℕ)
      → AtMostOnce (λ s. st.initialize s keys) r.state ((initialize net st r keys).state)
        × AtMostOnce (λ s. st.update s key value) r.state ((update net st r key value).state)
        × AtMostOnce (λ s. st.replace s key value) r.state ((replace net st r key value).state)
        × (((get net st r key).0).state ≡ r.state)
  unfolding initialize update replace get serve_initialize serve_update serve_replace serve_get
  calls-AtMostOnce r keys key value = (
    on_client-AtMostOnce (serve_initialize net st keys) (λ s. st.initialize s keys) (λ v. refl) r,
    on_client-AtMostOnce (serve_update net st key value) (λ s. st.update s key value) (λ v. refl) r,
    on_client-AtMostOnce (serve_replace net st key value) (λ s. st.replace s key value) (λ v. refl)
        r,
    (let kept = on_client-AtMostOnce (serve_get net st key) (λ s. s) (λ v. refl) r in
        let same : ((on_client net st (serve_get net st key) r).0).state ≡ r.state = elim kept [
          | inl e ↦ e
          | inr e ↦ e
        ] in
        elim (Option-cases ((on_client net st (serve_get net st key) r).1)) [
          | inl fails ↦ rw (fails, get) same
          | inr (values, works) ↦ rw (works, get) same
        ]),
  )

  module _ {Resp : Type 0} (handler : Remote N S → Remote N S × Option Resp) (r : Remote N S) where
    -- the state in which the handler runs, or the caller goes on
    abbrev sent : Remote N S
    sent = record r { network = (net.fate r.network).0 }

    call-answered :
        (net.fate r.network).1 ≡ Fate.answered → call (network_of net st) handler r ≡ handler sent
    unfolding call
    call-answered e = rw (e, call) refl

    call-lost :
        (net.fate r.network).1 ≡ Fate.lost → call (network_of net st) handler r ≡ (sent, none)
    unfolding call
    call-lost e = rw (e, call) refl

    on_client_lem :
        (r1 : Remote N S)
        → get_client net st r ≡ (r1, true)
        → on_client net st handler r ≡ call (network_of net st) handler r1
    unfolding on_client
    on_client_lem r1 e =
        rw (ap (λ p. p.1) e, on_client) (ap (λ p. call (network_of net st) handler (p.0)) e)

  had_client : (r : Remote N S) → r.has_client ≡ true → get_client net st r ≡ (r, true)
  unfolding get_client
  had_client r has = rw (has, get_client) (ap (λ b. (record r { has_client = b }, true)) has)

  module _ (reliable : IsReliable net) where
    on_client-reliable :
        {Resp : Type 0} (handler : Remote N S → Remote N S × Option Resp) (r : Remote N S)
        → (r' : Remote N S) × (r'.state ≡ r.state) × (on_client net st handler r ≡ handler r')
    unfolding on_client call get_client
    on_client-reliable handler r = elim (Bool-cases r.has_client) [
      | inl has ↦ (
        sent handler r,
        refl,
        on_client_lem handler r r (had_client r has)
            ∙ call-answered handler r (reliable.answers r.network),
      )
      | inr new ↦
          let r1 : Remote N S = record r {
            network = (net.connect r.network).0;
            has_client = (net.connect r.network).1;
          } in
          (
            sent handler r1,
            refl,
            on_client_lem handler r r1
                  (rw (new, get_client) (ap (λ b. (r1, b)) (reliable.connects r.network)))
                ∙ call-answered handler r1 (reliable.answers r1.network),
          )
    ]

    update-state :
        (r : Remote N S) (k : Text) (v : ℕ) → (update net st r k v).state ≡ st.update r.state k v
    unfolding update serve_update
    update-state r k v =
        let (r', same, does) = on_client-reliable (serve_update net st k v) r in
        ap (λ p. (p.0).state) does ∙ ap (λ s. st.update s k v) same

    replace-state :
        (r : Remote N S) (k : Text) (v : ℕ) → (replace net st r k v).state ≡ st.replace r.state k v
    unfolding replace serve_replace
    replace-state r k v =
        let (r', same, does) = on_client-reliable (serve_replace net st k v) r in
        ap (λ p. (p.0).state) does ∙ ap (λ s. st.replace s k v) same

    initialize-state :
        (r : Remote N S) (ks : List Text)
        → (initialize net st r ks).state ≡ st.initialize r.state ks
    unfolding initialize serve_initialize
    initialize-state r ks =
        let (r', same, does) = on_client-reliable (serve_initialize net st ks) r in
        ap (λ p. (p.0).state) does ∙ ap (λ s. st.initialize s ks) same

    get-state : (r : Remote N S) (k : Text) → (get net st r k).1 ≡ st.get r.state k
    unfolding get serve_get
    get-state r k =
        let (r', same, does) = on_client-reliable (serve_get net st k) r in
        rw (ap (λ p. p.1) does, get) (ap (λ s. st.get s k) same)

    -- On a network that answers every call the client is a state store, when the server's is.
    pub grpc-IsStore : IsStore st → IsStore (grpc net st)
    unfolding grpc
    grpc-IsStore laws = record {
      get-initialize = λ r ks j.
          get-state (initialize net st r ks) j
          ∙ ap (λ s. st.get s j) (initialize-state r ks)
          ∙ laws.get-initialize r.state ks j
          ∙ sym (get-state r j);
      get-update = λ r k v j.
          get-state (update net st r k v) j
          ∙ ap (λ s. st.get s j) (update-state r k v)
          ∙ laws.get-update r.state k v j
          ∙ rw (get-state r k, get-state r j) refl;
      get-replace = λ r k v j.
          get-state (replace net st r k v) j
          ∙ ap (λ s. st.get s j) (replace-state r k v)
          ∙ laws.get-replace r.state k v j
          ∙ rw (get-state r j) refl;
    }

  -- What `reduce_work` does with a key when the request of its `get` is lost and its `replace` is
  -- answered: the key's counts are lost, and its value is 0.
  pub lost_get_zeroes_count :
      IsStore st
      → (r : Remote N S) (key : Text) → r.has_client ≡ true
      → (net.fate r.network).1 ≡ Fate.lost
      → (net.fate ((net.fate r.network).0)).1 ≡ Fate.answered
      → let (r1, values) = get net st r key in
        st.get ((replace net st r1 key (sum_i32 values 0)).state) key ≡ 0 ∷ []
  unfolding get replace on_client call get_client serve_get serve_replace sum_i32
  lost_get_zeroes_count laws r key has loses answers =
      let same : text_beq key key ≡ true = ground (arith, text_beq_iff key key) in
      let r1 : Remote N S = record r { network = (net.fate r.network).0 } in
      let lost =
        on_client_lem (serve_get net st key) r r (had_client r has)
        ∙ call-lost (serve_get net st key) r loses in
      let fails : get net st r key ≡ (r1, []) =
        rw (ap (λ p. p.1) lost, get) (ap (λ p. (p.0, [])) lost) in
      let r2 : Remote N S = record {
        network = (net.fate r1.network).0;
        has_client = r.has_client;
        state = st.replace r.state key 0;
      } in
      let zeroes : replace net st r1 key 0 ≡ r2 =
        ap (λ p. p.0)
          (on_client_lem (serve_replace net st key 0) r1 r1 (had_client r1 has)
            ∙ call-answered (serve_replace net st key 0) r1 answers) in
      rw fails (rw zeroes (laws.get-replace r.state key 0 key ∙ rw same refl))
