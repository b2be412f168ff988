-- ===== src/CpClient/Contracts.antt =====
-- The contract numbers that src/polara/broker/cp_client.py asks the gateway for.
use polara_quant.Base.{
  ℕ, ◌≡◌, ◌≢◌, refl, sym, inl, inr, String, some, List, [], ◌∷◌, arith, string_eq, Option-cases, ap,
  ◌∙◌, Bool-cases,
}
use polara_quant.Base.Dict.{lookup, insert, lookup-insert_self, lookup-insert_ne}
use polara_quant.Base.Effects.{Result, ok, err, Result-cases}
use polara_quant.Broker.{Payload}
use polara_quant.CpClient.{
  CpClient, Wire, keep_alive, start, stop, search_conid, get_conid, account_summary, positions,
  place_orders, cancel_order, list_orders,
}

-- A call of the client, with what the gateway answers meanwhile.
pub data Call (D : Type 0) : Type 0 where
  starts alives summaries holdings polls : Wire D → Call D
  stops : Call D
  asks : Wire D → String → Call D
  places : Wire D → List (Payload D) → Call D
  cancels : Wire D → ℕ → Call D

-- What a search for a contract keeps of its answer.
abbrev Searched : String → CpClient → Result ℕ × CpClient → Type 0
Searched symbol s (ok conid, t) = t.conid_cache ≡ insert symbol conid s.conid_cache
Searched symbol s (err e, t) = t.conid_cache ≡ s.conid_cache

module _ {D : Type 0} where
  -- The state that a call leaves, whether it has raised or not.
  unfoldable pub after : Call D → CpClient → CpClient
  unfolding start stop keep_alive account_summary positions list_orders place_orders cancel_order
      get_conid
  after (starts w) s = (start w s).1
  after (alives w) s = (keep_alive w s).1
  after (summaries w) s = (account_summary w s).1
  after (holdings w) s = (positions w s).1
  after (polls w) s = (list_orders w s).1
  after stops s = (stop s).1
  after (asks w symbol) s = (get_conid w symbol s).1
  after (places w payloads) s = (place_orders w payloads s).1
  after (cancels w ib_order_id) s = (cancel_order w ib_order_id s).1

  unfoldable pub run : List (Call D) → CpClient → CpClient
  run [] s = s
  run (c ∷ calls) s = run calls (after c s)

  start-cache : (w : Wire D) (s : CpClient) → (start w s).1.conid_cache ≡ s.conid_cache
  unfolding start
  start-cache w s = ground arith

  place_orders-cache :
      (w : Wire D) (payloads : List (Payload D)) (s : CpClient)
      → (place_orders w payloads s).1.conid_cache ≡ s.conid_cache
  unfolding place_orders
  place_orders-cache w payloads s = ground arith

  keep_alive-cache : (w : Wire D) (s : CpClient) → (keep_alive w s).1.conid_cache ≡ s.conid_cache
  unfolding keep_alive
  keep_alive-cache w s = ground arith

  search_conid-Searched :
      (w : Wire D) (symbol : String) (s : CpClient) → Searched symbol s (search_conid w symbol s)
  unfolding search_conid
  search_conid-Searched w symbol s = elim (Bool-cases s.http) [
    | inr h ↦ rw h refl
    | inl h ↦ elim (Result-cases (w.secdef_search symbol)) [
      | inl (e, p) ↦ rw (h, p) refl
      | inr ([], p) ↦ rw (h, p) refl
      | inr (conid ∷ results, p) ↦ elim (Result-cases conid) [
        | inl (e, q) ↦ rw (h, p, q) refl
        | inr (n, q) ↦ rw (h, p, q) refl
      ]
    ]
  ]

  search_conid-keeps :
      (w : Wire D) (symbol other : String) (s : CpClient) (conid : ℕ)
      → symbol ≢ other
      → lookup other s.conid_cache ≡ some conid
      → lookup other (search_conid w symbol s).1.conid_cache ≡ some conid
  search_conid-keeps w symbol other s conid ne known =
      go (search_conid w symbol s) (search_conid-Searched w symbol s)
    where
      go :
          (r : Result ℕ × CpClient)
          → Searched symbol s r
          → lookup other r.1.conid_cache ≡ some conid
      go (ok n, t) e =
          ap (lookup other) e ∙ (lookup-insert_ne symbol other n s.conid_cache ne ∙ known)
      go (err x, t) e = ap (lookup other) e ∙ known

  get_conid-keeps :
      (w : Wire D) (symbol other : String) (s : CpClient) (conid : ℕ)
      → lookup other s.conid_cache ≡ some conid
      → lookup other (get_conid w symbol s).1.conid_cache ≡ some conid
  unfolding get_conid
  get_conid-keeps w symbol other s conid known = elim (Option-cases (lookup symbol s.conid_cache)) [
    | inl new ↦ rw new (
        search_conid-keeps w symbol other s conid
          (λ e. cc (ap (λ (x : String). lookup x s.conid_cache) e, new, known)) known)
    | inr (n, old) ↦ rw old known
  ]

  after-keeps :
      (c : Call D) (symbol : String) (conid : ℕ) (s : CpClient)
      → lookup symbol s.conid_cache ≡ some conid
      → lookup symbol (after c s).conid_cache ≡ some conid
  unfolding after
  after-keeps (starts w) symbol conid s known = ap (lookup symbol) (start-cache w s) ∙ known
  after-keeps (alives w) symbol conid s known = ap (lookup symbol) (keep_alive-cache w s) ∙ known
  after-keeps (summaries w) symbol conid s known = ground (arith, known)
  after-keeps (holdings w) symbol conid s known = ground (arith, known)
  after-keeps (polls w) symbol conid s known = ground (arith, known)
  after-keeps stops symbol conid s known = known
  after-keeps (asks w other) symbol conid s known = get_conid-keeps w other symbol s conid known
  after-keeps (places w payloads) symbol conid s known =
      ap (lookup symbol) (place_orders-cache w payloads s) ∙ known
  after-keeps (cancels w number) symbol conid s known = ground (arith, known)

  run-keeps :
      (calls : List (Call D)) (symbol : String) (conid : ℕ) (s : CpClient)
      → lookup symbol s.conid_cache ≡ some conid
      → lookup symbol (run calls s).conid_cache ≡ some conid
  unfolding run
  run-keeps [] symbol conid s known = known
  run-keeps (c ∷ calls) symbol conid s known =
      run-keeps calls symbol conid (after c s) (after-keeps c symbol conid s known)

  get_conid-known :
      (w : Wire D) (symbol : String) (s t : CpClient) (conid : ℕ)
      → get_conid w symbol s ≡ (ok conid, t)
      → lookup symbol t.conid_cache ≡ some conid
  unfolding get_conid
  get_conid-known w symbol s t conid h = elim (Option-cases (lookup symbol s.conid_cache)) [
    | inl new ↦ go (search_conid w symbol s) refl (search_conid-Searched w symbol s) (rw new at h)
    | inr (n, old) ↦
        let e : (ok n, s) ≡ (ok conid, t) = rw old at h in
        cc (e, old, ap (λ (r : Result ℕ × CpClient). r.1) e)
  ]
    where
      go :
          (r : Result ℕ × CpClient)
          → search_conid w symbol s ≡ r
          → Searched symbol s r
          → search_conid w symbol s ≡ (ok conid, t)
          → lookup symbol t.conid_cache ≡ some conid
      go (ok n, u) e found h =
          let q : (ok n, u) ≡ (ok conid, t) = sym e ∙ h in
          cc (
            found,
            lookup-insert_self symbol n s.conid_cache,
            ap (λ (r : Result ℕ × CpClient). r.1.conid_cache) q,
            ap (λ (r : Result ℕ × CpClient). r.0) q,
          )
      go (err x, u) e found h = cc

  -- Once `get_conid` has answered for a symbol, it gives the same answer after any later calls, whatever
  -- the gateway answers and also without a session, and sends nothing for it.
  pub get_conid_once :
      (w later : Wire D) (calls : List (Call D)) (symbol : String) (conid : ℕ) (s t : CpClient)
      → get_conid w symbol s ≡ (ok conid, t)
      → get_conid later symbol (run calls t) ≡ (ok conid, run calls t)
  unfolding get_conid
  get_conid_once w later calls symbol conid s t h =
      rw (run-keeps calls symbol conid t (get_conid-known w symbol s t conid h), get_conid)
