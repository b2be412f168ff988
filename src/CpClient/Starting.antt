-- ===== src/CpClient/Starting.antt =====
-- The start of the client, src/polara/broker/cp_client.py and client.py, and what becomes of a client whose
-- start has failed.
use polara_quant.Base.{
  ◌≡◌, refl, inl, inr, String, string_eq, Bool, true, false, none, List, [], ◌∷◌, arith, All,
  Option-cases, Bool-cases,
}
use polara_quant.Base.Dict.{lookup}
use polara_quant.Base.Effects.{Error, ok, err, Result-cases}
use polara_quant.CpClient.{
  CpClient, Wire, init, request, account_id_of, first_account, connected, stop, start, connect,
  search_conid, get_conid, account_summary, positions, place_orders, cancel_order, list_orders,
}
use polara_quant.CpClient.Contracts.{
  Call, starts, alives, summaries, holdings, polls, stops, asks, places, cancels, after, run,
}

-- The calls that the program makes of a client after its start; `_tickle_loop` is none of them.
abbrev pub is_request : {D : Type 0} → Call D → Bool
is_request (starts w) = false
is_request (alives w) = false
is_request c = true

-- No session and no task that could get one.
abbrev IsOut : CpClient → Type 0
IsOut s = (s.account_id ≡ none) × (s.tickle_task ≡ false)

module _ {D : Type 0} where
  start-IsOut : (w : Wire D) (e : Error) → (start w init).0 ≡ err e → IsOut (start w init).1
  unfolding start
  start-IsOut w e h = elim (Result-cases w.accounts) [
    | inl (x, p) ↦ rw p (refl, refl)
    | inr (rows, p) ↦ elim (Result-cases (first_account rows)) [
      | inl (x, q) ↦ rw (p, q) (refl, refl)
      | inr (a, q) ↦ absurd (cc (rw (p, q) at h))
    ]
  ]

  search_conid-IsOut :
      (w : Wire D) (symbol : String) (s : CpClient) → IsOut s → IsOut (search_conid w symbol s).1
  unfolding search_conid
  search_conid-IsOut w symbol s (out, task) = elim (Bool-cases s.http) [
    | inr h ↦ rw h (out, task)
    | inl h ↦ elim (Result-cases (w.secdef_search symbol)) [
      | inl (e, p) ↦ rw (h, p) (out, task)
      | inr ([], p) ↦ rw (h, p) (out, task)
      | inr (conid ∷ results, p) ↦ elim (Result-cases conid) [
        | inl (e, q) ↦ rw (h, p, q) (out, task)
        | inr (n, q) ↦ rw (h, p, q) (out, task)
      ]
    ]
  ]

  get_conid-IsOut :
      (w : Wire D) (symbol : String) (s : CpClient) → IsOut s → IsOut (get_conid w symbol s).1
  unfolding get_conid
  get_conid-IsOut w symbol s out = elim (Option-cases (lookup symbol s.conid_cache)) [
    | inl new ↦ rw new (search_conid-IsOut w symbol s out)
    | inr (n, old) ↦ rw old out
  ]

  after-IsOut : (c : Call D) (s : CpClient) → is_request c ≡ true → IsOut s → IsOut (after c s)
  unfolding after get_conid stop account_summary positions list_orders place_orders cancel_order
      request account_id_of
  after-IsOut (starts w) s r out = absurd (cc r)
  after-IsOut (alives w) s r out = absurd (cc r)
  after-IsOut (summaries w) s r (out, task) = rw out (refl, task)
  after-IsOut (holdings w) s r (out, task) = rw out (refl, task)
  after-IsOut (polls w) s r (out, task) = ground arith
  after-IsOut stops s r (out, task) = (refl, task)
  after-IsOut (asks w symbol) s r out = get_conid-IsOut w symbol s out
  after-IsOut (places w payloads) s r (out, task) = rw out (refl, task)
  after-IsOut (cancels w number) s r (out, task) = rw out (refl, task)

  run-IsOut :
      (calls : List (Call D)) (s : CpClient)
      → All (λ c. is_request c ≡ true) calls
      → IsOut s
      → IsOut (run calls s)
  unfolding run
  run-IsOut [] s rs out = out
  run-IsOut (c ∷ calls) s (r, rs) out = run-IsOut calls (after c s) rs (after-IsOut c s r out)

  -- Where the first start of a client raises, `connect` does not, and the client stays without a
  -- session, whatever it is asked and the gateway answers later, as long as it is not started again: no
  -- request looks for an account, and there is no task that does.
  pub failed_connect_lasts :
      (w : Wire D) (e : Error) (calls : List (Call D))
      → (start w init).0 ≡ err e
      → All (λ c. is_request c ≡ true) calls
      → ((connect w init).0 ≡ ok tt)
        × (connected (run calls (connect w init).1) ≡ false)
        × ((run calls (connect w init).1).tickle_task ≡ false)
  unfolding connect
  failed_connect_lasts w e calls h rs =
      let (out, task) = run-IsOut calls (start w init).1 rs (start-IsOut w e h) in
      (refl, rw out refl, task)
