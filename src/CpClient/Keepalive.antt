-- ===== src/CpClient/Keepalive.antt =====
-- The reconnection of src/polara/broker/cp_client.py, against a gateway that is away for a while.
use Prim.Native.Nat.{min}
use polara_quant.Base.{
  ℕ, zero, suc, ◌*◌, ◌<◌, ◌≡◌, refl, ◌⊎◌, inl, inr, String, true, false, Option, none, some, List,
  [], ◌∷◌, arith, length, ap, ◌∙◌, ◌++◌,
}
use polara_quant.Base.Effects.{Result, ok, err, Result-cases}
use polara_quant.CpClient.{
  CpClient, post_tickle, get_auth_status, Wire, Request, restore, reconnect_loop, next_delay,
  keep_alive, tickle_turn,
}

-- The client `t` has the session, the contracts and the task of `s`.
pub record Keeps (s t : CpClient) : Type 0 where
  pub session : t.http ≡ true
  pub contracts : t.conid_cache ≡ s.conid_cache
  pub task : t.tickle_task ≡ s.tickle_task

abbrev pub AreDelays : ℕ → List ℕ → Type 0
AreDelays delay [] = Unit {0}
AreDelays delay (x ∷ xs) = (x ≡ delay) × AreDelays (min (2 * delay) 120) xs

-- The loop has returned at attempt `k`, counted from zero, with the account `a`. The first attempt came
-- after `delay` seconds, each other one after twice as long as the one before, and none after more than
-- two minutes.
pub record Ends (k delay : ℕ) (a : String) (s : CpClient) (r : Option (List ℕ × CpClient))
    : Type 0 where
  pub delays : List ℕ
  pub after : CpClient
  pub returned : r ≡ some (delays, after)
  pub attempts : length delays ≡ suc k
  pub slept : AreDelays delay delays
  pub account : after.account_id ≡ some a
  pub kept : Keeps s after

next_delay-eq-min : (delay : ℕ) → next_delay delay ≡ min (2 * delay) 120
next_delay-eq-min delay = ground arith

module _ {D : Type 0} where
  -- The gateway takes the request to log in again and then lists an account first.
  pub record Lists (w : Wire D) (a : String) : Type 0 where
    pub others : List (Option String)
    pub taken : w.reauthenticate ≡ ok tt
    pub listed : w.accounts ≡ ok (some a ∷ others)

  abbrev pub Away : Wire D → Type 0
  Away w = (a : String) → Lists w a → ⊥

  -- What an attempt does.
  abbrev Tried : Wire D → CpClient → Result (Unit {0}) × CpClient → Type 0
  Tried w s (ok done, t) = (a : String) × Lists w a × (t.account_id ≡ some a) × Keeps s t
  Tried w s (err e, t) = Away w × Keeps s t

  restore-Tried : (w : Wire D) (s : CpClient) → s.http ≡ true → Tried w s (restore w s)
  unfolding restore
  restore-Tried w s h = elim (Result-cases w.reauthenticate) [
    | inl (e, p) ↦
        rw (h, p) (λ a l. cc (p, l.taken), record { session = refl; contracts = refl; task = refl })
    | inr (done, p) ↦ elim (Result-cases w.accounts) [
      | inl (e, q) ↦
          rw (h, p, q)
            (λ a l. cc (q, l.listed), record { session = refl; contracts = refl; task = refl })
      | inr ([], q) ↦
          rw (h, p, q)
            (λ a l. cc (q, l.listed), record { session = refl; contracts = refl; task = refl })
      | inr (none ∷ rows, q) ↦
          rw (h, p, q)
            (λ a l. cc (q, l.listed), record { session = refl; contracts = refl; task = refl })
      | inr (some a ∷ rows, q) ↦
          rw (h, p, q)
            (
              a,
              record { others = rows; taken = p; listed = q },
              refl,
              record { session = refl; contracts = refl; task = refl },
            )
    ]
  ]

  reconnect_loop-Ends :
      (k fuel : ℕ) (wires : ℕ → Wire D) (delay : ℕ) (s : CpClient) (a : String)
      → s.http ≡ true
      → ((j : ℕ) → j < k → Away (wires j))
      → Lists (wires k) a
      → k < fuel
      → Ends k delay a s (reconnect_loop fuel wires delay s)
  unfolding reconnect_loop
  reconnect_loop-Ends k zero wires delay s a h away lists enough = absurd (omega arith)
  reconnect_loop-Ends zero (suc fuel) wires delay s a h away lists enough =
      first (restore (wires zero) s) refl (restore-Tried (wires zero) s h)
    where
      first :
          (r : Result (Unit {0}) × CpClient)
          → restore (wires zero) s ≡ r
          → Tried (wires zero) s r
          → Ends zero delay a s (reconnect_loop (suc fuel) wires delay s)
      first (ok done, t) e (b, listed, account, kept) =
          rw (e, reconnect_loop)
            (record {
              delays = delay ∷ [];
              after = t;
              returned = ap (λ (r : Result (Unit {0}) × CpClient). some (delay ∷ [], r.1)) e;
              attempts = refl;
              slept = (refl, tt);
              account = cc (account, listed.listed, lists.listed);
              kept = kept;
            })
      first (err x, t) e (away', kept) = absurd (away' a lists)
  reconnect_loop-Ends (suc k) (suc fuel) wires delay s a h away lists enough =
      later (restore (wires zero) s) refl (restore-Tried (wires zero) s h) (λ t q.
        reconnect_loop-Ends k fuel (λ j. wires (suc j)) (next_delay delay) t a q
          (λ j l. away (suc j) (omega arith)) lists (omega arith))
    where
      rest : CpClient → Option (List ℕ × CpClient)
      rest t = reconnect_loop fuel (λ j. wires (suc j)) (next_delay delay) t

      later :
          (r : Result (Unit {0}) × CpClient)
          → restore (wires zero) s ≡ r
          → Tried (wires zero) s r
          → ((t : CpClient) → t.http ≡ true → Ends k (next_delay delay) a t (rest t))
          → Ends (suc k) delay a s (reconnect_loop (suc fuel) wires delay s)
      later (ok done, t) e (b, listed, account, kept) ih = absurd (away zero (omega arith) b listed)
      later (err x, t) e (away', kept) ih =
          let i = ih t kept.session in
          rw (e, reconnect_loop, ap (λ (r : Result (Unit {0}) × CpClient). rest r.1) e ∙ i.returned)
            (record {
              delays = delay ∷ i.delays;
              after = i.after;
              returned = refl;
              attempts = ap suc i.attempts;
              slept = (refl, rw (← next_delay-eq-min delay) i.slept);
              account = i.account;
              kept = record {
                session = i.kept.session;
                contracts = i.kept.contracts ∙ kept.contracts;
                task = i.kept.task ∙ kept.task;
              };
            })

  -- A turn that has found the session alive, or has restored it at once.
  abbrev pub StaysConnected : Wire D → CpClient → CpClient → Type 0
  StaysConnected w s t =
      (w.auth_status ≡ ok (some true)) × (t.account_id ≡ s.account_id)
      ⊎ ((b : String) × Lists w b × (t.account_id ≡ some b))

  abbrev Kept : Wire D → CpClient → Result (Unit {0}) × CpClient → Type 0
  Kept w s (ok done, t) = StaysConnected w s t × Keeps s t
  Kept w s (err e, t) = Keeps s t

  of_restore :
      (w : Wire D) (s : CpClient) (sent : List Request) (r : Result (Unit {0}) × CpClient)
      → Tried w (record s { sent = sent }) r
      → Kept w s r
  of_restore w s sent (ok done, t) (b, lists, account, k) = (
    inr (b, lists, account),
    record { session = k.session; contracts = k.contracts; task = k.task },
  )
  of_restore w s sent (err e, t) (away, k) = record {
    session = k.session;
    contracts = k.contracts;
    task = k.task;
  }

  lost :
      (w : Wire D) (s : CpClient)
      → s.http ≡ true
      → Kept w s
          (restore w (record s { sent = (s.sent ++ (post_tickle ∷ [])) ++ (get_auth_status ∷ []) }))
  lost w s h = of_restore w s _ _ (restore-Tried w _ h)

  keep_alive-Kept : (w : Wire D) (s : CpClient) → s.http ≡ true → Kept w s (keep_alive w s)
  unfolding keep_alive
  keep_alive-Kept w s h = elim (Result-cases w.tickle) [
    | inl (e, p) ↦ rw (h, p) record { session = refl; contracts = refl; task = refl }
    | inr (done, p) ↦ elim (Result-cases w.auth_status) [
      | inl (e, q) ↦ rw (h, p, q) record { session = refl; contracts = refl; task = refl }
      | inr (none, q) ↦ rw (h, p, q) (lost w (record s { http = true }) refl)
      | inr (some false, q) ↦ rw (h, p, q) (lost w (record s { http = true }) refl)
      | inr (some true, q) ↦
          rw (h, p, q) (inl (q, refl), record { session = refl; contracts = refl; task = refl })
    ]
  ]

  pub record Turned (k : ℕ) (a : String) (w : Wire D) (s : CpClient)
      (r : Option (List ℕ × CpClient)) : Type 0 where
    pub delays : List ℕ
    pub after : CpClient
    pub returned : r ≡ some (delays, after)
    pub kept : Keeps s after
    pub outcome :
        (delays ≡ []) × StaysConnected w s after
        ⊎ (length delays ≡ suc k) × AreDelays 15 delays × (after.account_id ≡ some a)

  -- For a client that is started, and a gateway that is away for `k` attempts and then lists an account:
  -- a turn of the keepalive ends, with the session and the contracts that the client had. It has found
  -- the session alive, or has logged in again at once with the account listed first; or, after `k + 1`
  -- attempts, it has the account that the gateway then lists: the first attempt after 15 seconds, each
  -- other one after twice as long as the one before, and none after more than two minutes.
  pub tickle_turn-Turned :
      (k fuel : ℕ) (w : Wire D) (wires : ℕ → Wire D) (s : CpClient) (a : String)
      → s.http ≡ true
      → ((j : ℕ) → j < k → Away (wires j))
      → Lists (wires k) a
      → k < fuel
      → Turned k a w s (tickle_turn fuel w wires s)
  unfolding tickle_turn
  tickle_turn-Turned k fuel w wires s a h away lists enough =
      turn (keep_alive w s) refl (keep_alive-Kept w s h)
    where
      turn :
          (r : Result (Unit {0}) × CpClient)
          → keep_alive w s ≡ r
          → Kept w s r
          → Turned k a w s (tickle_turn fuel w wires s)
      turn (ok done, t) e (stays, kept) = record {
        delays = [];
        after = t;
        returned =
            rw (e, tickle_turn) (ap (λ (r : Result (Unit {0}) × CpClient). some ([], r.1)) e);
        kept = kept;
        outcome = inl (refl, stays);
      }
      turn (err x, t) e kept =
          let ends =
            reconnect_loop-Ends k fuel wires 15 (record t { account_id = none }) a kept.session away
              lists enough in
          record {
            delays = ends.delays;
            after = ends.after;
            returned =
                rw (e, tickle_turn)
                  (ap
                      (λ (r : Result (Unit {0}) × CpClient).
                        reconnect_loop fuel wires 15 (record (r.1) { account_id = none }))
                      e
                    ∙ ends.returned);
            kept = record {
              session = ends.kept.session;
              contracts = ends.kept.contracts ∙ kept.contracts;
              task = ends.kept.task ∙ kept.task;
            };
            outcome = inr (ends.attempts, ends.slept, ends.account);
          }
