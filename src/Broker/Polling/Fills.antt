-- ===== src/Broker/Polling/Fills.antt =====
-- How often a fill is recorded by the polling of src/polara/broker/adapter.py.
use polara_quant.Base.{
  ℕ, ◌∙◌, ◌≡◌, refl, ◌⊎◌, inl, inr, Bool, true, false, Option, none, some, not, ◌&&◌, List, [], ◌∷◌,
  arith, nat_beq, find_first, update_where, All, Bool-cases, if◌then◌else◌, ◌∙◌,
}
use polara_quant.Base.Effects.{Result, ok, err}
use polara_quant.Decimal.{Decimal}
use polara_quant.Schemas.{OrderState, filled}
use polara_quant.Trades.{open_trade}
use polara_quant.Broker.State.{Broker, RawOrder, Order}
use polara_quant.Broker.Polling.{
  status_map, raw_status, is_filled, contains, is_order_of, is_exit_of, record_fill, set_status,
  remember, sync_status, sync_order, sync_orders,
}

-- No number belongs both to an order and to a child of a bracket.
abbrev pub IsDisjoint : {D : Type 0} ⦃d : Decimal D⦄ → Broker D → Type 0
IsDisjoint s =
    (i : ℕ)
    → (find_first (is_order_of i) s.orders ≡ none)
      ⊎ (find_first (is_exit_of i) s.bracket_orders ≡ none)

-- The number of an order that the gateway reports as filled.
abbrev pub fill_id : {D : Type 0} → RawOrder D → Option ℕ
fill_id o = elim o.order_id [
  | none ↦ none
  | some i ↦ elim (status_map (raw_status o.status)) [
    | none ↦ none
    | some st ↦ if not (nat_beq i 0) && is_filled st then some i else none
  ]
]

module _ {D : Type 0} ⦃d : Decimal D⦄ (total : List D → D) (locked : ℕ → Bool) where
  abbrev KnownIn : Broker D → Option ℕ → Type 0
  KnownIn s none = Unit
  KnownIn s (some i) = contains i s.known_filled ≡ true

  -- Every fill that the gateway reports has been remembered.
  abbrev pub IsKnown : List (RawOrder D) → Broker D → Type 0
  IsKnown os s = All (λ o. KnownIn s (fill_id o)) os

  known_order :
      (now : ℕ) (o : RawOrder D) (s : Broker D)
      → KnownIn s (fill_id o)
      → ((sync_order total locked now o s).trades ≡ s.trades)
        × ((sync_order total locked now o s).known_filled ≡ s.known_filled)
  unfolding sync_order
  known_order now o s k = ground arith

  -- `_record_fill` writes only the trades.
  abbrev SameBooks : Broker D → Broker D → Type 0
  SameBooks s t =
      (t.orders ≡ s.orders)
      × (t.bracket_orders ≡ s.bracket_orders)
      × (t.has_trade_service ≡ s.has_trade_service)
      × (t.known_filled ≡ s.known_filled)

  record_fill-SameBooks :
      (ib_id now : ℕ) (o : RawOrder D) (s : Broker D)
      → SameBooks s (record_fill total locked ib_id now o s).1
  unfolding record_fill
  record_fill-SameBooks ib_id now o s = ground arith

  record_fill_ok :
      (ib_id now : ℕ) (o : RawOrder D) (s : Broker D)
      → IsDisjoint s
      → locked ib_id ≡ false
      → (record_fill total locked ib_id now o s).0 ≡ ok tt
  unfolding record_fill open_trade
  record_fill_ok ib_id now o s apart open_ = ground (arith, apart ib_id)

  pub find-set_status :
      (i ib_id : ℕ) (status : OrderState) (rows : List (Order D))
      → find_first (is_order_of i) rows ≡ none
      → find_first
          (is_order_of i)
          (update_where (is_order_of ib_id) (λ row. record row { status = status }) rows)
        ≡ none
  find-set_status i ib_id status [] h = refl
  find-set_status i ib_id status (row ∷ rows) h =
      ground (arith, find-set_status i ib_id status rows)

  set_status-IsDisjoint :
      (ib_id : ℕ) (status : OrderState) (s : Broker D)
      → IsDisjoint s
      → IsDisjoint (set_status ib_id status s)
  set_status-IsDisjoint ib_id status s apart i = elim (apart i) [
    | inl h ↦ inl (find-set_status i ib_id status s.orders h)
    | inr h ↦ inr h
  ]

  -- What the loop body leaves as it is, and what it remembers.
  abbrev SyncsTo : Broker D → Broker D → Type 0
  SyncsTo s t =
      (t.bracket_orders ≡ s.bracket_orders)
      × (t.has_trade_service ≡ s.has_trade_service)
      × ((i : ℕ) → contains i s.known_filled ≡ true → contains i t.known_filled ≡ true)
      × (IsDisjoint s → IsDisjoint t)

  IsDisjoint-same :
      (s t : Broker D)
      → t.orders ≡ s.orders
      → t.bracket_orders ≡ s.bracket_orders
      → IsDisjoint s
      → IsDisjoint t
  IsDisjoint-same s t p q apart i = rw (p, q) (apart i)

  remember-SyncsTo :
      (ib_id : ℕ) (s u : Broker D) (m : Result (Unit {0}) × Broker D)
      → SyncsTo s u
      → SameBooks u m.1
      → SyncsTo s (remember ib_id m)
  remember-SyncsTo ib_id s u (ok tt', t) (b, h, k, a) (o', b', h', k') = (
    b' ∙ b,
    h' ∙ h,
    λ i p. ground (arith, k i p),
    λ apart. IsDisjoint-same u (record t { known_filled = ib_id ∷ t.known_filled }) o' b' (a apart),
  )
  remember-SyncsTo ib_id s u (err e, t) (b, h, k, a) (o', b', h', k') =
      (b' ∙ b, h' ∙ h, λ i p. rw k' (k i p), λ apart. IsDisjoint-same u t o' b' (a apart))

  sync_status-SyncsTo :
      (ib_id now : ℕ) (status : OrderState) (o : RawOrder D) (s : Broker D)
      → SyncsTo s (sync_status total locked ib_id now status o s)
  unfolding sync_status
  sync_status-SyncsTo ib_id now status o s =
      let u = set_status ib_id status s in
      let plain : SyncsTo s u = (refl, refl, λ i p. p, set_status-IsDisjoint ib_id status s) in
      let new = is_filled status && (not (contains ib_id s.known_filled) && s.has_trade_service) in
      elim (Bool-cases new) [
        | inl yes_ ↦ rw yes_ (
            remember-SyncsTo ib_id s u (record_fill total locked ib_id now o u) plain
              (record_fill-SameBooks ib_id now o u))
        | inr no_ ↦ rw no_ plain
      ]

  sync_order-SyncsTo :
      (now : ℕ) (o : RawOrder D) (s : Broker D) → SyncsTo s (sync_order total locked now o s)
  unfolding sync_order
  sync_order-SyncsTo now o s = go o.order_id (status_map (raw_status o.status))
    where
      go :
          (i : Option ℕ) (st : Option OrderState)
          → SyncsTo s (elim i [
            | none ↦ s
            | some ib_id ↦ elim st [
              | none ↦ s
              | some status ↦
                  if nat_beq ib_id 0 then s else sync_status total locked ib_id now status o s
            ]
          ])
      go none st = (refl, refl, λ i p. p, λ a. a)
      go (some i) none = (refl, refl, λ i p. p, λ a. a)
      go (some i) (some st) = elim (Bool-cases (nat_beq i 0)) [
        | inl zero_id ↦ rw zero_id (refl, refl, λ i p. p, λ a. a)
        | inr id ↦ rw id (sync_status-SyncsTo i now st o s)
      ]

  remember_ok :
      (i : ℕ) (m : Result (Unit {0}) × Broker D)
      → m.0 ≡ ok tt
      → contains i (remember i m).known_filled ≡ true
  remember_ok i (ok tt', t) h = ground arith
  remember_ok i (err e, t) h = cc

  sync_filled :
      (i now : ℕ) (o : RawOrder D) (s : Broker D)
      → IsDisjoint s
      → s.has_trade_service ≡ true
      → locked i ≡ false
      → contains i (sync_status total locked i now filled o s).known_filled ≡ true
  unfolding sync_status
  sync_filled i now o s apart service free =
      let u = set_status i filled s in
      let m = record_fill total locked i now o u in
      let done = record_fill_ok i now o u (set_status-IsDisjoint i filled s apart) free in
      go (contains i s.known_filled) s.has_trade_service refl service m done
    where
      go :
          (known ts : Bool)
          → contains i s.known_filled ≡ known
          → ts ≡ true
          → (m : Result (Unit {0}) × Broker D) → m.0 ≡ ok tt
          → contains i
              (if true && (not known && ts)
                then remember i m
                else set_status i filled s).known_filled
            ≡ true
      go true ts e on m done = e
      go false true e on m done = remember_ok i m done
      go false false e on m done = cc

  remembered_order :
      (now : ℕ) (o : RawOrder D) (s : Broker D)
      → IsDisjoint s
      → s.has_trade_service ≡ true
      → ((i : ℕ) → locked i ≡ false)
      → KnownIn (sync_order total locked now o s) (fill_id o)
  unfolding sync_order
  remembered_order now o s apart service free = go o.order_id (status_map (raw_status o.status))
    where
      go :
          (i : Option ℕ) (st : Option OrderState)
          → KnownIn
              (elim i [
                | none ↦ s
                | some ib_id ↦ elim st [
                  | none ↦ s
                  | some status ↦
                      if nat_beq ib_id 0 then s else sync_status total locked ib_id now status o s
                ]
              ])
              (elim i [
                | none ↦ none
                | some ib_id ↦ elim st [
                  | none ↦ none
                  | some status ↦
                      if not (nat_beq ib_id 0) && is_filled status then some ib_id else none
                ]
              ])
      go none st = tt
      go (some i) none = tt
      go (some i) (some filled) = elim (Bool-cases (nat_beq i 0)) [
        | inl zero_id ↦ rw zero_id tt
        | inr id ↦ rw id (sync_filled i now o s apart service (free i))
      ]
      go (some i) (some _) = ground arith

  sync_orders-SyncsTo :
      (now : ℕ) (os : List (RawOrder D)) (s : Broker D)
      → SyncsTo s (sync_orders total locked now os s)
  unfolding sync_orders
  sync_orders-SyncsTo now [] s = (refl, refl, λ i p. p, λ a. a)
  sync_orders-SyncsTo now (o ∷ os) s =
      let (b, h, k, a) = sync_order-SyncsTo now o s in
      let (b', h', k', a') = sync_orders-SyncsTo now os (sync_order total locked now o s) in
      (b' ∙ b, h' ∙ h, λ i p. k' i (k i p), λ apart. a' (a apart))

  KnownIn-SyncsTo : (s t : Broker D) (k : Option ℕ) → SyncsTo s t → KnownIn s k → KnownIn t k
  KnownIn-SyncsTo s t none sync h = tt
  KnownIn-SyncsTo s t (some i) (_, _, k, _) h = k i h

  sync_orders-IsKnown :
      (now : ℕ) (os : List (RawOrder D)) (s : Broker D)
      → IsDisjoint s
      → s.has_trade_service ≡ true
      → ((i : ℕ) → locked i ≡ false)
      → IsKnown os (sync_orders total locked now os s)
  unfolding sync_orders
  sync_orders-IsKnown now [] s apart service free = tt
  sync_orders-IsKnown now (o ∷ os) s apart service free =
      let t = sync_order total locked now o s in
      let (b, h, k, a) = sync_order-SyncsTo now o s in
      (
        KnownIn-SyncsTo t (sync_orders total locked now os t) (fill_id o)
            (sync_orders-SyncsTo now os t) (remembered_order now o s apart service free),
        sync_orders-IsKnown now os t (a apart) (h ∙ service) free,
      )

  -- A fill that has been remembered is not recorded again: if every reported fill has been, a poll
  -- leaves the trades and what is remembered as they are.
  known_orders :
      (now : ℕ) (os : List (RawOrder D)) (s : Broker D)
      → IsKnown os s
      → (sync_orders total locked now os s).trades ≡ s.trades
  unfolding sync_orders
  known_orders now [] s k = refl
  known_orders now (o ∷ os) s (k, ks) =
      let (same, kept) = known_order now o s k in
      let t = sync_order total locked now o s in known_orders now os t (rw kept ks) ∙ same

  -- If no number is shared by an order and a child of a bracket, there is a trade service, and its
  -- sessions do not fail, a second poll of the same report leaves the trades as they are.
  pub poll_twice :
      (now later : ℕ) (os : List (RawOrder D)) (s : Broker D)
      → IsDisjoint s
      → s.has_trade_service ≡ true
      → ((i : ℕ) → locked i ≡ false)
      → let once = sync_orders total locked now os s in
        (sync_orders total locked later os once).trades ≡ once.trades
  poll_twice now later os s apart service free =
      known_orders later os (sync_orders total locked now os s)
        (sync_orders-IsKnown now os s apart service free)
