-- ===== src/Broker/Polling/Numbers.antt =====
-- Placing a bracket in src/polara/broker/adapter.py keeps the numbers of the orders apart from those
-- of the brackets' children.
use polara_quant.Base.{
  ℕ, ◌≡◌, ◌≢◌, refl, ◌⊎◌, inl, inr, String, Bool, true, false, Option, none, some, not, ◌||◌, List,
  [], ◌∷◌, ◌++◌, arith, find_first, Bool-cases,
}
use polara_quant.Base.Effects.{
  Result, ok, err, raise_if, lift, modify, pure, ◌>>=◌, ◌>>◌, broker_disconnected, Result-cases,
}
use polara_quant.Decimal.{Decimal}
use polara_quant.Schemas.{OrderRequest}
use polara_quant.Broker.State.{Broker, Gateway, Order, Bracket, Reply, Payload}
use polara_quant.Broker.Orders.{
  reply_id, bracket_legs, bracket_row, order_row, insert_order, insert_bracket, send_orders,
  place_bracket_order,
}
use polara_quant.Broker.Orders.Brackets.{insert_order-cases}
use polara_quant.Broker.Polling.{has_id, is_order_of, is_exit_of}
use polara_quant.Broker.Polling.Fills.{IsDisjoint}

has_id-eq : (i : ℕ) (o : Option ℕ) → has_id i o ≡ true → o ≡ some i
has_id-eq i none e = cc
has_id-eq i (some j) e = ground arith

has_id_either :
    (i : ℕ) (a b : Option ℕ) → (has_id i a || has_id i b) ≡ true → (a ≡ some i) ⊎ (b ≡ some i)
has_id_either i none b e = inr (has_id-eq i b e)
has_id_either i (some j) b e = ground (arith, has_id-eq i b)

module _ {D : Type 0} ⦃d : Decimal D⦄ where
  -- A number that no order and no bracket has.
  abbrev pub IsNew : ℕ → Broker D → Type 0
  IsNew i s =
      (find_first (is_order_of i) s.orders ≡ none)
      × (find_first (is_exit_of i) s.bracket_orders ≡ none)

  -- The numbers of an answer have not been given before, and the first of them is not the second or
  -- the third.
  pub record AreFresh (results : List Reply) (s : Broker D) : Type 0 where
    pub first_new : (i : ℕ) → reply_id results 0 ≡ some i → IsNew i s
    pub apart_second : (i : ℕ) → reply_id results 0 ≡ some i → reply_id results 1 ≢ some i
    pub apart_third : (i : ℕ) → reply_id results 0 ≡ some i → reply_id results 2 ≢ some i
    pub second_new : (i : ℕ) → reply_id results 1 ≡ some i → IsNew i s
    pub third_new : (i : ℕ) → reply_id results 2 ≡ some i → IsNew i s

  find-append :
      (i : ℕ) (rows : List (Order D)) (row : Order D)
      → find_first (is_order_of i) rows ≡ none
      → is_order_of i row ≡ false
      → find_first (is_order_of i) (rows ++ (row ∷ [])) ≡ none
  find-append i [] row h e = ground arith
  find-append i (r ∷ rows) row h e = ground (arith, find-append i rows row)

  find-append_exit :
      (i : ℕ) (rows : List (Bracket D)) (row : Bracket D)
      → find_first (is_exit_of i) rows ≡ none
      → is_exit_of i row ≡ false
      → find_first (is_exit_of i) (rows ++ (row ∷ [])) ≡ none
  find-append_exit i [] row h e = ground arith
  find-append_exit i (r ∷ rows) row h e = ground (arith, find-append_exit i rows row)

  -- Adding an order and a bracket whose numbers differ and are new.
  added-IsDisjoint :
      (row : Order D) (b : Bracket D) (s : Broker D)
      → ((i : ℕ) → is_order_of i row ≡ true → IsNew i s × (is_exit_of i b ≡ false))
      → ((i : ℕ) → is_exit_of i b ≡ true → IsNew i s)
      → IsDisjoint s
      → IsDisjoint (record s {
        orders = s.orders ++ (row ∷ []);
        bracket_orders = s.bracket_orders ++ (b ∷ []);
      })
  added-IsDisjoint row b s new_row new_exit apart i = elim (Bool-cases (is_order_of i row)) [
    | inl here ↦ let ((_, q), e) = new_row i here in inr (find-append_exit i s.bracket_orders b q e)
    | inr away ↦ elim (Bool-cases (is_exit_of i b)) [
      | inl here ↦ inl (find-append i s.orders row (new_exit i here).0 away)
      | inr gone ↦ elim (apart i) [
        | inl p ↦ inl (find-append i s.orders row p away)
        | inr q ↦ inr (find-append_exit i s.bracket_orders b q gone)
      ]
    ]
  ]

  -- The number of a child in the stored row is the second or the third of the answer.
  exit_number :
      (i : ℕ) (req : OrderRequest D) (stop profit : Option D) (results : List Reply) (now : ℕ)
      → is_exit_of i (bracket_row req stop profit results now) ≡ true
      → (reply_id results 1 ≡ some i) ⊎ (reply_id results 2 ≡ some i)
  exit_number i req none none results now e = cc
  exit_number i req (some s) none results now e =
      elim (has_id_either i (reply_id results 1) none e) [ inl p ↦ inl p | inr p ↦ cc ]
  exit_number i req none (some p) results now e = inl (has_id-eq i (reply_id results 1) e)
  exit_number i req (some s) (some p) results now e =
      has_id_either i (reply_id results 1) (reply_id results 2) e

  bracket_added :
      (req : OrderRequest D) (stop profit : Option D) (results : List Reply) (now : ℕ)
      (s t : Broker D)
      → AreFresh results s
      → IsDisjoint s
      → t.orders ≡ s.orders ++ (order_row req none (reply_id results 0) now ∷ [])
      → t.bracket_orders ≡ s.bracket_orders ++ (bracket_row req stop profit results now ∷ [])
      → IsDisjoint t
  bracket_added req stop profit results now s t fresh apart p q i =
      let row = order_row req none (reply_id results 0) now in
      let b = bracket_row req stop profit results now in
      rw (p, q) (added-IsDisjoint row b s new_row new_exit apart i)
    where
      new_exit : (j : ℕ) → is_exit_of j (bracket_row req stop profit results now) ≡ true → IsNew j s
      new_exit j e = elim (exit_number j req stop profit results now e) [
        | inl second ↦ fresh.second_new j second
        | inr third ↦ fresh.third_new j third
      ]

      no_exit :
          (j : ℕ)
          → reply_id results 0 ≡ some j
          → ¬ (is_exit_of j (bracket_row req stop profit results now) ≡ true)
      no_exit j first e = elim (exit_number j req stop profit results now e) [
        | inl second ↦ fresh.apart_second j first second
        | inr third ↦ fresh.apart_third j first third
      ]

      new_row :
          (j : ℕ)
          → is_order_of j (order_row req none (reply_id results 0) now) ≡ true
          → IsNew j s × (is_exit_of j (bracket_row req stop profit results now) ≡ false)
      new_row j e =
          let first = has_id-eq j (reply_id results 0) e in
          (
            fresh.first_new j first,
            elim (Bool-cases (is_exit_of j (bracket_row req stop profit results now))) [
              | inl yes_ ↦ absurd (no_exit j first yes_)
              | inr no_ ↦ no_
            ],
          )

  -- A bracket order keeps the numbers of the orders apart from those of the children, if they
  -- were apart before, and the gateway gives each order a number that it has not given before,
  -- and the parent one that no child has.
  pub place_bracket_order-IsDisjoint :
      (gw : Gateway D) (now coid : ℕ) (req : OrderRequest D) (stop profit : Option D) (s : Broker D)
      → ((payloads : List (Payload D)) (results : List Reply)
          → gw.place_orders payloads ≡ ok results
          → AreFresh results s)
      → IsDisjoint s
      → IsDisjoint (place_bracket_order gw now coid req stop profit s).1
  unfolding place_bracket_order
  place_bracket_order-IsDisjoint gw now coid req stop profit s fresh apart =
      go gw.connected (gw.get_conid req.symbol) gw.account_id
    where
      go :
          (connected : Bool) (conid : Result ℕ) (account : Result String)
          → IsDisjoint
              ((do
                raise_if (not connected) broker_disconnected
                c ← lift conid
                a ← lift account
                results ← send_orders gw (bracket_legs req c a coid stop profit)
                insert_order (order_row req none (reply_id results 0) now)
                modify (insert_bracket (bracket_row req stop profit results now))
                pure req.order_id)
                s).1
      go false conid account = apart
      go true (err e) account = apart
      go true (ok c) (err e) = apart
      go true (ok c) (ok a) =
          let legs = bracket_legs req c a coid stop profit in
          elim (Result-cases (gw.place_orders legs)) [
            | inl (e, failed) ↦ rw failed apart
            | inr (results, answer) ↦
                let row = order_row req none (reply_id results 0) now in
                let sent = record s { placed = s.placed ++ (legs ∷ []) } in
                elim (insert_order-cases row sent) [
                  | inl (_, taken) ↦ rw (answer, taken) apart
                  | inr stored ↦
                      rw (answer, stored)
                        (bracket_added req stop profit results now s
                          (record s {
                            orders = s.orders ++ (row ∷ []);
                            bracket_orders =
                                s.bracket_orders ++ (bracket_row req stop profit results now ∷ []);
                            placed = s.placed ++ (legs ∷ []);
                          })
                          (fresh legs results answer) apart refl refl)
                ]
          ]
