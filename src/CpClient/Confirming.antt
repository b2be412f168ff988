-- ===== src/CpClient/Confirming.antt =====
-- Orders with their confirmation, in src/polara/broker/cp_client.py.
use mathlib.Core.Path.{subst}
use mathlib.Core.List.{append_assoc}
use polara_quant.Base.{
  ◌≡◌, refl, inl, inr, String, Option, none, some, List, [], ◌∷◌, ◌++◌, arith, string_eq,
  Option-cases, Bool-cases,
}
use polara_quant.Base.Effects.{Result, ok, err, Result-cases}
use polara_quant.Broker.{Payload}
use polara_quant.CpClient.{
  CpClient, Wire, Request, Item, Answer, place_orders, question, as_list, confirm, account_id_of,
  post_orders, post_reply,
}

-- The requests of one call of `place_orders`: the orders, and the confirmation of the question that
-- the answer begins with, if it begins with one.
abbrev pub requests_of : String → Option String → List Request
requests_of account none = post_orders account ∷ []
requests_of account (some id) = post_orders account ∷ post_reply id ∷ []

account_id_of-eq-ok : (o : Option String) (a : String) → account_id_of o ≡ ok a → o ≡ some a
unfolding account_id_of
account_id_of-eq-ok o a h = ground arith

module _ {D : Type 0} where
  -- The items that the gateway gave at last.
  abbrev pub final_of : Wire D → Answer → Option String → Result Answer
  final_of w answer none = ok answer
  final_of w answer (some id) = w.reply id

  pub record Placed (w : Wire D) (payloads : List (Payload D)) (s : CpClient) (items : List Item)
      (t : CpClient) : Type 0 where
    pub account : String
    pub answer : Answer
    pub final : Answer
    pub known : s.account_id ≡ some account
    pub answered : w.orders account payloads ≡ ok answer
    pub confirmed : final_of w answer (question answer) ≡ ok final
    pub given : items ≡ as_list final
    pub sent : t.sent ≡ s.sent ++ requests_of account (question answer)

  abbrev PlacedBy : Wire D → List (Payload D) → CpClient → Result (List Item) × CpClient → Type 0
  PlacedBy w payloads s (ok items, t) = Placed w payloads s items t
  PlacedBy w payloads s (err e, t) = Unit {0}

  place_orders-PlacedBy :
      (w : Wire D) (payloads : List (Payload D)) (s : CpClient)
      → PlacedBy w payloads s (place_orders w payloads s)
  unfolding place_orders
  place_orders-PlacedBy w payloads s = elim (Result-cases (account_id_of s.account_id)) [
    | inl (e, p) ↦ rw p tt
    | inr (a, p) ↦ elim (Bool-cases s.http) [
      | inr h ↦ rw (p, h) tt
      | inl h ↦ elim (Result-cases (w.orders a payloads)) [
        | inl (e, q) ↦ rw (p, h, q) tt
        | inr (answer, q) ↦ elim (Option-cases (question answer)) [
          | inl plain ↦
              rw (p, h, q, plain, confirm)
                (record {
                  account = a;
                  answer = answer;
                  final = answer;
                  known = account_id_of-eq-ok s.account_id a p;
                  answered = q;
                  confirmed = rw plain refl;
                  given = refl;
                  sent = rw plain refl;
                })
          | inr (id, asked) ↦ elim (Result-cases (w.reply id)) [
            | inl (e, r) ↦ rw (p, h, q, asked, r, confirm) tt
            | inr (final, r) ↦
                rw (p, h, q, asked, r, confirm)
                  (record {
                    account = a;
                    answer = answer;
                    final = final;
                    known = account_id_of-eq-ok s.account_id a p;
                    answered = q;
                    confirmed = rw asked r;
                    given = refl;
                    sent = rw asked (append_assoc s.sent (post_orders a ∷ []) (post_reply id ∷ []));
                  })
          ]
        ]
      ]
    ]
  ]

  -- A call of `place_orders` that does not raise had an account, and has sent the orders for it once.
  -- Where the gateway answered with a question, one confirmation of it followed and nothing else, and
  -- the items are those of its answer; else nothing more was sent, and the items are those of the
  -- answer to the orders.
  pub place_orders-Placed :
      (w : Wire D) (payloads : List (Payload D)) (s t : CpClient) (items : List Item)
      → place_orders w payloads s ≡ (ok items, t)
      → Placed w payloads s items t
  unfolding place_orders
  place_orders-Placed w payloads s t items h =
      subst (PlacedBy w payloads s) h (place_orders-PlacedBy w payloads s)
