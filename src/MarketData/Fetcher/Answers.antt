-- ===== src/MarketData/Fetcher/Answers.antt =====
-- What src/polara/market_data/fetcher.py answers with.
use mathlib.Core.Path.{subst}
use polara_quant.Base.{
  ℕ, suc, zero, ◌≡◌, ◌≤◌, ◌<◌, refl, ap, ◌∙◌, String, Option, List, [], ◌∷◌, inl, inr, ◌-◌,
  All-drop, length-drop, arith, All, Bool-cases, ltb, length,
}
use polara_quant.Base.Effects.{Result, ok, err, Result-cases}
use polara_quant.Base.Results.{bind-eq-ok}
use polara_quant.Decimal.{Decimal}
use polara_quant.Schemas.{Bar, bar, bar-eq-ok, utc}
use polara_quant.CpClient.{CpClient, Wire, RawBar, historical_bars, get_conid}
use polara_quant.MarketData.Fetcher.{
  fetch_bars, cp_bar, last_n, read_bar, read_bars, or_none, item_of,
}
use polara_quant.MarketData.Periods.{cp_period}

module _ {D : Type 0} ⦃d : Decimal D⦄ where
  -- A bar that the fetcher may answer with: it has passed the validators, is of the symbol, and its time
  -- is one in UTC.
  pub record IsFetched (symbol : String) (b : Bar D) : Type 0 where
    pub valid : bar b ≡ ok b
    pub named : b.symbol ≡ symbol
    pub timed : b.timestamp ≡ utc b.timestamp.instant

  read_bar-IsFetched :
      (symbol : String) (row : RawBar D) (b : Bar D)
      → read_bar symbol row ≡ ok b
      → IsFetched symbol b
  unfolding read_bar
  read_bar-IsFetched symbol row b h =
      let (t, pt, ht) = bind-eq-ok (item_of row.t) _ h in
      let (o, po, ho) = bind-eq-ok (item_of row.o) _ ht in
      let (g, pg, hg) = bind-eq-ok (item_of row.h) _ ho in
      let (l, pl, hl) = bind-eq-ok (item_of row.l) _ hg in
      let (c, pc, hc) = bind-eq-ok (item_of row.c) _ hl in
      let e = bar-eq-ok _ b hc in
      record {
        valid = ap bar e ∙ hc;
        named = ap (λ (a : Bar D). a.symbol) e;
        timed = cc (ap (λ (a : Bar D). a.timestamp) e);
      }

  read_bars-All :
      (symbol : String) (rows : List (RawBar D)) (bars : List (Bar D))
      → read_bars symbol rows ≡ ok bars
      → All (IsFetched symbol) bars
  unfolding read_bars
  read_bars-All symbol [] [] h = tt
  read_bars-All symbol [] (b ∷ bars) h = cc
  read_bars-All symbol (row ∷ rows) bars h =
      let (a, p, q) = bind-eq-ok (read_bar symbol row) _ h in
      let (as', p', q') = bind-eq-ok (read_bars symbol rows) _ q in
      subst (λ (r : Result (List (Bar D))). all_of r) q'
        (read_bar-IsFetched symbol row a p, read_bars-All symbol rows as' p')
    where
      all_of : Result (List (Bar D)) → Type 0
      all_of (ok xs) = All (IsFetched symbol) xs
      all_of (err e) = Unit {0}

  All-last_n :
      (P : Bar D → Type 0) (n : ℕ) (bars : List (Bar D)) → All P bars → All P (last_n n bars)
  unfolding last_n
  All-last_n P zero bars a = a
  All-last_n P (suc n) bars a = elim (Bool-cases (ltb (suc n) (length bars))) [
    | inl more ↦ rw more (All-drop P (length bars - suc n) bars a)
    | inr few ↦ rw few a
  ]

  length-last_n-le : (n : ℕ) (bars : List (Bar D)) → 0 < n → length (last_n n bars) ≤ n
  unfolding last_n
  length-last_n-le zero bars h = absurd (omega arith)
  length-last_n-le (suc n) bars h = ground (arith, length-drop (length bars - suc n) bars)

  abbrev pub FetchedBy : String → ℕ → Result (List (Bar D)) × CpClient → Type 0
  FetchedBy symbol n (ok bars, t) = All (IsFetched symbol) bars × (0 < n → length bars ≤ n)
  FetchedBy symbol n (err e, t) = Unit {0}

  -- Bars that have been fetched are valid bars of the symbol, and at most as many as were asked for.
  pub fetch_bars-FetchedBy :
      (w : Wire D) (symbol : String) (n : ℕ) (bar_size : String) (s : CpClient)
      → FetchedBy symbol n (fetch_bars w symbol n bar_size s)
  unfolding fetch_bars
  fetch_bars-FetchedBy w symbol n bar_size s = found (get_conid w symbol s) refl
    where
      read :
          (conid : ℕ) (t u : CpClient) (rows : Option (List (RawBar D)))
          → get_conid w symbol s ≡ (ok conid, t)
          → historical_bars w conid (cp_period n bar_size) (cp_bar bar_size) t ≡ (ok rows, u)
          → FetchedBy symbol n (fetch_bars w symbol n bar_size s)
      read conid t u rows e p = elim (Result-cases (read_bars symbol (or_none rows))) [
        | inl (x, q) ↦ rw (e, p, q) tt
        | inr (bars, q) ↦
            rw (e, p, q)
              (
                All-last_n (IsFetched symbol) n bars (read_bars-All symbol (or_none rows) bars q),
                length-last_n-le n bars,
              )
      ]

      answered :
          (conid : ℕ) (t : CpClient) (r : Result (Option (List (RawBar D))) × CpClient)
          → get_conid w symbol s ≡ (ok conid, t)
          → historical_bars w conid (cp_period n bar_size) (cp_bar bar_size) t ≡ r
          → FetchedBy symbol n (fetch_bars w symbol n bar_size s)
      answered conid t (ok rows, u) e p = read conid t u rows e p
      answered conid t (err x, u) e p = rw (e, p) tt

      found :
          (r : Result ℕ × CpClient)
          → get_conid w symbol s ≡ r
          → FetchedBy symbol n (fetch_bars w symbol n bar_size s)
      found (ok conid, t) e =
          answered conid t (historical_bars w conid (cp_period n bar_size) (cp_bar bar_size) t) e
            refl
      found (err x, t) e = rw e tt
