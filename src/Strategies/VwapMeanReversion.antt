-- ===== src/Strategies/VwapMeanReversion.antt =====
-- src/polara/research_engine/strategies/vwap_mean_reversion.py: the close leaves a band around the session's average.
-- `on_bars` does not use the calibration grid, which is left out.
use polara_quant.Base.{
  ℕ, Option, none, some, List, [], ◌∷◌, map, ltb, length, last_or, if◌then◌else◌,
}
use polara_quant.Base.Effects.{Result, ok, err, index_error}
use polara_quant.Decimal.{Decimal, zero_d, abs, of_int, sum_from}
use polara_quant.Schemas.{Signal, Bar}
use polara_quant.MarketData.Sessions.{Zone, date_of_bar, get_session_bars}
use polara_quant.Strategies.{Stamp}
use polara_quant.Strategies.Signalling.{
  Sleeve, ExitPcts, emit, buy_strength, sell_strength, volumes_of,
}

pub record VwapMeanReversion (D : Type 0) : Type 0 where
  pub sleeve : Sleeve
  pub deviation_pct : D
  pub stop_loss_pct : D
  pub std_mult : Option D

abbrev pub bars_needed : ℕ
bars_needed = 3

-- What a branch of `on_bars` decides.
pub record Entry (D : Type 0) : Type 0 where
  pub strength : D
  pub take_profit_pct : D
  pub stop_loss_pct : D

module _ {D : Type 0} ⦃d : Decimal D⦄ where
  abbrev pub typical : Bar D → D
  typical b = d.div (d.add (d.add b.high b.low) b.close) (d.lit 3 0)

  abbrev pub total_volume : List (Bar D) → D
  total_volume bars = sum_from zero_d (volumes_of bars)

  unfoldable pub session_vwap : List (Bar D) → D
  session_vwap bars =
      if d.eq (total_volume bars) zero_d
      then zero_d
      else d.div (sum_from zero_d (map (λ b. d.mul (typical b) (of_int b.volume)) bars))
          (total_volume bars)

  abbrev pub spread : D → Bar D → D
  spread vwap b =
      let distance = d.sub (typical b) vwap in d.mul (of_int b.volume) (d.mul distance distance)

  unfoldable pub session_vwap_std : (D → D) → List (Bar D) → D → D
  session_vwap_std root bars vwap =
      let variance = d.div (sum_from zero_d (map (spread vwap) bars)) (total_volume bars) in
      if d.eq (total_volume bars) zero_d
      then zero_d
      else if d.le variance zero_d
      then zero_d
      else root variance

  -- The stop, if it is positive, and else the setting.
  abbrev pub positive_or : D → D → D
  positive_or default stop = if d.lt zero_d stop then stop else default

  unfoldable pub band_entry : VwapMeanReversion D → (close vwap band : D) → Option (Entry D)
  band_entry c close vwap band =
      let upper_band = d.add vwap band in
      let lower_band = d.sub vwap band in
      let excess = d.sub (abs (d.div (d.sub close vwap) vwap)) (d.div band vwap) in
      if d.lt close lower_band
      then some (record {
        strength = buy_strength;
        take_profit_pct = excess;
        stop_loss_pct = positive_or c.stop_loss_pct (d.div (d.sub upper_band close) close);
      })
      else if d.lt upper_band close
      then some (record {
        strength = sell_strength;
        take_profit_pct = excess;
        stop_loss_pct = positive_or c.stop_loss_pct (d.div (d.sub close lower_band) close);
      })
      else none

  unfoldable pub deviation_entry : VwapMeanReversion D → (close vwap : D) → Option (Entry D)
  deviation_entry c close vwap =
      let deviation = d.div (d.sub close vwap) vwap in
      let entry : D → Option (Entry D) = λ strength. some (record {
        strength = strength;
        take_profit_pct = d.sub (abs deviation) c.deviation_pct;
        stop_loss_pct = c.stop_loss_pct;
      }) in
      if d.lt deviation (d.neg c.deviation_pct)
      then entry buy_strength
      else if d.lt c.deviation_pct deviation
      then entry sell_strength
      else none

  abbrev pub submit :
      VwapMeanReversion D → Stamp → D → Option (Entry D) → Result (Option (Signal D))
  submit c stamp close none = ok none
  submit c stamp close (some e) =
      let exits : ExitPcts D = record {
        stop_loss_pct = some e.stop_loss_pct;
        take_profit_pct = if d.le e.take_profit_pct zero_d then none else some e.take_profit_pct;
      } in
      emit c.sleeve stamp close exits (some e.strength)

-- `root` is `math.sqrt`.
module _ {D : Type 0} ⦃d : Decimal D⦄ (root : D → D) where
  abbrev pub entry : VwapMeanReversion D → List (Bar D) → (close : D) → Option (Entry D)
  entry c session_bars close =
      let vwap = session_vwap session_bars in
      elim c.std_mult [
        | none ↦ deviation_entry c close vwap
        | some mult ↦
            let std = session_vwap_std root session_bars vwap in
            if d.eq std zero_d then none else band_entry c close vwap (d.mul mult std)
      ]

  unfoldable pub on_bars :
      Zone → VwapMeanReversion D → Stamp → List (Bar D) → Result (Option (Signal D))
  unfolding session_vwap session_vwap_std band_entry deviation_entry emit get_session_bars
  on_bars et c stamp [] = err index_error
  on_bars et c stamp (first ∷ rest) =
      let last_bar = last_or first rest in
      let session_bars = get_session_bars et (first ∷ rest) (date_of_bar et last_bar) in
      if ltb (length session_bars) bars_needed
      then ok none
      else if d.eq (session_vwap session_bars) zero_d
      then ok none
      else submit c stamp last_bar.close (entry c session_bars last_bar.close)
