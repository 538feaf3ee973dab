-- ===== src/Portfolio/Selection.antt =====
-- engine/portfolio/portfolio.py, `PortfolioEngine.build_target_portfolio`: which open positions are kept and
-- which candidates are taken. The groups are those of infrastructure/config/settings.py.
pub mod Candidates
use crypto_mas.Prelude.Dict.{assign, find, contains, has, update, to_set, remove}
use crypto_mas.Prelude.{
  ℕ, ◌-◌, Bool, true, false, not, ◌&&◌, ◌||◌, Option, none, some, List, [], ◌∷◌, ◌++◌, map, String,
  str_append, leb, if◌then◌else◌, filter, take, drop, length,
}
use crypto_mas.Numbers.{Numerics, float_lt, float_min}
use crypto_mas.Strategy.{
  MarketRegime, bull_trend, bear_trend, sideways, is_consider, is_consider_long, is_close,
  TradingDecision,
}

abbrev pub is_bull : MarketRegime → Bool
is_bull bull_trend = true
is_bull _ = false

abbrev pub is_bear : MarketRegime → Bool
is_bear bear_trend = true
is_bear _ = false

abbrev pub is_sideways : MarketRegime → Bool
is_sideways sideways = true
is_sideways _ = false

-- `not xs`, of a list or a set.
abbrev pub is_empty {ℓ} : {A : Type ℓ} → List A → Bool
is_empty [] = true
is_empty (x ∷ xs) = false

abbrev pub default_btc_correlated : List String
default_btc_correlated = "BTCUSDT" ∷ "ETHUSDT" ∷ "BNBUSDT" ∷ "SOLUSDT" ∷ "AVAXUSDT" ∷ []

abbrev pub default_coin_groups : List (String × List String)
default_coin_groups =
    (
      "TOP10",
      "BTCUSDT" ∷ "ETHUSDT" ∷ "SOLUSDT" ∷ "BNBUSDT" ∷ "XRPUSDT" ∷ "LINKUSDT" ∷ "ADAUSDT"
          ∷ "AVAXUSDT" ∷ "DOGEUSDT" ∷ "DOTUSDT" ∷ [],
    )
    ∷ ("MEMES", "DOGEUSDT" ∷ "SHIBUSDT" ∷ "FLOKIUSDT" ∷ "PEPEUSDT" ∷ "BONKUSDT" ∷ "WIFUSDT" ∷ [])
    ∷ (
      "L1",
      "SOLUSDT" ∷ "ADAUSDT" ∷ "AVAXUSDT" ∷ "NEARUSDT" ∷ "FTMUSDT" ∷ "APTUSDT" ∷ "SUIUSDT"
          ∷ "INJUSDT" ∷ [],
    )
    ∷ ("AI_HYPE", "INJUSDT" ∷ "RNDRUSDT" ∷ "FETUSDT" ∷ "OCEANUSDT" ∷ "AGIXUSDT" ∷ "TAOUSDT" ∷ [])
    ∷ []

module _ ⦃n : Numerics⦄ where
  open n use {Float, float_lit, float_add, float_mul, float_le}

  -- What is the interpreter's: the order in which a set lists its members, which `remove` does not
  -- change, and the format `:.2f`.
  pub record Runtime : Type 0 where
    pub arrange : List String → List String
    pub two_places : Float → String

  pub record PortfolioEngine : Type 0 where
    pub max_positions : ℕ
    pub max_gross_exposure : Float
    pub min_confidence : Float
    pub max_correlated_group_weight : Float
    pub coin_groups : List (String × List String)
    pub btc_correlated_symbols : List String

  unfoldable pub group : PortfolioEngine → String → List String
  group e name = elim (find name e.coin_groups) [ none ↦ [] | some symbols ↦ symbols ]

  abbrev pub in_group : PortfolioEngine → String → TradingDecision → Bool
  in_group e name d = contains d.symbol (group e name)

  -- The three adjustments, in the order of the source.
  filter_bear : PortfolioEngine → MarketRegime → TradingDecision → TradingDecision
  filter_bear e r d =
      if is_bear r && is_consider_long d.action && not (in_group e "TOP10" d)
      then record d {
        confidence = float_lit 0 0;
        reason = str_append "[Filtered] Non-TOP10 Long in BEAR: " d.reason;
      }
      else d

  boost_memes : PortfolioEngine → MarketRegime → TradingDecision → TradingDecision
  boost_memes e r d =
      if is_bull r && in_group e "MEMES" d
      then record d {
        confidence = float_min (float_lit 99 2) (float_add d.confidence (float_lit 15 2));
        reason = str_append "[MEME Boost] " d.reason;
      }
      else d

  boost_alpha : PortfolioEngine → MarketRegime → TradingDecision → TradingDecision
  boost_alpha e r d =
      if is_sideways r && (in_group e "AI_HYPE" d || in_group e "L1" d)
      then record d {
        confidence = float_min (float_lit 99 2) (float_add d.confidence (float_lit 10 2));
        reason = str_append "[Alpha Boost] " d.reason;
      }
      else d

  adjust_in : PortfolioEngine → Option MarketRegime → TradingDecision → TradingDecision
  unfolding filter_bear boost_memes boost_alpha
  adjust_in e none d = d
  adjust_in e (some r) d = boost_alpha e r (boost_memes e r (filter_bear e r d))

  pub adjust : PortfolioEngine → TradingDecision → TradingDecision
  unfolding adjust_in
  adjust e d = adjust_in e d.regime d

  -- A dictionary by symbol, where a later decision replaces an earlier one.
  abbrev pub by_symbol_from :
      List (String × TradingDecision) → List TradingDecision → List (String × TradingDecision)
  by_symbol_from index [] = index
  by_symbol_from index (d ∷ ds) = by_symbol_from (assign d.symbol d index) ds

  pub close_decisions : List TradingDecision → List (String × TradingDecision)
  close_decisions ds = by_symbol_from [] (filter (λ d. is_close d.action) ds)

  unfoldable pub retained_symbols : Runtime → List TradingDecision → List String → List String
  unfolding close_decisions
  retained_symbols rt ds open_positions =
      rt.arrange (filter (λ s. not (has s (close_decisions ds))) (to_set open_positions))

  pub is_candidate : PortfolioEngine → List String → TradingDecision → Bool
  is_candidate e retained d =
      is_consider d.action
      && (float_le e.min_confidence d.confidence
          && (float_lt (float_lit 0 0) d.final_score && not (contains d.symbol retained)))

  -- `(a.confidence, a.score.final_score) < (b.confidence, b.score.final_score)`
  pub is_weaker : TradingDecision → TradingDecision → Bool
  is_weaker a b =
      if float_le a.confidence b.confidence && float_le b.confidence a.confidence
      then float_lt a.final_score b.final_score
      else float_lt a.confidence b.confidence

  -- `sorted(..., reverse=True)`: the strongest first, and equal ones in the order they came.
  pub insert_candidate : TradingDecision → List TradingDecision → List TradingDecision
  unfolding is_weaker
  insert_candidate d [] = d ∷ []
  insert_candidate d (c ∷ cs) =
      let later = insert_candidate d cs in if is_weaker d c then c ∷ later else d ∷ c ∷ cs

  pub sort_candidates : List TradingDecision → List TradingDecision
  unfolding insert_candidate
  sort_candidates [] = []
  sort_candidates (d ∷ ds) = insert_candidate d (sort_candidates ds)

  unfoldable pub new_candidates :
      PortfolioEngine → List String → List TradingDecision → List TradingDecision
  unfolding adjust is_candidate sort_candidates
  new_candidates e retained ds =
      sort_candidates (filter (is_candidate e retained) (map (adjust e) ds))
