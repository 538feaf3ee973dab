-- ===== src/Portfolio/Replacement.antt =====
-- engine/portfolio/portfolio.py, `PortfolioEngine.build_target_portfolio`: the slots, and the replacement of
-- weak open positions by stronger candidates.
pub mod Swaps
pub mod Chosen
use crypto_mas.Prelude.Dict.{assign, find, contains, has, update, to_set, remove}
use crypto_mas.Prelude.{
  ℕ, ◌-◌, Bool, true, false, not, ◌&&◌, Option, none, some, List, [], ◌∷◌, ◌++◌, map, String,
  str_append, leb, if◌then◌else◌, take, drop, length,
}
use crypto_mas.Numbers.{Numerics, float_lt}
use crypto_mas.Strategy.{TradingDecision}
use crypto_mas.Portfolio.Selection.{
  is_empty, Runtime, PortfolioEngine, adjust, by_symbol_from, close_decisions, retained_symbols,
  new_candidates,
}

module _ ⦃n : Numerics⦄ where
  open n use {Float, float_lit, float_add, float_mul}

  -- The variables of the replacement loop but for the scores.
  pub record Selection : Type 0 where
    pub retained : List String
    pub selected_new : List TradingDecision
    pub closes : List (String × TradingDecision)
    pub replacement_close_reasons : List (String × String)

  pub strength : TradingDecision → Float
  strength d = float_mul d.final_score d.confidence

  score_of : List (String × TradingDecision) → String → Float
  unfolding strength
  score_of index s = elim (find s index) [ none ↦ float_lit 15 2 | some d ↦ strength d ]

  -- `retained_scores.sort(key=lambda x: x[1])`, which is stable.
  pub insert_score : String × Float → List (String × Float) → List (String × Float)
  insert_score x [] = x ∷ []
  insert_score x (y ∷ ys) =
      let later = insert_score x ys in if float_lt y.1 x.1 then y ∷ later else x ∷ y ∷ ys

  pub sort_scores : List (String × Float) → List (String × Float)
  unfolding insert_score
  sort_scores [] = []
  sort_scores (x ∷ xs) = insert_score x (sort_scores xs)

  pub retained_scores : List TradingDecision → List String → List (String × Float)
  unfolding score_of sort_scores
  retained_scores ds retained =
      sort_scores (map (λ s. (s, score_of (by_symbol_from [] ds) s)) retained)

  pub replacement_msg : Runtime → TradingDecision → Float → String
  unfolding strength
  replacement_msg rt c weakest_score = str_append "REPLACED_BY_STRONGER_SIGNAL: Replaced by " (
      str_append c.symbol (
        str_append " (Score: " (
          str_append (rt.two_places (strength c))
            (str_append " vs " (str_append (rt.two_places weakest_score) ")")))))

  -- What the loop does when a candidate is stronger than the weakest retained position by the margin.
  pub replace : Runtime → TradingDecision → String × Float → Selection → Selection
  unfolding replacement_msg
  replace rt c weakest s = record {
    retained = remove weakest.0 s.retained;
    selected_new = s.selected_new ++ c ∷ [];
    closes = assign weakest.0 c s.closes;
    replacement_close_reasons =
        assign weakest.0 (replacement_msg rt c weakest.1) s.replacement_close_reasons;
  }

  pub replace_weakest :
      Runtime → List TradingDecision → List (String × Float) → Selection → Selection
  unfolding replace strength
  replace_weakest rt [] scores s = s
  replace_weakest rt (c ∷ cs) [] s = s
  replace_weakest rt (c ∷ cs) (weakest ∷ scores) s =
      elim (float_lt (float_add weakest.1 (float_lit 10 2)) (strength c)) [
        | true ↦ replace_weakest rt cs scores (replace rt c weakest s)
        | false ↦ replace_weakest rt cs (weakest ∷ scores) s
      ]

  -- The candidates that find a slot.
  pub fill_slots :
      PortfolioEngine
      → List TradingDecision
      → List String
      → List (String × TradingDecision)
      → Selection
  fill_slots e candidates retained closes = record {
    retained = retained;
    selected_new = take (e.max_positions - length retained) candidates;
    closes = closes;
    replacement_close_reasons = [];
  }

  pub replace_remaining :
      Runtime
      → PortfolioEngine
      → List TradingDecision
      → List TradingDecision
      → Selection
      → Selection
  unfolding replace_weakest retained_scores
  replace_remaining rt e adjusted remaining s =
      if not (is_empty remaining) && leb e.max_positions (length s.retained)
      then replace_weakest rt remaining (retained_scores adjusted s.retained) s
      else s

  -- The first half of the method: what is kept, what is taken, and what is closed.
  unfoldable pub select : Runtime → PortfolioEngine → List TradingDecision → List String → Selection
  unfolding fill_slots replace_remaining
  select rt e ds open_positions =
      let retained = retained_symbols rt ds open_positions in
      let candidates = new_candidates e retained ds in
      replace_remaining rt e (map (adjust e) ds)
        (drop (e.max_positions - length retained) candidates)
        (fill_slots e candidates retained (close_decisions ds))

  -- `all_close_reasons`
  unfoldable pub all_close_reasons : Selection → List (String × String)
  all_close_reasons s = update (map (λ c. (c.0, c.1.reason)) s.closes) s.replacement_close_reasons
