-- ===== src/Portfolio/Handover.antt =====
-- engine/portfolio/portfolio.py beside services/paper_trading/position_manager.py: what the broker makes of the
-- positions that the target keeps.
use crypto_mas.Portfolio.Results.{retained_as_long}
use crypto_mas.Portfolio.Weights.{build_target_portfolio}
use crypto_mas.Strategy.{TradingDecision}
use crypto_mas.Portfolio.Selection.Candidates.{IsListing}
use crypto_mas.Portfolio.Selection.{retained_symbols, PortfolioEngine, Runtime}
use crypto_mas.Numbers.{Numerics}
use crypto_mas.Prelude.Int.{ℤ}
use crypto_mas.Prelude.Dict.{contains}
use crypto_mas.Prelude.{
  ℕ, String, Bool-cases, ◌⊎◌, str_eq, All, ◌≡◌, List, [], ◌∷◌, inl, inr, refl, true, false,
}
use crypto_mas.Domain.{TargetPosition, long, short, Position}
use crypto_mas.Paper.Close.{find_target, is_kept}

module _ ⦃n : Numerics⦄ where
  not_kept :
      (p : Position) (ts : List TargetPosition)
      → p.side ≡ short
      → All (λ t. (str_eq t.symbol p.symbol ≡ false) ⊎ (t.side ≡ long)) ts
      → is_kept ts p ≡ false
  unfolding is_kept find_target
  not_kept p [] h all = refl
  not_kept p (t ∷ ts) h all = elim (Bool-cases (str_eq t.symbol p.symbol)) [
    | inr q ↦ rw (q, is_kept, find_target) (not_kept p ts h all.1)
    | inl q ↦ elim all.0 [ inl k ↦ absurd (cc) | inr k ↦ rw (q, k, h, is_kept, find_target) refl ]
  ]

  -- An open short position whose symbol the portfolio engine keeps is not kept by the broker: the target
  -- holds the symbol as a long position, and the closing pass compares the sides.
  pub retained_short-dropped :
      (rt : Runtime) (listing : IsListing rt) (e : PortfolioEngine) (ds : List TradingDecision)
      (open_positions : List String) (exchange timeframe : String) (risk_level : ℤ) (now : ℕ)
      (p : Position)
      → p.side ≡ short
      → contains p.symbol (retained_symbols rt ds open_positions) ≡ true
      → is_kept
          (build_target_portfolio rt e exchange timeframe ds open_positions risk_level
            now).target_positions
          p
        ≡ false
  retained_short-dropped rt listing e ds open_positions exchange timeframe risk_level now p h k =
      not_kept p _ h (
        retained_as_long rt listing e ds open_positions exchange timeframe risk_level now p.symbol
          k)
