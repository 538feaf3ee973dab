-- ===== src/Portfolio/Replacement/Chosen.antt =====
-- engine/portfolio/portfolio.py: what is kept and taken in all.
use crypto_mas.Portfolio.Replacement.Swaps.{
  Swapped-refl, retained_scores-Scored, replace_weakest-All, replace_weakest-Swapped, Swapped,
}
use crypto_mas.Strategy.{TradingDecision}
use crypto_mas.Portfolio.Selection.{
  adjust, is_empty, close_decisions, new_candidates, retained_symbols, PortfolioEngine, Runtime,
}
use crypto_mas.Portfolio.Replacement.{
  all_close_reasons, replace_remaining, select, fill_slots, Selection,
}
use crypto_mas.Numbers.{Numerics}
use crypto_mas.Prelude.Dict.{contains, has}
use crypto_mas.Prelude.Dict.Laws.{has-update, has-update_right, has-map}
use crypto_mas.Prelude.{
  leb, drop, not, length, map, All-drop, ◌&&◌, length-take, All-take, ◌-◌, min, ◌⊎◌, ap, All, ◌+◌,
  Bool-cases, ◌∙◌, String, ◌≡◌, List, inl, inr, true,
}

module _ ⦃n : Numerics⦄ where
  -- The whole selection: as many as were kept and as found a slot; every symbol that was kept is kept
  -- or replaced; and what it takes are candidates.
  module _ (rt : Runtime) (e : PortfolioEngine) (ds : List TradingDecision)
      (open_positions : List String) where
    abbrev pub kept_at_first : List String
    kept_at_first = retained_symbols rt ds open_positions

    abbrev pub candidates : List TradingDecision
    candidates = new_candidates e kept_at_first ds

    abbrev filled : Selection
    filled = fill_slots e candidates kept_at_first (close_decisions ds)

    pub select-Swapped : Swapped filled (select rt e ds open_positions)
    unfolding select replace_remaining fill_slots
    select-Swapped =
        elim (Bool-cases (
          not (is_empty (drop (e.max_positions - length kept_at_first) candidates))
          && leb e.max_positions (length kept_at_first))) [
            | inl h ↦ rw h (
                replace_weakest-Swapped rt _ _ filled
                  (retained_scores-Scored (map (adjust e) ds) kept_at_first))
            | inr h ↦ rw h (Swapped-refl filled)
          ]

    pub length-select :
        length (select rt e ds open_positions).retained
          + length (select rt e ds open_positions).selected_new
        ≡ length kept_at_first + min (e.max_positions - length kept_at_first) (length candidates)
    unfolding fill_slots
    length-select =
        select-Swapped.same_size
        ∙ ap (λ k. length kept_at_first + k)
            (length-take (e.max_positions - length kept_at_first) candidates)

    pub select-All {κ μ} :
        (P : String → Type κ) (Q : TradingDecision → Type μ)
        → All P kept_at_first
        → All Q candidates
        → All P (select rt e ds open_positions).retained
          × All Q (select rt e ds open_positions).selected_new
    unfolding select replace_remaining fill_slots
    select-All P Q hp hq =
        let slots = e.max_positions - length kept_at_first in
        let first : All P filled.retained × All Q filled.selected_new =
          (hp, All-take Q slots candidates hq) in
        elim (Bool-cases
          (not (is_empty (drop slots candidates)) && leb e.max_positions (length kept_at_first))) [
            | inl h ↦ rw h (
                replace_weakest-All P Q rt (drop slots candidates) _ filled
                  (All-drop Q slots candidates hq) first)
            | inr h ↦ rw h first
          ]

    -- A symbol that was kept at first, or closed by a decision, is kept or has a reason to be closed.
    pub select_accounts :
        (s : String)
        → (contains s kept_at_first ≡ true) ⊎ (has s (close_decisions ds) ≡ true)
        → (contains s (select rt e ds open_positions).retained ≡ true)
          ⊎ (has s (all_close_reasons (select rt e ds open_positions)) ≡ true)
    unfolding fill_slots all_close_reasons
    select_accounts s (inl h) = elim (select-Swapped.kept s h) [
      | inl k ↦ inl k
      | inr k ↦ inr (has-update_right s _ _ k)
    ]
    select_accounts s (inr h) =
        let chosen = select rt e ds open_positions in
        inr (
          has-update s (map (λ c. (c.0, c.1.reason)) chosen.closes) chosen.replacement_close_reasons
            (has-map (λ c. c.1.reason) s chosen.closes ∙ select-Swapped.closes s h))
