-- ===== src/Portfolio/Selection/Candidates.antt =====
-- engine/portfolio/portfolio.py: which decisions become candidates.
use crypto_mas.Prelude.Dict.Laws.{
  All-contains, contains-to_set, contains-filter, contains-filter_inv,
}
use crypto_mas.Prelude.Dict.{contains, has, to_set}
use crypto_mas.Portfolio.Selection.{
  is_consider, in_group, boost_alpha, is_candidate, is_weaker, boost_memes, close_decisions,
  filter_bear, adjust_in, is_bear, retained_symbols, new_candidates, adjust, sort_candidates,
  PortfolioEngine, Runtime, insert_candidate,
}
use crypto_mas.Strategy.{
  is_consider_long, unknown, high_volatility, sideways, bull_trend, bear_trend, TradingDecision,
  MarketRegime,
}
use crypto_mas.Numbers.{float_lt, Numerics}
use crypto_mas.Prelude.{
  length, not, sym, ◌∙◌, filter-All, All-filter, All-zip, All_of_among, All-map_of, All-map, ◌⊎◌,
  ◌&&◌, Among, Bool-cases, filter, map, String, All, ◌≡◌, arith, List, [], ◌∷◌, some, none, Option,
  inl, inr, refl, true, false, Bool,
}

abbrev pub falls : Option MarketRegime → Bool
falls none = false
falls (some r) = is_bear r

module _ ⦃n : Numerics⦄ where
  open n use {Float, float_lit, float_le}

  -- An adjustment changes the confidence and the reason alone.
  pub record Adjusted (d a : TradingDecision) : Type 0 where
    pub same_symbol : a.symbol ≡ d.symbol
    pub same_action : a.action ≡ d.action
    pub same_score : a.final_score ≡ d.final_score

  adjust_in-Adjusted :
      (e : PortfolioEngine) (r : Option MarketRegime) (d : TradingDecision)
      → Adjusted d (adjust_in e r d)
  unfolding adjust_in filter_bear boost_memes boost_alpha
  adjust_in-Adjusted e none d = ground arith
  adjust_in-Adjusted e (some r) d = ground arith

  pub adjust-Adjusted : (e : PortfolioEngine) (d : TradingDecision) → Adjusted d (adjust e d)
  unfolding adjust
  adjust-Adjusted e d = adjust_in-Adjusted e d.regime d

  -- A decision to buy in a falling market.
  abbrev pub is_bear_long : TradingDecision → Bool
  is_bear_long d = falls d.regime && is_consider_long d.action

  adjust_in_bear :
      (e : PortfolioEngine) (r : Option MarketRegime) (d : TradingDecision)
      → (falls r && is_consider_long d.action) ≡ true
      → in_group e "TOP10" d ≡ false
      → (adjust_in e r d).confidence ≡ float_lit 0 0
  unfolding adjust_in filter_bear boost_memes boost_alpha
  adjust_in_bear e (some bear_trend) d h k = rw (h, k)
  adjust_in_bear e (some bull_trend) d h k = cc
  adjust_in_bear e (some sideways) d h k = cc
  adjust_in_bear e (some high_volatility) d h k = cc
  adjust_in_bear e (some unknown) d h k = cc
  adjust_in_bear e none d h k = cc

  pub adjust_bear :
      (e : PortfolioEngine) (d : TradingDecision)
      → is_bear_long d ≡ true
      → in_group e "TOP10" d ≡ false
      → (adjust e d).confidence ≡ float_lit 0 0
  unfolding adjust
  adjust_bear e d h k = adjust_in_bear e d.regime d h k

  All-insert_candidate {κ} :
      (P : TradingDecision → Type κ) (d : TradingDecision) (cs : List TradingDecision)
      → P d
      → All P cs
      → All P (insert_candidate d cs)
  unfolding insert_candidate
  All-insert_candidate P d [] h hs = (h, tt)
  All-insert_candidate P d (c ∷ cs) h hs = elim (Bool-cases (is_weaker d c)) [
    | inl w ↦ rw w (hs.0, All-insert_candidate P d cs h hs.1)
    | inr w ↦ rw w (h, hs)
  ]

  All-sort_candidates {κ} :
      (P : TradingDecision → Type κ) (cs : List TradingDecision)
      → All P cs
      → All P (sort_candidates cs)
  unfolding sort_candidates
  All-sort_candidates P [] h = tt
  All-sort_candidates P (c ∷ cs) h =
      All-insert_candidate P c (sort_candidates cs) h.0 (All-sort_candidates P cs h.1)

  -- What a candidate is made of: a decision of the list, adjusted, that passes the tests.
  abbrev pub Comes : PortfolioEngine → List String → List TradingDecision → TradingDecision → Type 0
  Comes e retained ds c =
      (d : TradingDecision) × Among d ds × (c ≡ adjust e d) × (is_candidate e retained c ≡ true)

  pub candidate_tests :
      (e : PortfolioEngine) (retained : List String) (c : TradingDecision)
      → is_candidate e retained c ≡ true
      → (is_consider c.action ≡ true)
        × (float_le e.min_confidence c.confidence ≡ true)
        × (float_lt (float_lit 0 0) c.final_score ≡ true)
        × (contains c.symbol retained ≡ false)
  unfolding is_candidate
  candidate_tests e retained c h = ground arith

  pub All-new_candidates :
      (e : PortfolioEngine) (retained : List String) (ds : List TradingDecision)
      → All (Comes e retained ds) (new_candidates e retained ds)
  unfolding new_candidates
  All-new_candidates e retained ds =
      let cs = map (adjust e) ds in
      let from : All (λ c. (d : TradingDecision) × Among d ds × (c ≡ adjust e d)) cs =
        All-map (λ c. (d : TradingDecision) × Among d ds × (c ≡ adjust e d)) (adjust e) ds
          (All_of_among _ ds (λ d m. (d, m, refl))) in
      All-sort_candidates (Comes e retained ds) (filter (is_candidate e retained) cs) (
        All-map_of _ (Comes e retained ds) (filter (is_candidate e retained) cs)
          (λ c h. (h.0.0, h.0.1, h.0.2, h.1))
          (All-zip _ _ (filter (is_candidate e retained) cs)
            (All-filter _ (is_candidate e retained) cs from)
            (filter-All (is_candidate e retained) cs)))

  -- What is relied on of the order in which a set lists its members.
  pub record IsListing (rt : Runtime) : Type 0 where
    pub same_members : (s : String) (xs : List String) → contains s (rt.arrange xs) ≡ contains s xs
    pub same_length : (xs : List String) → length (rt.arrange xs) ≡ length xs

  -- A symbol that stays is open, and no decision closes it.
  abbrev pub Stays : List TradingDecision → List String → String → Type 0
  Stays ds open_positions s =
      (contains s open_positions ≡ true) × (has s (close_decisions ds) ≡ false)

  pub All-retained_symbols :
      (rt : Runtime)
      → IsListing rt
      → (ds : List TradingDecision) (open_positions : List String)
      → All (Stays ds open_positions) (retained_symbols rt ds open_positions)
  unfolding retained_symbols
  All-retained_symbols rt listing ds open_positions =
      let kept = filter (λ s. not (has s (close_decisions ds))) (to_set open_positions) in
      All-map_of (λ s. contains s (rt.arrange kept) ≡ true) (Stays ds open_positions)
        (rt.arrange kept)
        (λ s h.
          let inv =
            contains-filter_inv s (λ t. not (has t (close_decisions ds))) (to_set open_positions)
              (sym (listing.same_members s kept) ∙ h) in
          (sym (contains-to_set s open_positions) ∙ inv.0, ground (arith, inv.1)))
        (All-contains (rt.arrange kept))

  -- An open symbol stays, or a decision closes it.
  pub retained_or_closed :
      (rt : Runtime)
      → IsListing rt
      → (ds : List TradingDecision) (open_positions : List String) (s : String)
      → contains s open_positions ≡ true
      → (contains s (retained_symbols rt ds open_positions) ≡ true)
        ⊎ (has s (close_decisions ds) ≡ true)
  unfolding retained_symbols
  retained_or_closed rt listing ds open_positions s h =
      elim (Bool-cases (has s (close_decisions ds))) [
        | inl k ↦ inr k
        | inr k ↦ inl (
            listing.same_members s _
            ∙ contains-filter s (λ t. not (has t (close_decisions ds))) (to_set open_positions)
                (contains-to_set s open_positions ∙ h) (rw k))
      ]
