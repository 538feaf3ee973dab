-- ===== src/Portfolio/Replacement/Swaps.antt =====
-- engine/portfolio/portfolio.py: what the replacement loop keeps.
use crypto_mas.Strategy.{TradingDecision}
use crypto_mas.Portfolio.Selection.{by_symbol_from, Runtime}
use crypto_mas.Portfolio.Replacement.{
  strength, score_of, sort_scores, retained_scores, replace_weakest, Selection, insert_score,
  replace,
}
use crypto_mas.Numbers.{float_lt, Numerics}
use crypto_mas.Prelude.Dict.{contains, has, remove}
use crypto_mas.Prelude.Dict.Laws.{
  has-assign_self, has-assign, count, contains_of_count, contains-remove, length-remove,
  count-remove, All-remove, str_eq_refl,
}
use crypto_mas.Prelude.{
  length, map, All-append, eq_iff, ◌⊎◌, length-append, ap, All, ◌+◌, Bool-cases, ◌∙◌, String, ◌≡◌,
  arith, List, [], ◌∷◌, inl, inr, refl, true,
}

module _ ⦃n : Numerics⦄ where
  open n use {Float, float_lit, float_add}

  abbrev pub names : List (String × Float) → List String
  names xs = map (λ x. x.0) xs

  count-insert_score :
      (t : String) (x : String × Float) (ys : List (String × Float))
      → count t (names (insert_score x ys)) ≡ count t (x.0 ∷ names ys)
  unfolding insert_score
  count-insert_score t x [] = refl
  count-insert_score t x (y ∷ ys) = ground (arith, count-insert_score t x ys)

  count-sort_scores :
      (t : String) (xs : List (String × Float))
      → count t (names (sort_scores xs)) ≡ count t (names xs)
  unfolding sort_scores
  count-sort_scores t [] = refl
  count-sort_scores t (x ∷ xs) =
      count-insert_score t x (sort_scores xs) ∙ ground (arith, count-sort_scores t xs)

  names-map : (f : String → Float) (xs : List String) → names (map (λ s. (s, f s)) xs) ≡ xs
  names-map f [] = refl
  names-map f (x ∷ xs) = ap (λ r. x ∷ r) (names-map f xs)

  -- The scores name the positions that are kept, each as often.
  abbrev pub Scored : List (String × Float) → List String → Type 0
  Scored scores retained = (t : String) → count t (names scores) ≡ count t retained

  pub retained_scores-Scored :
      (ds : List TradingDecision) (retained : List String)
      → Scored (retained_scores ds retained) retained
  unfolding retained_scores
  retained_scores-Scored ds retained t =
      let score = score_of (by_symbol_from [] ds) in
      count-sort_scores t (map (λ s. (s, score s)) retained) ∙ rw (names-map score retained)

  weakest_member :
      (w : String × Float) (ws : List (String × Float)) (retained : List String)
      → Scored (w ∷ ws) retained
      → contains w.0 retained ≡ true
  weakest_member w ws retained h =
      contains_of_count w.0 retained (ground (arith, h w.0, str_eq_refl w.0))

  Scored-remove :
      (w : String × Float) (ws : List (String × Float)) (retained : List String)
      → Scored (w ∷ ws) retained
      → Scored ws (remove w.0 retained)
  Scored-remove w ws retained h t =
      ground (arith, h t, count-remove t w.0 retained (weakest_member w ws retained h))

  -- What the loop keeps, from a state to a later one. A symbol may be anything.
  pub record Swapped (s r : Selection) : Type 0 where
    pub same_size :
        length r.retained + length r.selected_new ≡ length s.retained + length s.selected_new
    pub kept :
        (t : String)
        → contains t s.retained ≡ true
        → (contains t r.retained ≡ true) ⊎ (has t r.replacement_close_reasons ≡ true)
    pub reasons :
        (t : String)
        → has t s.replacement_close_reasons ≡ true
        → has t r.replacement_close_reasons ≡ true
    pub closes : (t : String) → has t s.closes ≡ true → has t r.closes ≡ true

  pub Swapped-refl : (s : Selection) → Swapped s s
  Swapped-refl s = record {
    same_size = refl;
    kept = λ t h. inl h;
    reasons = λ t h. h;
    closes = λ t h. h;
  }

  Swapped-trans : (s r q : Selection) → Swapped s r → Swapped r q → Swapped s q
  Swapped-trans s r q a b = record {
    same_size = b.same_size ∙ a.same_size;
    kept = λ t h. elim (a.kept t h) [ inl k ↦ b.kept t k | inr k ↦ inr (b.reasons t k) ];
    reasons = λ t h. b.reasons t (a.reasons t h);
    closes = λ t h. b.closes t (a.closes t h);
  }

  replace-Swapped :
      (rt : Runtime) (c : TradingDecision) (w : String × Float) (s : Selection)
      → contains w.0 s.retained ≡ true
      → Swapped s (replace rt c w s)
  unfolding replace
  replace-Swapped rt c w s h = record {
    same_size =
        omega (arith, length-remove w.0 s.retained h, length-append s.selected_new (c ∷ []));
    kept = λ t k. elim (contains-remove t w.0 s.retained k) [
      | inl e ↦ inr (rw (← (eq_iff w.0 t).0 e) (has-assign_self w.0 _ s.replacement_close_reasons))
      | inr e ↦ inl e
    ];
    reasons = λ t k. has-assign t w.0 _ s.replacement_close_reasons k;
    closes = λ t k. has-assign t w.0 c s.closes k;
  }

  pub replace_weakest-Swapped :
      (rt : Runtime) (cs : List TradingDecision) (scores : List (String × Float)) (s : Selection)
      → Scored scores s.retained
      → Swapped s (replace_weakest rt cs scores s)
  unfolding replace_weakest replace
  replace_weakest-Swapped rt [] scores s h = Swapped-refl s
  replace_weakest-Swapped rt (c ∷ cs) [] s h = Swapped-refl s
  replace_weakest-Swapped rt (c ∷ cs) (w ∷ ws) s h =
      elim (Bool-cases (float_lt (float_add w.1 (float_lit 10 2)) (strength c))) [
        | inl e ↦
            rw (e, replace_weakest)
              (let s' = replace rt c w s in
                Swapped-trans s s' (replace_weakest rt cs ws s')
                  (replace-Swapped rt c w s (weakest_member w ws s.retained h))
                  (replace_weakest-Swapped rt cs ws s' (Scored-remove w ws s.retained h)))
        | inr e ↦ rw (e, replace_weakest) (replace_weakest-Swapped rt cs (w ∷ ws) s h)
      ]

  -- What holds of all that is kept and of all candidates holds of what the loop keeps and takes.
  pub replace_weakest-All {κ μ} :
      (P : String → Type κ) (Q : TradingDecision → Type μ) (rt : Runtime)
      (cs : List TradingDecision) (scores : List (String × Float)) (s : Selection)
      → All Q cs
      → All P s.retained × All Q s.selected_new
      → All P (replace_weakest rt cs scores s).retained
        × All Q (replace_weakest rt cs scores s).selected_new
  unfolding replace_weakest replace
  replace_weakest-All P Q rt [] scores s hs h = h
  replace_weakest-All P Q rt (c ∷ cs) [] s hs h = h
  replace_weakest-All P Q rt (c ∷ cs) (w ∷ ws) s hs h =
      elim (Bool-cases (float_lt (float_add w.1 (float_lit 10 2)) (strength c))) [
        | inl e ↦
            rw (e, replace_weakest)
              (replace_weakest-All P Q rt cs ws (replace rt c w s) hs.1 (
                All-remove P w.0 s.retained h.0,
                All-append Q s.selected_new (c ∷ []) h.1 (hs.0, tt),
              ))
        | inr e ↦ rw (e, replace_weakest) (replace_weakest-All P Q rt cs (w ∷ ws) s hs.1 h)
      ]
