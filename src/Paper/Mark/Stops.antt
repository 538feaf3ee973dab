-- ===== src/Paper/Mark/Stops.antt =====
-- The trailing stop of `update_mark_prices`, over many rounds.
use crypto_mas.Repository.Positions.{update_mark_price}
use crypto_mas.Paper.Calculator.{RiskCalculator}
use crypto_mas.Prelude.{
  ◌∙◌, ap, ◌≡◌, refl, ◌⊎◌, inl, inr, true, some, List, [], ◌∷◌, arith, Bool-cases,
}
use crypto_mas.Numbers.{◌⊕◌, ◌⊖◌, one, ◌⊗◌, Numerics, IsOrdered}
use crypto_mas.Domain.{Position}
use crypto_mas.Paper.Mark.{trail, is_trailed, potential_stop, nearer}

module _ ⦃n : Numerics⦄ where
  is_trailed-nearer :
      (c : RiskCalculator) (p : Position) (price pct sl : n.Decimal)
      → is_trailed c p price pct ≡ true
      → p.stop_loss_price ≡ some sl
      → nearer p (potential_stop p price pct) sl ≡ true
  unfolding is_trailed
  is_trailed-nearer c p price pct sl h e = ground arith

  trail-side :
      (c : RiskCalculator) (p : Position) (price pct : n.Decimal)
      → (trail c p price pct).side ≡ p.side
  unfolding trail
  trail-side c p price pct = ground arith

  -- The rounds that a position lives through: at each, its price is updated and its stop follows.
  pub marks : RiskCalculator → Position → List (n.Decimal × n.Decimal) → Position
  marks c p [] = p
  marks c p ((price, pct) ∷ ticks) = marks c (trail c (update_mark_price p price) price pct) ticks

  module _ (laws : IsOrdered) where
    open laws use {quantize_idem, le_total, le_trans}

    potential_stop-quantize :
        (p : Position) (price pct : n.Decimal)
        → n.quantize (potential_stop p price pct) ≡ potential_stop p price pct
    unfolding potential_stop
    potential_stop-quantize p price pct =
        ground (arith, quantize_idem (price ⊗ (one ⊖ pct)), quantize_idem (price ⊗ (one ⊕ pct)))

    nearer_trans :
        (p : Position) (x y z : n.Decimal)
        → nearer p x y ≡ true
        → nearer p y z ≡ true
        → nearer p x z ≡ true
    nearer_trans p x y z h k = ground (
      arith,
      le_total y z,
      le_trans x z y,
      le_total x y,
      le_trans y x z,
      le_total z y,
      le_trans z x y,
    )

    near_trans :
        (p : Position) (x y z : n.Decimal)
        → (x ≡ y) ⊎ (nearer p x y ≡ true)
        → (y ≡ z) ⊎ (nearer p y z ≡ true)
        → (x ≡ z) ⊎ (nearer p x z ≡ true)
    near_trans p x y z (inl e) (inl k) = inl (e ∙ k)
    near_trans p x y z (inl e) (inr k) = inr (rw e k)
    near_trans p x y z (inr h) (inl k) = inr (rw (← k) h)
    near_trans p x y z (inr h) (inr k) = inr (nearer_trans p x y z h k)

    near_side :
        (p q : Position) (x y : n.Decimal)
        → q.side ≡ p.side
        → (x ≡ y) ⊎ (nearer q x y ≡ true)
        → (x ≡ y) ⊎ (nearer p x y ≡ true)
    near_side p q x y e (inl h) = inl h
    near_side p q x y e (inr h) = inr (ground arith)

    -- What a stop may become: itself, or a price nearer to the market.
    abbrev pub Ratchets : Position → n.Decimal → Position → Type 0
    Ratchets p sl q =
        (sl' : n.Decimal) × (q.stop_loss_price ≡ some sl') × ((sl' ≡ sl) ⊎ (nearer p sl' sl ≡ true))

    -- A stop that moves becomes the potential stop, which is nearer to the market.
    trail-Ratchets :
        (c : RiskCalculator) (p : Position) (price pct sl : n.Decimal)
        → p.stop_loss_price ≡ some sl
        → Ratchets p sl (trail c p price pct)
    unfolding trail
    trail-Ratchets c p price pct sl e = elim (Bool-cases (is_trailed c p price pct)) [
      | inl moved ↦ (
        potential_stop p price pct,
        rw moved (ap some (potential_stop-quantize p price pct)),
        inr (is_trailed-nearer c p price pct sl moved e),
      )
      | inr stays ↦ (sl, rw stays e, inl refl)
    ]

    -- After any number of rounds on a position that stays open, at whatever prices and distances, its
    -- stop is where it was or nearer to the market: higher for a long position, lower for a short one.
    pub stop_ratchet :
        (c : RiskCalculator) (ticks : List (n.Decimal × n.Decimal)) (p : Position) (sl : n.Decimal)
        → p.stop_loss_price ≡ some sl
        → Ratchets p sl (marks c p ticks)
    unfolding marks update_mark_price
    stop_ratchet c [] p sl e = (sl, e, inl refl)
    stop_ratchet c ((price, pct) ∷ ticks) p sl e =
        let q = update_mark_price p price in
        let (mid, at_mid, near) = trail-Ratchets c q price pct sl e in
        let (end, at_end, nearer_end) = stop_ratchet c ticks (trail c q price pct) mid at_mid in
        let same_side = trail-side c q price pct in
        (
          end,
          at_end,
          near_trans p end mid sl (near_side p (trail c q price pct) end mid same_side nearer_end)
              near,
        )
