-- ===== src/MarketData/Integrity/Quality.antt =====
-- One candle: what the checks of its prices, volumes and bounds say of it.
use crypto_mas.Prelude.{
  append-nil_inv, ◌<◌, ◌≡◌, ◌↔◌, refl, inl, inr, true, false, some, List, [], ◌∷◌, arith, All,
  Option-cases,
}
use crypto_mas.Numbers.{Numerics, IsOrdered, ◌≤?◌, ◌<?◌, nought, greater, lesser}
use crypto_mas.MarketData.Schemas.{OhlcvCandle}
use crypto_mas.MarketData.Integrity.{
  IntegrityIssue, ohlc_issues, volume_issues, bounds_issues, check_each,
}

module _ ⦃n : Numerics⦄ where
  -- A candle that can have been traded.
  pub record IsGood (c : OhlcvCandle) : Type 0 where
    pub positive :
        (c.opening ≤? nought ≡ false)
        × (c.high ≤? nought ≡ false)
        × (c.low ≤? nought ≡ false)
        × (c.close ≤? nought ≡ false)
    pub under_high :
        (c.opening ≤? c.high ≡ true) × (c.close ≤? c.high ≡ true) × (c.low ≤? c.high ≡ true)
    pub over_low : (c.low ≤? c.opening ≡ true) × (c.low ≤? c.close ≡ true)
    pub volume : nought ≤? c.volume ≡ true
    pub quote_volume : (q : n.Decimal) → c.quote_volume ≡ some q → nought ≤? q ≡ true
    pub bounds : c.open_time < c.close_time

  module _ (laws : IsOrdered) where
    open laws use {le_total, le_trans}

    -- `high < max(opening, close, low)` fails just where the three are at most `high`.
    high_test :
        (o h l x : n.Decimal)
        → (h <? greater (greater o x) l ≡ false)
          ↔ ((o ≤? h ≡ true) × (x ≤? h ≡ true) × (l ≤? h ≡ true))
    high_test o h l x = ground (
      arith,
      le_total o x,
      le_total x l,
      le_total o l,
      le_total h o,
      le_total h x,
      le_total h l,
      le_trans o x h,
      le_trans x o h,
      le_trans l x h,
      le_trans x l h,
      le_trans o l h,
      le_trans l o h,
    )

    -- `low > min(opening, close, high)` fails just where `low` is at most the three.
    low_test :
        (o h l x : n.Decimal)
        → (lesser (lesser o x) h <? l ≡ false)
          ↔ ((l ≤? o ≡ true) × (l ≤? x ≡ true) × (l ≤? h ≡ true))
    low_test o h l x = ground (
      arith,
      le_total o x,
      le_total x h,
      le_total o h,
      le_total l o,
      le_total l x,
      le_total l h,
      le_trans l o x,
      le_trans l x o,
      le_trans l h x,
      le_trans l x h,
      le_trans l o h,
      le_trans l h o,
    )

    ohlc_test :
        (c : OhlcvCandle)
        → (ohlc_issues c ≡ []) ↔ (
            (c.opening ≤? nought ≡ false)
            × (c.high ≤? nought ≡ false)
            × (c.low ≤? nought ≡ false)
            × (c.close ≤? nought ≡ false)
            × (c.high <? greater (greater c.opening c.close) c.low ≡ false)
            × (lesser (lesser c.opening c.close) c.high <? c.low ≡ false))
    unfolding ohlc_issues
    ohlc_test c = (λ h. ground arith, λ h. ground arith)

    volume_test :
        (c : OhlcvCandle)
        → (volume_issues c ≡ []) ↔ (
            (nought ≤? c.volume ≡ true)
            × ((q : n.Decimal) → c.quote_volume ≡ some q → nought ≤? q ≡ true))
    unfolding volume_issues
    volume_test c = (
      λ h. (ground arith, λ q e. ground arith),
      λ h. elim (Option-cases c.quote_volume) [
        | inl e ↦ ground arith
        | inr (q, e) ↦ ground (arith, h.1 q)
      ],
    )

    bounds_test : (c : OhlcvCandle) → (bounds_issues c ≡ []) ↔ (c.open_time < c.close_time)
    unfolding bounds_issues
    bounds_test c = ground arith

    IsGood-iff :
        (c : OhlcvCandle)
        → IsGood c ↔ ((ohlc_issues c ≡ []) × (volume_issues c ≡ []) × (bounds_issues c ≡ []))
    IsGood-iff c = (
      λ g. (
        (ohlc_test c).1 (
          g.positive.0,
          g.positive.1,
          g.positive.2,
          g.positive.3,
          (high_test c.opening c.high c.low c.close).1 g.under_high,
          (low_test c.opening c.high c.low c.close).1 (g.over_low.0, g.over_low.1, g.under_high.2),
        ),
        (volume_test c).1 (g.volume, g.quote_volume),
        (bounds_test c).1 g.bounds,
      ),
      λ t.
          let prices = (ohlc_test c).0 t.0 in
          let high = (high_test c.opening c.high c.low c.close).0 prices.4 in
          let low = (low_test c.opening c.high c.low c.close).0 prices.5 in
          let volumes = (volume_test c).0 t.1 in
          record {
            positive = (prices.0, prices.1, prices.2, prices.3);
            under_high = high;
            over_low = (low.0, low.1);
            volume = volumes.0;
            quote_volume = volumes.1;
            bounds = (bounds_test c).0 t.2;
          },
    )

    check_each-All :
        (check : OhlcvCandle → List IntegrityIssue) (cs : List OhlcvCandle)
        → (check_each check cs ≡ []) ↔ All (λ c. check c ≡ []) cs
    unfolding check_each
    check_each-All check [] = (λ h. tt, λ h. refl)
    check_each-All check (c ∷ cs) =
        let rest = check_each-All check cs in
        (
          (λ h. let (x, y) = append-nil_inv (check c) (check_each check cs) h in (x, rest.0 y)),
          (λ h. rw (h.0, rest.1 h.1)),
        )

    pub All-IsGood :
        (cs : List OhlcvCandle)
        → All IsGood cs ↔ (
            (check_each ohlc_issues cs ≡ [])
            × (check_each volume_issues cs ≡ [])
            × (check_each bounds_issues cs ≡ []))
    unfolding check_each
    All-IsGood [] = (λ h. (refl, refl, refl), λ h. tt)
    All-IsGood (c ∷ cs) =
        let rest = All-IsGood cs in
        let here = IsGood-iff c in
        (
          (λ h.
              let x = here.0 h.0 in
              let y = rest.0 h.1 in (rw (x.0, y.0), rw (x.1, y.1), rw (x.2, y.2))),
          (λ h.
              let a = append-nil_inv _ _ h.0 in
              let b = append-nil_inv _ _ h.1 in
              let d = append-nil_inv _ _ h.2 in (here.1 (a.0, b.0, d.0), rest.1 (a.1, b.1, d.1))),
        )
