-- ===== src/Backtest/Engine/Log.antt =====
-- engine/backtest/engine.py: the log of trades beside the open positions.
use crypto_mas.Prelude.Dict.{assign, find}
use crypto_mas.Prelude.{
  true, subst, ℕ, ◌≡◌, refl, sym, ap, ◌∙◌, false, Option, none, some, List, [], ◌∷◌, ◌++◌, String,
  str_eq, if◌then◌else◌, arith, Bool-cases, eq_iff, inl, inr,
}
use crypto_mas.Numbers.{is_zero, float_lt, Numerics}
use crypto_mas.Backtest.Book.{
  Holding, LoggedTrade, close_holding, BacktestEngine, pop, opening, closing,
}

module _ {ℓ} {A : Type ℓ} where
  pub find-assign_any :
      (t k : String) (v : A) (d : List (String × A))
      → find t (assign k v d) ≡ (if str_eq k t then some v else find t d)
  find-assign_any t k v [] = refl
  find-assign_any t k v (e ∷ es) =
      ground (arith, find-assign_any t k v es, eq_iff e.0 k, eq_iff e.0 t, eq_iff k t)

  pub find-pop :
      (t k : String) (d : List (String × A))
      → find t (pop k d) ≡ (if str_eq k t then none else find t d)
  find-pop t k [] = ground arith
  find-pop t k (e ∷ es) = ground (arith, find-pop t k es, eq_iff e.0 k, eq_iff e.0 t, eq_iff k t)

-- The computation returns, with a result of which the property holds.
abbrev pub Returns {ℓ} : {A : Type ℓ} → (A → Type 0) → Option A → Type 0
Returns P none = ⊥
Returns P (some a) = P a

module _ ⦃n : Numerics⦄ where
  open n use {Float, float_lit, float_add, float_sub, float_mul}

  -- What the log says is open in a symbol: each trade that opens is followed by one that closes, of its
  -- side and quantity, before another opens; and an open position is as its trade says.
  pub data Replays (t : String) : List LoggedTrade → Option Holding → Type 0 where
    nothing : Replays t [] none
    another :
        (ts : List LoggedTrade) {us : List LoggedTrade} {h : Option Holding} (x : LoggedTrade)
        → Replays t ts h
        → str_eq x.symbol t ≡ false
        → us ≡ ts ++ x ∷ []
        → Replays t us h
    opens :
        (ts : List LoggedTrade) {us : List LoggedTrade} {h : Holding} (x : LoggedTrade)
        → Replays t ts none
        → x.kind ≡ opening
        → x.symbol ≡ t
        → x.side ≡ h.side
        → x.quantity ≡ h.quantity
        → x.price ≡ h.entry_price
        → x.fee ≡ h.open_fee
        → us ≡ ts ++ x ∷ []
        → Replays t us (some h)
    closes :
        (ts : List LoggedTrade) {us : List LoggedTrade} (h : Holding) (x : LoggedTrade)
        → Replays t ts (some h)
        → x.kind ≡ closing
        → x.symbol ≡ t
        → x.side ≡ h.side
        → x.quantity ≡ h.quantity
        → us ≡ ts ++ x ∷ []
        → Replays t us none

  -- The open positions are those of the log, none was entered at a price of zero, and the engine started with
  -- a balance above zero.
  pub record Sound (slippage : Float) (e : BacktestEngine) : Type 0 where
    pub faithful : (t : String) → Replays t e.trades (find t e.positions)
    pub priced :
        (t : String) (h : Holding) → find t e.positions ≡ some h → is_zero h.entry_price ≡ false
    pub same_slippage : e.slippage_pct ≡ slippage
    pub funded : float_lt (float_lit 0 0) e.initial_balance ≡ true

  pub close_holding-Sound :
      (slippage : Float) (symbol : String) (h : Holding) (price : Float) (now : ℕ) (reason : String)
      (e : BacktestEngine)
      → find symbol e.positions ≡ some h
      → Sound slippage e
      → Sound slippage (close_holding symbol h price now reason e)
  unfolding close_holding
  close_holding-Sound slippage symbol h price now reason e held s = record {
    faithful = λ t. elim (Bool-cases (str_eq symbol t)) [
      | inl q ↦
          let same : symbol ≡ t = (eq_iff symbol t).0 q in
          let gone : find t (pop symbol e.positions) ≡ none =
            find-pop t symbol e.positions ∙ rw q refl in
          rw gone (
            closes e.trades h _
              (subst (Replays t e.trades) (ap (λ k. find k e.positions) (sym same) ∙ held)
                (s.faithful t))
              refl same refl refl refl)
      | inr q ↦
          let left : find t (pop symbol e.positions) ≡ find t e.positions =
            find-pop t symbol e.positions ∙ rw q refl in
          rw left (another e.trades _ (s.faithful t) q refl)
    ];
    priced = λ t k f. elim (Bool-cases (str_eq symbol t)) [
      | inl q ↦ absurd (cc (f, find-pop t symbol e.positions, q))
      | inr q ↦ s.priced t k (sym (find-pop t symbol e.positions ∙ rw q refl) ∙ f)
    ];
    same_slippage = s.same_slippage;
    funded = s.funded;
  }

  pub open-Sound :
      (slippage balance : Float) (symbol : String) (h : Holding) (x : LoggedTrade)
      (e : BacktestEngine)
      → find symbol e.positions ≡ none
      → x.kind ≡ opening
      → x.symbol ≡ symbol
      → x.side ≡ h.side
      → x.quantity ≡ h.quantity
      → x.price ≡ h.entry_price
      → x.fee ≡ h.open_fee
      → is_zero h.entry_price ≡ false
      → Sound slippage e
      → Sound slippage (record e {
        balance = balance;
        positions = assign symbol h e.positions;
        trades = e.trades ++ x ∷ [];
      })
  open-Sound slippage balance symbol h x e free kind named side quantity price fee entry s =
      record {
        faithful = λ t. elim (Bool-cases (str_eq symbol t)) [
          | inl q ↦
              let same : symbol ≡ t = (eq_iff symbol t).0 q in
              let here : find t (assign symbol h e.positions) ≡ some h =
                find-assign_any t symbol h e.positions ∙ rw q refl in
              rw here (
                opens e.trades x
                  (subst (Replays t e.trades) (ap (λ k. find k e.positions) (sym same) ∙ free)
                    (s.faithful t))
                  kind (named ∙ same) side quantity price fee refl)
          | inr q ↦
              let left : find t (assign symbol h e.positions) ≡ find t e.positions =
                find-assign_any t symbol h e.positions ∙ rw q refl in
              rw left (another e.trades x (s.faithful t) (rw named q) refl)
        ];
        priced = λ t k f. elim (Bool-cases (str_eq symbol t)) [
          | inl q ↦
              let same : some h ≡ some k =
                sym (find-assign_any t symbol h e.positions ∙ rw q refl) ∙ f in
              let same' : h ≡ k = cc in subst (λ z. is_zero z.entry_price ≡ false) same' entry
          | inr q ↦ s.priced t k (sym (find-assign_any t symbol h e.positions ∙ rw q refl) ∙ f)
        ];
        same_slippage = s.same_slippage;
        funded = s.funded;
      }
