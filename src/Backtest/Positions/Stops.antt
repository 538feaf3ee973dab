-- ===== src/Backtest/Positions/Stops.antt =====
-- services/backtesting/memory_cache.py beside domain/repositories/position_repository.py: which symbols cool down
-- after positions have been closed.
use crypto_mas.Domain.{is_opened, is_stop_loss, CloseReason, Position}
use crypto_mas.Numbers.{Numerics}
use crypto_mas.Prelude.{
  ◌≤◌, ltb, suc, refl, ◌<◌, inr, eq_iff, ap, ◌∙◌, ◌+◌, arith, inl, false, ◌&&◌, Bool-cases, str_eq,
  [], filter, sym, leb, some, map, if◌then◌else◌, true, All, length, ◌++◌, Bool, List, ◌≡◌, String,
  ℕ,
}
use mathlib.Core.List.{append-nil, append_assoc}
use crypto_mas.Backtest.Positions.Cooldowns.{
  recent, memory_whipsaw-recent, contains-keys, assign-DistinctKeys, DistinctKeys,
}
use crypto_mas.Backtest.Positions.{
  ◌∷◌, MemoryPositions, memory_whipsaw, memory_close, empty_memory, memory_recent_stop_loss,
  cooling,
}
use crypto_mas.Prelude.Dict.{contains, assign}
use crypto_mas.Backtest.Engine.Log.{find-assign_any}
use crypto_mas.Repository.Positions.{
  is_recent_stop, in_market, of_account, closed_since, get_whipsaw_cooldown_symbols, close_position,
  minutes, get_recent_stop_loss_symbols,
}

contains-filter_by :
    {A : Type 0} (symbol : A → String) (p : String → Bool) (s : String) (xs : List A)
    → contains s (map symbol (filter (λ x. p (symbol x)) xs)) ≡ (p s && contains s (map symbol xs))
contains-filter_by symbol p s [] = ground arith
contains-filter_by symbol p s (x ∷ xs) = elim (Bool-cases (str_eq (symbol x) s)) [
  | inl same ↦
      let e : p (symbol x) ≡ p s = ap p ((eq_iff (symbol x) s).0 same) in
      ground (arith, same, e, contains-filter_by symbol p s xs)
  | inr other ↦ ground (arith, other, contains-filter_by symbol p s xs)
]

contains-map_iff :
    {A : Type 0} (symbol : A → String) (s : String) (xs : List A)
    → contains s (map symbol xs) ≡ leb 1 (length (filter (λ x. str_eq (symbol x) s) xs))
contains-map_iff symbol s [] = ground arith
contains-map_iff symbol s (x ∷ xs) = ground (arith, contains-map_iff symbol s xs)

contains_last :
    {A : Type 0} (p : A → Bool) (symbol : A → String) (xs : List A) (x : A)
    → p x ≡ true
    → contains (symbol x) (map symbol (filter p (xs ++ x ∷ []))) ≡ true
contains_last p symbol [] x h = rw h (ground (arith, (eq_iff (symbol x) (symbol x)).1 refl))
contains_last p symbol (y ∷ xs) x h = ground (arith, contains_last p symbol xs x h)

enough : (k t : ℕ) → 0 < k → (leb k t && leb 1 t) ≡ leb k t
enough k t h = ground arith

&&-false : (b : Bool) → (b && false) ≡ false
&&-false b = ground arith

module _ ⦃n : Numerics⦄ where
  -- A position that is closed: at what price and time, and why.
  pub record Closing : Type 0 where
    pub position : Position
    pub price : n.Decimal
    pub time : ℕ
    pub reason : CloseReason

  abbrev pub memory_after : List Closing → MemoryPositions → MemoryPositions
  memory_after [] m = m
  memory_after (c ∷ cs) m = memory_after cs (memory_close c.position c.price c.time c.reason m).1

  -- The rows of the table that these closings leave.
  abbrev pub closed_row : Closing → Position
  closed_row c = close_position c.position c.price c.time c.reason

  abbrev stop_of : Closing → List (String × ℕ)
  stop_of c = if is_stop_loss (some c.reason) then (c.position.symbol, c.time) ∷ [] else []

  abbrev stops_of : List Closing → List (String × ℕ)
  stops_of [] = []
  stops_of (c ∷ cs) = stop_of c ++ stops_of cs

  history_after :
      (cs : List Closing) (m : MemoryPositions)
      → (memory_after cs m).sl_history ≡ m.sl_history ++ stops_of cs
  unfolding memory_close
  history_after [] m = sym (append-nil m.sl_history)
  history_after (c ∷ cs) m = elim (Bool-cases (is_stop_loss (some c.reason))) [
    | inl k ↦
        history_after cs (memory_close c.position c.price c.time c.reason m).1
        ∙ rw k (append_assoc m.sl_history ((c.position.symbol, c.time) ∷ []) (stops_of cs))
    | inr k ↦ history_after cs (memory_close c.position c.price c.time c.reason m).1 ∙ rw k refl
  ]

  module _ (account exchange : String) (now : ℕ) where
    -- A closing of a position of the market.
    abbrev pub IsHere : Closing → Type 0
    IsHere c = in_market account exchange c.position ≡ true

    closed_row-recent :
        (span : ℕ) (c : Closing)
        → IsHere c
        → is_recent_stop account exchange now span (closed_row c)
          ≡ (is_stop_loss (some c.reason) && leb now (c.time + span))
    unfolding is_recent_stop in_market of_account closed_since close_position
    closed_row-recent span c h = ground arith

    abbrev stops_in : ℕ → String → List Position → ℕ
    stops_in span s ps =
        length
          (filter (λ q. str_eq q.symbol s) (filter (is_recent_stop account exchange now span) ps))

    stops_in-closed :
        (span : ℕ) (s : String) (cs : List Closing)
        → All IsHere cs
        → stops_in span s (map closed_row cs) ≡ recent now span s (stops_of cs)
    unfolding close_position
    stops_in-closed span s [] h = refl
    stops_in-closed span s (c ∷ cs) h = elim (Bool-cases (is_stop_loss (some c.reason))) [
      | inl k ↦
          let at : is_recent_stop account exchange now span (closed_row c)
              ≡ leb now (c.time + span) =
            closed_row-recent span c h.0 ∙ rw k refl in
          let ih = stops_in-closed span s cs h.1 in
          elim (Bool-cases (leb now (c.time + span))) [
            | inr late ↦ rw (at, k, late) (rw (&&-false (str_eq c.position.symbol s)) ih)
            | inl soon ↦ elim (Bool-cases (str_eq c.position.symbol s)) [
              | inl same ↦ rw (at, k, soon, same) (ap suc ih)
              | inr other ↦ rw (at, k, soon, other) ih
            ]
          ]
      | inr k ↦
          let at : is_recent_stop account exchange now span (closed_row c) ≡ false =
            closed_row-recent span c h.0 ∙ rw k refl in
          rw (at, k) (stops_in-closed span s cs h.1)
    ]

    -- Rows that are open count nothing.
    stops_in-open :
        (span : ℕ) (os ps : List Position)
        → All (λ p. is_opened p.status ≡ true) os
        → filter (is_recent_stop account exchange now span) (os ++ ps)
          ≡ filter (is_recent_stop account exchange now span) ps
    unfolding is_recent_stop
    stops_in-open span [] ps h = refl
    stops_in-open span (o ∷ os) ps h =
        let none_here : is_recent_stop account exchange now span o ≡ false = ground (arith, h.0) in
        rw none_here (stops_in-open span os ps h.1)

    -- From an empty cache, after any closings of positions of one market, and for at least one stop, the cache lists
    -- the same symbols of a whipsaw as the query of the table, where the table holds the same closings and any
    -- positions that are open: the last, on the rows, is what the first, on a history of its own, refines.
    pub memory_whipsaw-refines :
        (stops cooldown : ℕ) (s : String) (os : List Position) (cs : List Closing)
        → 0 < stops
        → All (λ p. is_opened p.status ≡ true) os
        → All IsHere cs
        → contains s (memory_whipsaw now stops cooldown (memory_after cs empty_memory))
          ≡ contains s (
              get_whipsaw_cooldown_symbols account exchange now stops cooldown
                (os ++ map closed_row cs))
    unfolding get_whipsaw_cooldown_symbols empty_memory
    memory_whipsaw-refines stops cooldown s os cs h o c =
        let span = minutes cooldown in
        let found = filter (is_recent_stop account exchange now span) (map closed_row cs) in
        let e = stops_in-closed span s cs c in
        memory_whipsaw-recent now stops cooldown s (memory_after cs empty_memory) h
        ∙ rw (history_after cs empty_memory, stops_in-open span os (map closed_row cs) o)
            (sym (
              contains-filter_by (λ p. p.symbol)
                (λ t. leb stops (length (filter (λ q. str_eq q.symbol t) found))) s found
              ∙ rw (contains-map_iff (λ p. p.symbol) s found, e)
                  (enough stops (recent now span s (stops_of cs)) h)))

    -- The argument `cooldown_minutes` of the cache is not used: of a position that a stop closes, the symbol is free
    -- again after 30 minutes there, whatever cooldown is asked for, while the query of the table still lists it. This
    -- holds for any cache whose dictionary has each key once, and any other rows of the table.
    pub memory_recent_stop_loss-early :
        (cooldown : ℕ) (c : Closing) (m : MemoryPositions) (ps : List Position)
        → IsHere c
        → is_stop_loss (some c.reason) ≡ true
        → DistinctKeys m.sl_cooldowns
        → c.time + minutes 30 ≤ now
        → now ≤ c.time + minutes cooldown
        → (contains c.position.symbol (
              memory_recent_stop_loss now cooldown
                (memory_close c.position c.price c.time c.reason m).1)
            ≡ false)
          × (contains c.position.symbol (
                get_recent_stop_loss_symbols account exchange now cooldown
                  (ps ++ closed_row c ∷ []))
              ≡ true)
    unfolding memory_recent_stop_loss cooling memory_close get_recent_stop_loss_symbols
        close_position
    memory_recent_stop_loss-early cooldown c m ps h k d late soon =
        let s = c.position.symbol in
        let d' = assign-DistinctKeys s (c.time + minutes 30) m.sl_cooldowns d in
        (
          rw k (
              contains-keys (ltb now) s (assign s (c.time + minutes 30) m.sl_cooldowns) d'
              ∙ rw (find-assign_any s s (c.time + minutes 30) m.sl_cooldowns, (eq_iff s s).1 refl)
                  (ground (arith, late))),
          contains_last (is_recent_stop account exchange now (minutes cooldown)) (λ p. p.symbol) ps
              (closed_row c)
              (closed_row-recent (minutes cooldown) c h ∙ rw k (ground (arith, soon))),
        )
