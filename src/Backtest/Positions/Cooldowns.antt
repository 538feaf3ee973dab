-- ===== src/Backtest/Positions/Cooldowns.antt =====
-- services/backtesting/memory_cache.py beside domain/repositories/position_repository.py: the cooldowns.
use crypto_mas.Backtest.Engine.Log.{find-assign_any}
use crypto_mas.Numbers.{Numerics}
use crypto_mas.Prelude.{
  ap, ◌<◌, suc, ◌&&◌, leb, ◌+◌, subst, length, refl, eq_iff, ◌∙◌, arith, inr, true, inl, none,
  str_eq, [], false, Bool-cases, if◌then◌else◌, Option, ◌≡◌, filter, Bool, String, List, ℕ,
}
use crypto_mas.Backtest.Positions.{
  tally_one, some, ◌∷◌, keys, count_of, tally, MemoryPositions, memory_whipsaw,
}
use crypto_mas.Prelude.Dict.{contains, assign, find, has}
use crypto_mas.Repository.Positions.{minutes}

module _ {ℓ} {A : Type ℓ} where
  -- No key stands twice.
  abbrev pub DistinctKeys : List (String × A) → Type 0
  DistinctKeys [] = Unit
  DistinctKeys (e ∷ es) = (has e.0 es ≡ false) × DistinctKeys es

  has-assign_any :
      (t k : String) (v : A) (d : List (String × A))
      → has t (assign k v d) ≡ (if str_eq k t then true else has t d)
  has-assign_any t k v [] = ground arith
  has-assign_any t k v (e ∷ es) =
      ground (arith, has-assign_any t k v es, eq_iff e.0 k, eq_iff e.0 t, eq_iff k t)

  pub assign-DistinctKeys :
      (k : String) (v : A) (d : List (String × A)) → DistinctKeys d → DistinctKeys (assign k v d)
  assign-DistinctKeys k v [] h = (refl, tt)
  assign-DistinctKeys k v (e ∷ es) h = elim (Bool-cases (str_eq e.0 k)) [
    | inl same ↦ rw same (subst (λ t. has t es ≡ false) ((eq_iff e.0 k).0 same) h.0, h.1)
    | inr other ↦ rw other (
      has-assign_any e.0 k v es ∙ ground (arith, eq_iff e.0 k, eq_iff k e.0, h.0),
      assign-DistinctKeys k v es h.1,
    )
  ]

  abbrev pub holds : (A → Bool) → Option A → Bool
  holds p none = false
  holds p (some a) = p a

  find-none : (s : String) (d : List (String × A)) → has s d ≡ false → find s d ≡ none
  find-none s [] h = refl
  find-none s (e ∷ es) h = ground (arith, find-none s es)

  -- Of a dictionary, the items that pass a test name just the keys whose value passes it.
  pub contains-keys :
      (p : A → Bool) (s : String) (d : List (String × A))
      → DistinctKeys d
      → contains s (keys (filter (λ e. p e.1) d)) ≡ holds p (find s d)
  contains-keys p s [] h = refl
  contains-keys p s (e ∷ es) h = elim (Bool-cases (str_eq e.0 s)) [
    | inr other ↦ elim (Bool-cases (p e.1)) [
      | inl k ↦ rw (other, k, other) (contains-keys p s es h.1)
      | inr k ↦ rw (other, k) (contains-keys p s es h.1)
    ]
    | inl same ↦ elim (Bool-cases (p e.1)) [
      | inl k ↦ rw (k, same, k) refl
      | inr k ↦
          let gone : find s es ≡ none =
            find-none s es (subst (λ t. has t es ≡ false) ((eq_iff e.0 s).0 same) h.0) in
          rw (k, same, k) (contains-keys p s es h.1 ∙ rw gone refl)
    ]
  ]

-- How many of the entries of a history are of the symbol, and within the span.
abbrev pub recent : ℕ → ℕ → String → List (String × ℕ) → ℕ
recent now span s history = length (filter (λ e. str_eq e.0 s && leb now (e.1 + span)) history)

tally_one-DistinctKeys :
    (now span : ℕ) (counts : List (String × ℕ)) (e : String × ℕ)
    → DistinctKeys counts
    → DistinctKeys (tally_one now span counts e)
unfolding tally_one
tally_one-DistinctKeys now span counts (symbol, t) h = elim (Bool-cases (leb now (t + span))) [
  | inl k ↦ rw k (assign-DistinctKeys symbol (suc (count_of (find symbol counts))) counts h)
  | inr k ↦ rw k h
]

tally-DistinctKeys :
    (now span : ℕ) (counts history : List (String × ℕ))
    → DistinctKeys counts
    → DistinctKeys (tally now span counts history)
unfolding tally
tally-DistinctKeys now span counts [] h = h
tally-DistinctKeys now span counts (e ∷ history) h =
    tally-DistinctKeys now span (tally_one now span counts e) history
      (tally_one-DistinctKeys now span counts e h)

tally_one-recent :
    (now span : ℕ) (s : String) (counts : List (String × ℕ)) (e : String × ℕ)
    → count_of (find s (tally_one now span counts e))
      ≡ count_of (find s counts) + recent now span s (e ∷ [])
unfolding tally_one
tally_one-recent now span s counts (symbol, t) = elim (Bool-cases (str_eq symbol s)) [
  | inr other ↦
      ground (arith, other, find-assign_any s symbol (suc (count_of (find symbol counts))) counts)
  | inl same ↦
      let e : symbol ≡ s = (eq_iff symbol s).0 same in
      ground (
        arith,
        same,
        ap (λ k. find k counts) e,
        find-assign_any s symbol (suc (count_of (find symbol counts))) counts,
      )
]

pub recent-cons :
    (now span : ℕ) (s : String) (e : String × ℕ) (history : List (String × ℕ))
    → recent now span s (e ∷ history) ≡ recent now span s (e ∷ []) + recent now span s history
recent-cons now span s e history = ground arith

tally-recent :
    (now span : ℕ) (s : String) (counts history : List (String × ℕ))
    → count_of (find s (tally now span counts history))
      ≡ count_of (find s counts) + recent now span s history
unfolding tally
tally-recent now span s counts [] = omega arith
tally-recent now span s counts (e ∷ history) = omega (
  arith,
  tally-recent now span s (tally_one now span counts e) history,
  tally_one-recent now span s counts e,
  recent-cons now span s e history,
)

holds-leb : (k : ℕ) (o : Option ℕ) → 0 < k → holds (leb k) o ≡ leb k (count_of o)
holds-leb k none h = ground arith
holds-leb k (some c) h = refl

module _ ⦃n : Numerics⦄ where
  -- The symbols with as many stops within the span.
  pub memory_whipsaw-recent :
      (now stops cooldown : ℕ) (s : String) (m : MemoryPositions)
      → 0 < stops
      → contains s (memory_whipsaw now stops cooldown m)
        ≡ leb stops (recent now (minutes cooldown) s m.sl_history)
  unfolding memory_whipsaw
  memory_whipsaw-recent now stops cooldown s m h =
      let d = tally now (minutes cooldown) [] m.sl_history in
      contains-keys (leb stops) s d (tally-DistinctKeys now (minutes cooldown) [] m.sl_history tt)
      ∙ holds-leb stops (find s d) h
      ∙ ap (leb stops) (tally-recent now (minutes cooldown) s [] m.sl_history ∙ omega arith)
