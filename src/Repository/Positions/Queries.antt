-- ===== src/Repository/Positions/Queries.antt =====
-- What the queries for open positions find, and how rows that are added or rewritten show in them.
use crypto_mas.Prelude.{
  ==_iff, ◌≢◌, ℕ, ◌≤◌, ◌≡◌, refl, inl, inr, Bool, true, false, ◌&&◌, Option, none, some, List, [],
  ◌∷◌, ◌++◌, String, str_eq, eq_iff, arith, if◌then◌else◌, filter, length, filter-append,
  length-append, Bool-cases, ◌==◌,
}
use crypto_mas.Numbers.{Numerics}
use crypto_mas.Domain.{Position, is_opened}
use crypto_mas.Repository.Positions.{
  is_open_in, in_market, of_account, get_open_position, first, put,
}

module _ ⦃n : Numerics⦄ where
  -- An open position of this account, market and symbol.
  unfoldable pub is_held : String → String → String → Position → Bool
  unfolding is_open_in
  is_held account exchange symbol p = is_open_in account exchange p && str_eq p.symbol symbol

  -- An account holds at most one open position in a symbol of a market.
  abbrev pub OneOpen : List Position → Type 0
  OneOpen ps =
      (account exchange symbol : String) → length (filter (is_held account exchange symbol) ps) ≤ 1

  first-none : {A : Type 0} (xs : List A) → first xs ≡ none → length xs ≡ 0
  first-none [] e = refl
  first-none (x ∷ xs) e = cc

  pub get_open_position-none :
      (account exchange symbol : String) (ps : List Position)
      → get_open_position account exchange symbol ps ≡ none
      → length (filter (is_held account exchange symbol) ps) ≡ 0
  unfolding get_open_position is_held
  get_open_position-none account exchange symbol ps e = first-none _ e

  pub is_held-keys :
      (account exchange symbol : String) (p : Position)
      → is_held account exchange symbol p ≡ true
      → (p.account_name ≡ account) × (p.exchange ≡ exchange) × (p.symbol ≡ symbol)
  unfolding is_held is_open_in
  is_held-keys account exchange symbol p h =
      ground
        (arith, eq_iff p.account_name account, eq_iff p.exchange exchange, eq_iff p.symbol symbol)

  -- A row whose key nothing open has may be added.
  pub OneOpen-append :
      (p : Position) (ps : List Position)
      → OneOpen ps
      → get_open_position p.account_name p.exchange p.symbol ps ≡ none
      → OneOpen (ps ++ p ∷ [])
  OneOpen-append p ps h fresh account exchange symbol =
      let rows = filter (is_held account exchange symbol) ps in
      rw (filter-append (is_held account exchange symbol) ps (p ∷ []))
        (elim (Bool-cases (is_held account exchange symbol p)) [
          | inl held ↦
              let keys = is_held-keys account exchange symbol p held in
              let none_held =
                get_open_position-none account exchange symbol ps
                  (rw (← keys.0, ← keys.1, ← keys.2) fresh) in
              rw held (omega (arith, length-append rows (p ∷ []), none_held))
          | inr other ↦ rw other (omega (arith, length-append rows [], h account exchange symbol))
        ])

  -- The row with a key.
  unfoldable pub row : ℕ → List Position → Option Position
  row id [] = none
  row id (p ∷ ps) = if p.id == id then some p else row id ps

  pub row-put_self :
      (p q : Position) (ps : List Position) → row p.id ps ≡ some q → row p.id (put p ps) ≡ some p
  unfolding row
  row-put_self p q [] h = cc
  row-put_self p q (x ∷ ps) h = ground (arith, row-put_self p q ps)

  pub row-put_ne :
      (p : Position) (id : ℕ) (ps : List Position) → p.id ≢ id → row id (put p ps) ≡ row id ps
  unfolding row
  row-put_ne p id [] h = refl
  row-put_ne p id (x ∷ ps) h = ground (arith, row-put_ne p id ps h)

  pub put-put : (p q : Position) (ps : List Position) → p.id ≡ q.id → put p (put q ps) ≡ put p ps
  put-put p q [] h = refl
  put-put p q (x ∷ ps) h = ground (arith, put-put p q ps h)

  held-put :
      (account exchange symbol : String) (p : Position) (ps : List Position)
      → is_held account exchange symbol p ≡ false
      → length (filter (is_held account exchange symbol) (put p ps))
        ≤ length (filter (is_held account exchange symbol) ps)
  held-put account exchange symbol p [] h = omega arith
  held-put account exchange symbol p (q ∷ ps) h =
      ground (arith, held-put account exchange symbol p ps h)

  -- A row that is not open takes no place.
  pub OneOpen-put :
      (p : Position) (ps : List Position)
      → is_opened p.status ≡ false
      → OneOpen ps
      → OneOpen (put p ps)
  unfolding is_held is_open_in
  OneOpen-put p ps closed h account exchange symbol =
      omega (arith, held-put account exchange symbol p ps (ground arith), h account exchange symbol)

  first-append :
      {A : Type 0} (xs : List A) (y : A) → first xs ≡ none → first (xs ++ y ∷ []) ≡ some y
  first-append [] y e = refl
  first-append (x ∷ xs) y e = cc

  pub is_held_self :
      (p : Position)
      → is_opened p.status ≡ true
      → is_held p.account_name p.exchange p.symbol p ≡ true
  unfolding is_held is_open_in in_market of_account
  is_held_self p h = ground (
    arith,
    h,
    eq_iff p.account_name p.account_name,
    eq_iff p.exchange p.exchange,
    eq_iff p.symbol p.symbol,
  )

  pub get_open_position-append :
      (account exchange symbol : String) (p : Position) (ps : List Position)
      → get_open_position account exchange symbol ps ≡ none
      → is_held account exchange symbol p ≡ true
      → get_open_position account exchange symbol (ps ++ p ∷ []) ≡ some p
  unfolding get_open_position is_held
  get_open_position-append account exchange symbol p ps h held =
      rw (filter-append (is_held account exchange symbol) ps (p ∷ []), held)
        (first-append (filter (is_held account exchange symbol) ps) p h)

  pub put-append :
      (p q : Position) (ps : List Position)
      → row p.id ps ≡ none
      → q.id ≡ p.id
      → put p (ps ++ q ∷ []) ≡ ps ++ p ∷ []
  unfolding row
  put-append p q [] h e = ground (arith, ==_iff q.id p.id)
  put-append p q (x ∷ ps) h e = ground (arith, put-append p q ps)
