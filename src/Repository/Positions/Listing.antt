-- ===== src/Repository/Positions/Listing.antt =====
-- The list of open positions that a pass runs over, as rows of the table.
use crypto_mas.Prelude.{
  ◌⊎◌, any, ℕ, ◌≡◌, ◌≢◌, refl, sym, inl, inr, Bool, true, ◌&&◌, some, List, [], ◌∷◌, String, arith,
  filter, All, All-filter, All-map_of, All-zip, Bool-cases, ltb, ==_iff, ◌==◌,
}
use crypto_mas.Numbers.{Numerics}
use crypto_mas.Domain.{Position, is_opened}
use crypto_mas.Repository.Positions.{list_open_positions, insert_by_opening, sort_into, of_account}
use crypto_mas.Repository.Positions.Queries.{row}

module _ ⦃n : Numerics⦄ where
  abbrev pub Differs : Position → Position → Type 0
  Differs p q = q.id ≢ p.id

  -- No two rows share a key.
  abbrev pub KeysUnique : List Position → Type 0
  KeysUnique [] = Unit
  KeysUnique (p ∷ ps) = All (Differs p) ps × KeysUnique ps

  -- The row is the one that is found by its key.
  abbrev pub IsRow : List Position → Position → Type 0
  IsRow ps p = row p.id ps ≡ some p

  IsRow-cons :
      (p : Position) (ps : List Position) (q : Position)
      → Differs p q
      → IsRow ps q
      → IsRow (p ∷ ps) q
  unfolding row
  IsRow-cons p ps q h k = ground (arith, ==_iff p.id q.id)

  IsRow-head : (p : Position) (ps : List Position) → IsRow (p ∷ ps) p
  unfolding row
  IsRow-head p ps = ground (arith, ==_iff p.id p.id)

  pub KeysUnique-IsRow : (ps : List Position) → KeysUnique ps → All (IsRow ps) ps
  KeysUnique-IsRow [] h = tt
  KeysUnique-IsRow (p ∷ ps) h = (
    IsRow-head p ps,
    All-map_of (λ q. Differs p q × IsRow ps q) (IsRow (p ∷ ps)) ps
        (λ q k. IsRow-cons p ps q k.0 k.1)
        (All-zip (Differs p) (IsRow ps) ps h.0 (KeysUnique-IsRow ps h.1)),
  )

  KeysUnique-filter :
      (t : Position → Bool) (ps : List Position) → KeysUnique ps → KeysUnique (filter t ps)
  KeysUnique-filter t [] h = tt
  KeysUnique-filter t (p ∷ ps) h = elim (Bool-cases (t p)) [
    | inl e ↦ rw e (All-filter (Differs p) t ps h.0, KeysUnique-filter t ps h.1)
    | inr e ↦ rw e (KeysUnique-filter t ps h.1)
  ]

  All-insert :
      (P : Position → Type 0) (p : Position) (ps : List Position)
      → P p
      → All P ps
      → All P (insert_by_opening p ps)
  unfolding insert_by_opening
  All-insert P p [] h k = (h, tt)
  All-insert P p (q ∷ qs) h k = elim (Bool-cases (ltb p.opened_at q.opened_at)) [
    | inl e ↦ rw e (h, k)
    | inr e ↦ rw e (k.0, All-insert P p qs h k.1)
  ]

  All-sort_into :
      (P : Position → Type 0) (done rest : List Position)
      → All P done
      → All P rest
      → All P (sort_into done rest)
  unfolding sort_into
  All-sort_into P done [] h k = h
  All-sort_into P done (p ∷ rest) h k =
      All-sort_into P (insert_by_opening p done) rest (All-insert P p done k.0 h) k.1

  Differs-sym : (p : Position) (qs : List Position) → All (Differs p) qs → All (λ q. Differs q p) qs
  Differs-sym p qs = All-map_of (Differs p) (λ q. Differs q p) qs (λ q h e. h (sym e))

  KeysUnique-insert :
      (p : Position) (ps : List Position)
      → All (Differs p) ps
      → KeysUnique ps
      → KeysUnique (insert_by_opening p ps)
  unfolding insert_by_opening
  KeysUnique-insert p [] h k = (tt, tt)
  KeysUnique-insert p (q ∷ qs) h k = elim (Bool-cases (ltb p.opened_at q.opened_at)) [
    | inl e ↦ rw e (h, k)
    | inr e ↦
        rw e
          (All-insert (Differs q) p qs (λ same. h.0 (sym same)) k.0, KeysUnique-insert p qs h.1 k.1)
  ]

  KeysUnique-sort_into :
      (done rest : List Position)
      → KeysUnique done
      → KeysUnique rest
      → All (λ p. All (Differs p) done) rest
      → KeysUnique (sort_into done rest)
  unfolding sort_into
  KeysUnique-sort_into done [] h k m = h
  KeysUnique-sort_into done (p ∷ rest) h k m =
      KeysUnique-sort_into (insert_by_opening p done) rest (KeysUnique-insert p done m.0 h) k.1 (
        All-map_of (λ q. Differs q p × All (Differs q) done)
          (λ q. All (Differs q) (insert_by_opening p done)) rest
          (λ q z. All-insert (Differs q) p done z.0 z.1)
          (All-zip (λ q. Differs q p) (λ q. All (Differs q) done) rest (Differs-sym p rest k.0)
            m.1))

  All-nothing : (ps : List Position) → All (λ p. All (Differs p) []) ps
  All-nothing [] = tt
  All-nothing (p ∷ ps) = (tt, All-nothing ps)

  pub list_open_positions-KeysUnique :
      (account : String) (ps : List Position)
      → KeysUnique ps
      → KeysUnique (list_open_positions account ps)
  unfolding list_open_positions
  list_open_positions-KeysUnique account ps h =
      let rows = filter (λ p. of_account account p && is_opened p.status) ps in
      KeysUnique-sort_into [] rows tt (KeysUnique-filter _ ps h) (All-nothing rows)

  pub list_open_positions-IsRow :
      (account : String) (ps : List Position)
      → KeysUnique ps
      → All (IsRow ps) (list_open_positions account ps)
  unfolding list_open_positions
  list_open_positions-IsRow account ps h =
      All-sort_into (IsRow ps) [] _ tt (All-filter (IsRow ps) _ ps (KeysUnique-IsRow ps h))

  -- One of the rows has the key.
  abbrev pub is_listed : ℕ → List Position → Bool
  is_listed id ps = any (λ p. p.id == id) ps

  pub is_listed-cases :
      (id : ℕ) (ps : List Position) → (is_listed id ps ≡ true) ⊎ All (λ p. p.id ≢ id) ps
  is_listed-cases id [] = inr tt
  is_listed-cases id (p ∷ ps) = elim (Bool-cases (p.id == id)) [
    | inl e ↦ inl (rw e refl)
    | inr e ↦ elim (is_listed-cases id ps) [
      | inl h ↦ inl (rw (e, h) refl)
      | inr h ↦ inr (ground arith, h)
    ]
  ]
