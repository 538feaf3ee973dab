-- ===== src/Paper/Loop.antt =====
-- The loops over open positions, of `close_positions_not_in_target` and `update_mark_prices`, as rounds
-- that each write one row of the position table.
use crypto_mas.Prelude.{
  ℕ, ◌+◌, ◌≡◌, ◌≢◌, refl, sym, ◌∙◌, subst, some, List, [], ◌∷◌, arith, length, All, All-map_of,
  All-zip,
}
use crypto_mas.Numbers.{Numerics}
use crypto_mas.Domain.{Position, FeatureSnapshot}
use crypto_mas.Repository.Positions.{put}
use crypto_mas.Repository.Positions.Queries.{row, row-put_self, row-put_ne}
use crypto_mas.Repository.Positions.Listing.{Differs, KeysUnique, IsRow}
use crypto_mas.Paper.Session.{Pass, Outcome, Ensures, Ensures-bind, Ensures-map, for_each}

module _ ⦃n : Numerics⦄ where
  module _ (Result : List FeatureSnapshot → Position → Position → Type 0) where
    -- The row of `p` has become one that `Result` allows.
    abbrev pub Became : Pass → Pass → Position → Type 0
    Became s u p =
        (r : Position) × (row p.id u.store.positions ≡ some r) × Result s.store.snapshots p r

    pub record Round (p : Position) (s u : Pass) : Type 0 where
      pub became : Became s u p
      pub others : (id : ℕ) → p.id ≢ id → row id u.store.positions ≡ row id s.store.positions
      pub snapshots : u.store.snapshots ≡ s.store.snapshots
      pub reported : length u.executed + length u.skipped ≡ length s.executed + length s.skipped + 1

    -- A round that writes its row, and no other one.
    pub put-Round :
        (p q : Position) (s u : Pass)
        → IsRow s.store.positions p
        → q.id ≡ p.id
        → u.store.positions ≡ put q s.store.positions
        → u.store.snapshots ≡ s.store.snapshots
        → length u.executed + length u.skipped ≡ length s.executed + length s.skipped + 1
        → Result s.store.snapshots p q
        → Round p s u
    put-Round p q s u is_row key written snaps count result = record {
      became =
          (q, rw (written, ← key) (row-put_self q p s.store.positions (rw key is_row)), result);
      others = λ id ne. rw written (row-put_ne q id s.store.positions (λ e. ne (sym key ∙ e)));
      snapshots = snaps;
      reported = count;
    }

    pub record Rounds (ps : List Position) (s u : Pass) : Type 0 where
      pub became : All (Became s u) ps
      pub others :
          (id : ℕ) → All (λ p. p.id ≢ id) ps → row id u.store.positions ≡ row id s.store.positions
      pub snapshots : u.store.snapshots ≡ s.store.snapshots
      pub reported :
          length u.executed + length u.skipped ≡ length s.executed + length s.skipped + length ps

    IsRow-later :
        (p : Position) (ps : List Position) (s u : Pass)
        → Round p s u
        → All (Differs p) ps
        → All (IsRow s.store.positions) ps
        → All (IsRow u.store.positions) ps
    IsRow-later p ps s u r differ rows =
        All-map_of (λ q. Differs p q × IsRow s.store.positions q) (IsRow u.store.positions) ps
          (λ q h. r.others q.id (λ e. h.0 (sym e)) ∙ h.1)
          (All-zip (Differs p) (IsRow s.store.positions) ps differ rows)

    Rounds-cons :
        (p : Position) (ps : List Position) (s u v : Pass)
        → All (Differs p) ps
        → Round p s u
        → Rounds ps u v
        → Rounds (p ∷ ps) s v
    Rounds-cons p ps s u v differ r rs =
        let (x, at_x, result) = r.became in
        record {
          became = (
            (x, rs.others p.id differ ∙ at_x, result),
            All-map_of (Became u v) (Became s v) ps
                (λ q b. (b.0, b.1, subst (λ z. Result z q b.0) r.snapshots b.2)) rs.became,
          );
          others = λ id h. rs.others id h.1 ∙ r.others id h.0;
          snapshots = rs.snapshots ∙ r.snapshots;
          reported = omega arith;
        }

    module _ (one : Position → Pass → Outcome Pass)
        (step : (p : Position) (s : Pass)
          → IsRow s.store.positions p
          → Ensures (Round p s) (one p s)) where
      pub for_each-Rounds :
          (ps : List Position) (s : Pass)
          → KeysUnique ps
          → All (IsRow s.store.positions) ps
          → Ensures (Rounds ps s) (for_each one ps s)
      unfolding for_each
      for_each-Rounds [] s h k = record {
        became = tt;
        others = λ id h. refl;
        snapshots = refl;
        reported = omega arith;
      }
      for_each-Rounds (p ∷ ps) s h k =
          Ensures-bind (Round p s) (Rounds (p ∷ ps) s) (one p s) (for_each one ps) (step p s k.0)
            (λ u r.
              Ensures-map (Rounds ps u) (Rounds (p ∷ ps) s) (for_each one ps u)
                (λ v rs. Rounds-cons p ps s u v h.0 r rs)
                (for_each-Rounds ps u h.1 (IsRow-later p ps s u r h.0 k.1)))
