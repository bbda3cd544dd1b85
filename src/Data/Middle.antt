-- ===== src/Data/Middle.antt =====
-- A file that is taken out of the middle of the pending files of lib/pyroduct/src/pipeline/data.rs.
use pyroduct.Base.{ℕ, List, [], ◌∷◌, ◌++◌, All, length, ◌≡◌, ◌≢◌, sym, some, arith}
use pyroduct.Base.Maps.{entry, drop_entry}
use pyroduct.Value.{PyroRow}
use pyroduct.Data.{or_zero}
use pyroduct.Data.Rollout.{without}
use pyroduct.Data.Files.{
  Files, keys, counts, Holds, Absent, Distinct, drop_entry-counts, without-Absent,
}
use pyroduct.Data.Valid.{PutOff}

module _ (id : ℕ) (r : List PyroRow) (es : Files) where
  pub All-middle :
      (P : ℕ → Type 0) (st : Files)
      → All P (keys (st ++ (id, r) ∷ es))
      → P id × All P (keys (st ++ es))
  All-middle P [] h = (h.0, h.1)
  All-middle P ((j, q) ∷ st) h = let (p, rest) = All-middle P st h.1 in (p, (h.0, rest))

  pub Distinct-middle :
      (st : Files)
      → Distinct (keys (st ++ (id, r) ∷ es))
      → Absent id (keys (st ++ es)) × Distinct (keys (st ++ es))
  Distinct-middle [] d = (d.0, d.1)
  Distinct-middle ((j, q) ∷ st) d =
      let (absent, distinct) = Distinct-middle st d.1 in
      let (ne, j_absent) = All-middle (λ x. x ≢ j) st d.0 in
      ((λ e. ne (sym e), absent), (j_absent, distinct))

  pub Holds-middle :
      (dir st : Files)
      → Holds dir (st ++ (id, r) ∷ es)
      → (entry id dir ≡ some r) × Holds dir (st ++ es)
  Holds-middle dir [] h = (h.0, h.1)
  Holds-middle dir ((j, q) ∷ st) h =
      let (here, rest) = Holds-middle dir st h.1 in (here, (h.0, rest))

  pub drop_entry-middle :
      (st : Files)
      → Distinct (keys (st ++ (id, r) ∷ es))
      → drop_entry id (counts (st ++ (id, r) ∷ es)) ≡ counts (st ++ es)
  unfolding drop_entry
  drop_entry-middle [] d = ground (arith, drop_entry-counts es id d.0)
  drop_entry-middle ((j, q) ∷ st) d =
      ground (arith, drop_entry-middle st d.1, (All-middle (λ x. x ≢ j) st d.0).0)

  pub without-middle :
      (st : Files)
      → Distinct (keys (st ++ (id, r) ∷ es))
      → without id (keys (st ++ (id, r) ∷ es)) ≡ keys (st ++ es)
  unfolding without
  without-middle [] d = ground (arith, without-Absent (keys es) id d.0)
  without-middle ((j, q) ∷ st) d =
      ground (arith, without-middle st d.1, (All-middle (λ x. x ≢ j) st d.0).0)

  pub entry-middle :
      (st : Files)
      → Distinct (keys (st ++ (id, r) ∷ es))
      → or_zero (entry id (counts (st ++ (id, r) ∷ es))) ≡ length r
  unfolding entry
  entry-middle [] d = ground arith
  entry-middle ((j, q) ∷ st) d =
      ground (arith, entry-middle st d.1, (All-middle (λ x. x ≢ j) st d.0).0)

  pub PutOff-middle :
      (next : ℕ) (st : Files) (ids : List ℕ)
      → PutOff next (st ++ (id, r) ∷ es) ids
      → PutOff next (st ++ es) ids
  PutOff-middle next st [] h = tt
  PutOff-middle next st (x ∷ ids) h =
      ((h.0.0, (All-middle (λ y. y ≢ x) st h.0.1).1), PutOff-middle next st ids h.1)
