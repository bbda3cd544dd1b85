-- ===== src/Data/Rolling.antt =====
-- The loop of a rollout in lib/pyroduct/src/pipeline/data.rs: what it takes, and what it leaves.
use pyroduct.Base.{
  ℕ, ◌+◌, ◌<◌, some, List, [], ◌∷◌, ◌++◌, All, Bool, true, false, not, ◌&&◌, Bool-cases, length,
  length-append, append_assoc, append-nil, ◌≡◌, refl, sym, ap, ◌∙◌, arith, ◌⊎◌, inl, inr,
}
use pyroduct.Base.Outcome.{Result, ok, err}
use pyroduct.Base.Maps.{entry, drop_entry}
use pyroduct.Value.{PyroRow}
use pyroduct.Data.{Env, DataError, read_failed, DataManagerSharedState, DataManager, or_zero}
use pyroduct.Data.Rollout.{
  is_some, is_nil, without, deleted, released, Rolling, roll_file, roll_files,
}
use pyroduct.Data.Files.{
  Files, keys, counts, batches, contents, Holds, Distinct, Below, Holds-drop_entry,
}
use pyroduct.Data.Valid.{PutOff}
use pyroduct.Data.Middle.{
  All-middle, Distinct-middle, Holds-middle, drop_entry-middle, without-middle, entry-middle,
  PutOff-middle,
}

-- A state with other files pending and another directory of them.
abbrev pub with_ipc : DataManager → Files → Files → DataManagerSharedState → DataManager
with_ipc s es dir shared = record s {
  ipc_row_counts = counts es;
  ipc_file_paths = keys es;
  arrow_files = dir;
  shared_state = shared;
}

-- What is asked of pending files, their directory and the deletions that are put off.
pub record Pending (next : ℕ) (dir : Files) (shared : DataManagerSharedState) (es : Files)
    : Type 0 where
  pub held : Holds dir es
  pub distinct : Distinct (keys es)
  pub below : Below next (keys es)
  pub put_off : PutOff next es shared.pending_deletions

abbrev pub readable : Env → ℕ × List PyroRow → Bool
readable env (id, rows) = env.read_ipc_ok id && not (is_nil rows)

abbrev pub AllReadable : Env → Files → Type 0
AllReadable env es = All (λ e. readable env e ≡ true) es

deleted_lem :
    (id next : ℕ) (r : List PyroRow) (st es : Files) (s : DataManager)
    → Pending next s.arrow_files s.shared_state (st ++ (id, r) ∷ es)
    → (dir : Files) × (shared : DataManagerSharedState) × (deleted id s
        ≡ record s { arrow_files = dir; shared_state = shared })
      × Pending next dir shared (st ++ es)
unfolding deleted
deleted_lem id next r st es s p =
    let (absent, distinct) = Distinct-middle id r es st p.distinct in
    let (lt, below) = All-middle id r es (λ x. x < next) st p.below in
    let (_, held) = Holds-middle id r es s.arrow_files st p.held in
    let put_off = PutOff-middle id r es next st s.shared_state.pending_deletions p.put_off in
    elim (Bool-cases (is_some (entry id s.shared_state.active_readers))) [
      | inl read ↦ (
        s.arrow_files,
        record s.shared_state { pending_deletions = id ∷ s.shared_state.pending_deletions },
        rw read refl,
        record {
          held = held;
          distinct = distinct;
          below = below;
          put_off = ((lt, absent), put_off);
        },
      )
      | inr free ↦ (
        drop_entry id s.arrow_files,
        s.shared_state,
        rw free refl,
        record {
          held = Holds-drop_entry s.arrow_files (st ++ es) id absent held;
          distinct = distinct;
          below = below;
          put_off = put_off;
        },
      )
    ]

-- How the loop ends: every file is taken, or it ends early before one that cannot be read.
abbrev pub Ended :
    Env
    → Files
    → Files
    → List (List PyroRow)
    → ℕ
    → DataManager
    → (Files → DataManager)
    → Result (Unit {0}) DataError × Rolling
    → Type 0
Ended env rest es acc n s left r =
    ((rest ≡ []) × (r ≡ (ok tt, (acc ++ batches es, n + length (contents es), left rest))))
    ⊎ ((b : List (List PyroRow)) × (c : ℕ) × (r ≡ (err read_failed, (b, c, left rest)))
        × (AllReadable env es → ⊥))

module _ (env : Env) (st : Files) where
  -- What the loop over the listed files leaves behind those that are stuck.
  abbrev pub Loops : Files → ℕ → List (List PyroRow) → ℕ → DataManager → Type 0
  Loops es next acc n s =
      (rest : Files) × (dir : Files) × (shared : DataManagerSharedState) × Pending next dir shared
        (st ++ rest)
      × Ended env rest es acc n s (λ es'. with_ipc s (st ++ es') dir shared)
          (roll_files env (keys es) (acc, n, s))

  left_as_is :
      (s : DataManager) (es : Files)
      → s.ipc_row_counts ≡ counts es
      → s.ipc_file_paths ≡ keys es
      → s ≡ with_ipc s es s.arrow_files s.shared_state
  left_as_is s es c p i = record s { ipc_row_counts = c i; ipc_file_paths = p i }

  -- One turn of the loop with a file that can be read.
  turn :
      (id : ℕ) (r : List PyroRow) (ids : List ℕ) (acc : List (List PyroRow)) (n : ℕ)
      (s s' : DataManager)
      → entry id s.arrow_files ≡ some r
      → readable env (id, r) ≡ true
      → or_zero (entry id s.ipc_row_counts) ≡ length r
      → released id s ≡ s'
      → roll_files env (id ∷ ids) (acc, n, s) ≡ roll_files env ids (acc ++ r ∷ [], n + length r, s')
  unfolding roll_files roll_file
  turn id r ids acc n s s' e good count gone = rw (e, good, count, gone) refl

  last_turn :
      (id : ℕ) (r : List PyroRow) (ids : List ℕ) (acc : List (List PyroRow)) (n : ℕ)
      (s s' : DataManager)
      → entry id s.arrow_files ≡ some r
      → readable env (id, r) ≡ false
      → s ≡ s'
      → roll_files env (id ∷ ids) (acc, n, s) ≡ (err read_failed, (acc, n, s'))
  unfolding roll_files roll_file
  last_turn id r ids acc n s s' e bad same = rw (e, bad) (λ i. (err read_failed, (acc, n, same i)))

  further :
      (rest : Files) (id : ℕ) (r : List PyroRow) (es : Files) (acc : List (List PyroRow)) (n : ℕ)
      (s s' : DataManager) (left : Files → DataManager)
      (z z' : Result (Unit {0}) DataError × Rolling)
      → z ≡ z'
      → Ended env rest es (acc ++ r ∷ []) (n + length r) s' left z'
      → Ended env rest ((id, r) ∷ es) acc n s left z
  further rest id r es acc n s s' left z z' same (inl (none_left, e)) =
      let size : n + length r + length (contents es) ≡ n + length (r ++ contents es) =
        omega (arith, length-append r (contents es)) in
      inl (
        none_left,
        same ∙ e ∙ (λ i. (ok tt, (append_assoc acc (r ∷ []) (batches es) i, size i, left rest))),
      )
  further rest id r es acc n s s' left z z' same (inr (b, c, e, bad)) =
      inr (b, c, same ∙ e, λ h. bad h.1)

  pub roll_files_lem :
      (es : Files) (next : ℕ) (acc : List (List PyroRow)) (n : ℕ) (s : DataManager)
      → s.ipc_row_counts ≡ counts (st ++ es)
      → s.ipc_file_paths ≡ keys (st ++ es)
      → Pending next s.arrow_files s.shared_state (st ++ es)
      → Loops es next acc n s
  unfolding roll_files released
  roll_files_lem [] next acc n s c p h =
      let nothing : n ≡ n + 0 = omega arith in
      (
        [],
        s.arrow_files,
        s.shared_state,
        h,
        inl (
          refl,
          λ i. (ok tt, (sym (append-nil acc) i, nothing i, left_as_is s (st ++ []) c p i)),
        ),
      )
  roll_files_lem ((id, r) ∷ es) next acc n s c p h =
      let (here, _) = Holds-middle id r es s.arrow_files st h.held in
      elim (Bool-cases (readable env (id, r))) [
        | inl good ↦
            let s' = record s {
              ipc_row_counts = drop_entry id s.ipc_row_counts;
              ipc_file_paths = without id s.ipc_file_paths;
            } in
            let (dir, shared, e, h') = deleted_lem id next r st es s' h in
            let s'' = record s' { arrow_files = dir; shared_state = shared } in
            let (rest, dir', shared', h'', ended) =
              roll_files_lem es next (acc ++ r ∷ []) (n + length r) s''
                (ap (drop_entry id) c ∙ drop_entry-middle id r es st h.distinct)
                (ap (without id) p ∙ without-middle id r es st h.distinct) h' in
            (
              rest,
              dir',
              shared',
              h'',
              further rest id r es acc n s s'' (λ es'. with_ipc s (st ++ es') dir' shared') _ _
                  (turn id r (keys es) acc n s s'' here good
                    (ap (λ t. or_zero (entry id t)) c ∙ entry-middle id r es st h.distinct) e)
                  ended,
            )
        | inr bad ↦ (
          (id, r) ∷ es,
          s.arrow_files,
          s.shared_state,
          h,
          inr (
            acc,
            n,
            last_turn id r (keys es) acc n s _ here bad (left_as_is s (st ++ (id, r) ∷ es) c p),
            λ k. cc (k.0, bad),
          ),
        )
      ]
