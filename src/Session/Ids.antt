-- ===== src/Session/Ids.antt =====
-- `next_session_id` of lib/pyroduct/src/pipeline/session_diff.rs.
-- The ids in the names of the files and the directories are lists; `u32` wraps.
use pyroduct.Base.{
  ℕ, ◌+◌, ◌%◌, ◌^◌, ◌≤◌, ◌<◌, String, Option, none, some, List, [], ◌∷◌, true, leb, ◌≡◌, refl,
  arith, All, if◌then◌else◌, inl, inr, Bool-cases, Option-cases, ◌==◌,
}
use pyroduct.Base.Maps.{entry}
use pyroduct.Session.{SessionDiffPipeline, contains_key}
use Prim.Native.Nat.{max}

-- One turn of each loop: an id that is not below is passed by one.
unfoldable pub pass : ℕ → ℕ → ℕ
pass max_id id = if leb max_id id then (id + 1) % 2 ^ 32 else max_id

unfoldable pub pass_all : ℕ → List ℕ → ℕ
unfolding pass
pass_all max_id [] = max_id
pass_all max_id (id ∷ ids) = pass_all (pass max_id id) ids

-- `SELECT MAX(session_id)`
unfoldable pub max_session_id : List (ℕ × String) → Option ℕ
max_session_id [] = none
max_session_id (e ∷ es) = larger e.0 (max_session_id es)
  where
    larger : ℕ → Option ℕ → Option ℕ
    larger id none = some id
    larger id (some m) = some (max id m)

pass_db : ℕ → Option ℕ → ℕ
unfolding pass
pass_db max_id none = max_id
pass_db max_id (some db) = pass max_id (db % 2 ^ 32)

-- The output's length, which another component counts, is an argument.
unfoldable pub next_session_id : SessionDiffPipeline → ℕ → List ℕ → List ℕ → ℕ
unfolding pass_all pass_db max_session_id
next_session_id s output_len value_files log_dirs =
    let max_id = pass_all (output_len % 2 ^ 32) s.active_sessions in
    pass_all (pass_all (pass_db max_id (max_session_id s.status)) value_files) log_dirs

abbrev pub last_id : ℕ
last_id = 4294967295

abbrev pub BelowLast : List ℕ → Type 0
BelowLast = All (λ id. id < last_id)

abbrev pub StatusBelowLast : List (ℕ × String) → Type 0
StatusBelowLast = All (λ e. e.0 < last_id)

pass_above : (m id : ℕ) → id < last_id → (id < pass m id) × (m ≤ pass m id)
unfolding pass
pass_above m id h = ground arith

pass_all_above :
    (m : ℕ) (ids : List ℕ)
    → BelowLast ids
    → (m ≤ pass_all m ids) × ((id : ℕ) → contains_key ids id ≡ true → id < pass_all m ids)
unfolding pass_all contains_key
pass_all_above m [] b = (omega arith, λ id h. absurd (cc h))
pass_all_above m (x ∷ xs) b =
    let (above, keeps) = pass_above m x b.0 in
    let (le, lt) = pass_all_above (pass m x) xs b.1 in
    (omega (arith, le, keeps), λ id h. ground (arith, h, le, above, lt id))

max_session_id_bounds :
    (es : List (ℕ × String)) (id : ℕ) (x : String)
    → entry id es ≡ some x
    → (m : ℕ) × (max_session_id es ≡ some m) × (id ≤ m)
unfolding entry max_session_id
max_session_id_bounds [] id x h = absurd (cc h)
max_session_id_bounds (e ∷ es) id x h = elim (Option-cases (max_session_id es)) [
  | inl n ↦ elim (Bool-cases (e.0 == id)) [
    | inl q ↦ (e.0, rw n refl, ground (arith, q))
    | inr q ↦
        let (m, at, le) = max_session_id_bounds es id x (ground (arith, h, q)) in
        absurd (ground (arith, at, n))
  ]
  | inr (m, n) ↦ (
    max e.0 m,
    rw n refl,
    elim (Bool-cases (e.0 == id)) [
      | inl q ↦ ground (arith, q)
      | inr q ↦
          let (m', at, le) = max_session_id_bounds es id x (ground (arith, h, q)) in
          ground (arith, at, n, le)
    ],
  )
]

max_session_id_below :
    (es : List (ℕ × String)) (m : ℕ) → StatusBelowLast es → max_session_id es ≡ some m → m < last_id
unfolding max_session_id
max_session_id_below [] m b h = absurd (cc h)
max_session_id_below (e ∷ es) m b h = elim (Option-cases (max_session_id es)) [
  | inl n ↦ ground (arith, h, n, b.0)
  | inr (k, n) ↦ ground (arith, h, n, b.0, max_session_id_below es k b.1 n)
]

pass_db_above :
    (m : ℕ) (es : List (ℕ × String))
    → StatusBelowLast es
    → (m ≤ pass_db m (max_session_id es))
      × ((id : ℕ) (x : String) → entry id es ≡ some x → id < pass_db m (max_session_id es))
unfolding pass_db
pass_db_above m es b = elim (Option-cases (max_session_id es)) [
  | inl n ↦ rw n (
    omega arith,
    λ id x h. absurd (let (k, at, le) = max_session_id_bounds es id x h in cc (at, n)),
  )
  | inr (k, n) ↦
      let below = max_session_id_below es k b n in
      let (above, keeps) = pass_above m (k % 2 ^ 32) (omega (arith, below)) in
      rw n (
        keeps,
        λ id x h.
            let (k', at, le) = max_session_id_bounds es id x h in
            ground (arith, at, n, le, above, below),
      )
]

-- The id for a new session is above the id of every active session, of every session with a status, of
-- every value file and of every log directory, if all of these are below the last `u32`.
pub next_session_id_fresh :
    (s : SessionDiffPipeline) (output_len : ℕ) (value_files log_dirs : List ℕ)
    → BelowLast s.active_sessions
    → StatusBelowLast s.status
    → BelowLast value_files
    → BelowLast log_dirs
    → let next = next_session_id s output_len value_files log_dirs in
      ((id : ℕ) → contains_key s.active_sessions id ≡ true → id < next)
      × ((id : ℕ) (x : String) → entry id s.status ≡ some x → id < next)
      × ((id : ℕ) → contains_key value_files id ≡ true → id < next)
      × ((id : ℕ) → contains_key log_dirs id ≡ true → id < next)
unfolding next_session_id
next_session_id_fresh s output_len value_files log_dirs ba bs bv bl =
    let (_, active) = pass_all_above (output_len % 2 ^ 32) s.active_sessions ba in
    let m = pass_all (output_len % 2 ^ 32) s.active_sessions in
    let (le_db, db) = pass_db_above m s.status bs in
    let m' = pass_db m (max_session_id s.status) in
    let (le_files, files) = pass_all_above m' value_files bv in
    let (le_dirs, dirs) = pass_all_above (pass_all m' value_files) log_dirs bl in
    (
      λ id h. omega (arith, active id h, le_db, le_files, le_dirs),
      λ id x h. omega (arith, db id x h, le_files, le_dirs),
      λ id h. omega (arith, files id h, le_dirs),
      dirs,
    )
