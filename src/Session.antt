-- ===== src/Session.antt =====
-- lib/pyroduct/src/pipeline/session_diff.rs: the sessions of `SessionDiffPipeline`.
-- The locks are taken one call at a time, so a call is a function on the state. An active session is
-- its key: its two handles stand for the session's files, of which `files` has the rows. What is asked
-- of the shard that owns a session is a trace, and the module's answers are a function of that trace.
-- The logs, the callbacks and the records that are returned beside the state are left out.
pub mod Lru
mod Tests
pub mod Ids
pub mod Endings
pub mod Rows
pub mod Runs
pub mod Calls
use pyroduct.Base.{
  ℕ, zero, suc, ◌+◌, String, Option, none, some, List, [], ◌∷◌, ◌++◌, Bool, true, false, not, ◌||◌,
  ◌==◌, leb, length, if◌then◌else◌,
}
use pyroduct.Base.Maps.{set_entry, entry, drop_entry}
use pyroduct.Base.Texts.{str_discrete}
use pyroduct.Value.{PyroValue, null, group, list, PyroRow, empty, item, PyroValues, nil, cons, get}
use mathlib.Core.Logic.{ite}

pub data ShardCall : Type 0 where
  prep : ℕ → List PyroRow → List PyroRow → ShardCall
  called : ℕ → PyroRow → ShardCall
  closed : ℕ → ShardCall

-- What a step of the module returns.
pub data SessionResult : Type 0 where
  continue end : PyroRow → SessionResult
  terminate failure : SessionResult

pub data SessionError : Type 0 where
  cannot_resume io prep_failed append_failed push_failed step_failed : SessionError

-- What is outside: the module behind the shards, and whether the files and the output take what they
-- are given, each by the session.
pub record Env : Type 0 where
  pub module_step : List ShardCall → SessionResult
  pub prep_ok : List ShardCall → Bool
  pub open_ok : ℕ → Bool
  pub append_ok : ℕ → Bool
  pub push_ok : ℕ → Bool

pub record SessionDiffPipeline : Type 0 where
  pub max_active_sessions : ℕ
  pub active_sessions : List ℕ
  pub lru_order : List ℕ
  pub status : List (ℕ × String)
  pub files : List (ℕ × List PyroRow)
  pub output : List (ℕ × PyroRow)
  pub shard : List ShardCall

unfoldable pub contains_key : List ℕ → ℕ → Bool
contains_key [] id = false
contains_key (x ∷ xs) id = (x == id) || contains_key xs id

-- The first occurrence goes; a map's keys occur once.
unfoldable pub remove : List ℕ → ℕ → List ℕ
remove [] id = []
remove (x ∷ xs) id = let rest = remove xs id in if x == id then xs else x ∷ rest

-- `recover`, and `unwrap_or_default`
unfoldable pub rows_of : SessionDiffPipeline → ℕ → List PyroRow
unfolding entry
rows_of s id = or_default (entry id s.files)
  where
    or_default : Option (List PyroRow) → List PyroRow
    or_default none = []
    or_default (some rows) = rows

-- The loop of `evict_if_needed`, which pops the front of the order at each turn: the order, the
-- active sessions and the calls that are left.
unfoldable pub evict_loop : ℕ → List ℕ → List ℕ → List ShardCall → List ℕ × List ℕ × List ShardCall
unfolding contains_key remove
evict_loop max [] active shard = ([], active, shard)
evict_loop max (victim ∷ lru) active shard =
    let evicted = evict_loop max lru (remove active victim) (shard ++ closed victim ∷ []) in
    let skipped = evict_loop max lru active shard in
    if leb max (length active)
    then (if contains_key active victim then evicted else skipped)
    else (victim ∷ lru, active, shard)

unfoldable pub evict_if_needed : SessionDiffPipeline → SessionDiffPipeline
unfolding evict_loop
evict_if_needed s =
    let (lru, active, shard) =
      evict_loop s.max_active_sessions s.lru_order s.active_sessions s.shard in
    record s { lru_order = lru; active_sessions = active; shard = shard }

unfoldable pub touch : ℕ → List ℕ → List ℕ
unfolding remove
touch id lru = remove lru id ++ id ∷ []

-- The groups under a key, of the rows that have one there.
unfoldable pub groups_under : String → List PyroRow → List PyroRow
unfolding get
groups_under key [] = []
groups_under key (row ∷ rows) = add (get row key) (groups_under key rows)
  where
    add : Option PyroValue → List PyroRow → List PyroRow
    add (some (group g)) gs = g ∷ gs
    add _ gs = gs

unfoldable pub is_closed : Option String → Bool
unfolding str_discrete
is_closed none = false
is_closed (some s) =
    ite (str_discrete s "succeeded") true (ite (str_discrete s "failed") true false)

unfoldable pub get_or_open_session :
    Env → SessionDiffPipeline → ℕ → SessionDiffPipeline × Option SessionError
unfolding contains_key touch entry is_closed evict_if_needed groups_under rows_of
get_or_open_session env s id =
    let s' = evict_if_needed s in
    let rows = rows_of s id in
    let opened = record s' {
      shard = s'.shard ++ prep id (groups_under "input" rows) (groups_under "output" rows) ∷ [];
      active_sessions = id ∷ s'.active_sessions;
      lru_order = s'.lru_order ++ id ∷ [];
    } in
    if contains_key s.active_sessions id
    then (record s { lru_order = touch id s.lru_order }, none)
    else if is_closed (entry id s.status)
    then (s, some cannot_resume)
    else if env.open_ok id
    then (opened, none)
    else (s', some io)

unfoldable pub values_of : List PyroRow → PyroValues
values_of [] = nil
values_of (g ∷ gs) = cons (group g) (values_of gs)

unfoldable pub rolled_up_row : List PyroRow → PyroRow
unfolding values_of groups_under
rolled_up_row rows =
    item "inputs" (list (values_of (groups_under "input" rows)))
      (item "outputs" (list (values_of (groups_under "output" rows))) empty)

unfoldable pub rollup_and_cleanup_session :
    Env → SessionDiffPipeline → ℕ → SessionDiffPipeline × Option SessionError
unfolding rolled_up_row rows_of remove drop_entry
rollup_and_cleanup_session env s id =
    if env.push_ok id
    then (
      record s {
        output = s.output ++ (id, rolled_up_row (rows_of s id)) ∷ [];
        active_sessions = remove s.active_sessions id;
        lru_order = remove s.lru_order id;
        files = drop_entry id s.files;
      },
      none,
    )
    else (s, some push_failed)
