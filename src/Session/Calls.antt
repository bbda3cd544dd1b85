-- ===== src/Session/Calls.antt =====
-- lib/pyroduct/src/pipeline/session_diff.rs: `prep_session`, `call`, `close_session` and `process`, and
-- a pipeline that answers any calls in any order.
use Prim.Native.Nat.{max}
use pyroduct.Base.{
  ℕ, zero, suc, ◌+◌, ◌-◌, ◌%◌, ◌^◌, String, Option, none, some, List, [], ◌∷◌, ◌++◌, length,
  get_elem?, if◌then◌else◌,
}
use pyroduct.Value.{PyroValue, null, group, PyroRow, empty, item}
use pyroduct.Base.Maps.{set_entry}
use pyroduct.Session.{
  prep, called, closed, SessionResult, continue, end, terminate, failure, SessionError, prep_failed,
  append_failed, Env, SessionDiffPipeline, contains_key, rows_of, get_or_open_session,
  rollup_and_cleanup_session,
}

unfoldable pub set_session_status : SessionDiffPipeline → ℕ → String → SessionDiffPipeline
unfolding set_entry
set_session_status s id status = record s { status = set_entry id status s.status }

unfoldable pub group_or_null : Option PyroRow → PyroValue
group_or_null none = null
group_or_null (some r) = group r

-- The rows of the positions from `i` on, `n` of them.
unfoldable pub prep_rows : List PyroRow → List PyroRow → ℕ → ℕ → List PyroRow
unfolding group_or_null
prep_rows inputs outputs i zero = []
prep_rows inputs outputs i (suc n) =
    item "input" (group_or_null (get_elem? inputs i))
      (item "output" (group_or_null (get_elem? outputs i)) empty)
    ∷ prep_rows inputs outputs (i + 1) n

unfoldable pub append_rows : SessionDiffPipeline → ℕ → List PyroRow → SessionDiffPipeline
unfolding rows_of set_entry
append_rows s id rows = record s { files = set_entry id (rows_of s id ++ rows) s.files }

-- The rows that the file has not yet are appended; where the file takes none, the first failure ends it.
unfoldable pub append_missing :
    Env → ℕ → List PyroRow → SessionDiffPipeline → SessionDiffPipeline × Option SessionError
unfolding append_rows set_session_status
append_missing env id [] s = (s, none)
append_missing env id (row ∷ rows) s =
    if env.append_ok id
    then (append_rows s id (row ∷ rows), none)
    else (set_session_status s id "failed", some append_failed)

unfoldable pub prep_opened :
    Env
    → ℕ
    → List PyroRow
    → SessionDiffPipeline × Option SessionError
    → SessionDiffPipeline × Option SessionError
unfolding append_missing set_session_status
prep_opened env id rows (s, some e) = (set_session_status s id "failed", some e)
prep_opened env id rows (s, none) = append_missing env id rows s

unfoldable pub prep_session :
    Env
    → SessionDiffPipeline
    → ℕ
    → List PyroRow
    → List PyroRow
    → SessionDiffPipeline × Option SessionError
unfolding get_or_open_session rows_of prep_rows prep_opened set_session_status
prep_session env s id inputs outputs =
    let trace = s.shard ++ prep id inputs outputs ∷ [] in
    let s' = record s { shard = trace } in
    let existing = length (rows_of s' id) in
    let rows =
      prep_rows inputs outputs existing (max (length inputs) (length outputs) - existing) in
    if env.prep_ok trace
    then prep_opened env id rows (get_or_open_session env s' id)
    else (set_session_status s' id "failed", some prep_failed)

unfoldable pub status_after : SessionResult → String
status_after (continue r) = "active"
status_after (end r) = "succeeded"
status_after terminate = "succeeded"
status_after failure = "failed"

unfoldable pub output_of : SessionResult → PyroValue
output_of (continue r) = group r
output_of (end r) = group r
output_of terminate = null
output_of failure = null

-- What follows the rows and the logs: a step that is the last rolls the session up, and an error of
-- the rollup is only logged.
unfoldable pub finish :
    Env → ℕ → SessionResult → SessionDiffPipeline → SessionDiffPipeline × Option SessionError
unfolding rollup_and_cleanup_session
finish env id (continue r) s = (s, none)
finish env id (end r) s = ((rollup_and_cleanup_session env s id).0, none)
finish env id terminate s = ((rollup_and_cleanup_session env s id).0, none)
finish env id failure s = ((rollup_and_cleanup_session env s id).0, some SessionError.step_failed)

-- The second opening, for the logs.
unfoldable pub call_logged :
    Env
    → ℕ
    → SessionResult
    → SessionDiffPipeline × Option SessionError
    → SessionDiffPipeline × Option SessionError
unfolding finish
call_logged env id res (s, some e) = (s, some e)
call_logged env id res (s, none) = finish env id res s

-- The row of the step is appended, and a failure to do so is ignored.
unfoldable pub call_opened :
    Env
    → ℕ
    → PyroRow
    → SessionResult
    → SessionDiffPipeline × Option SessionError
    → SessionDiffPipeline × Option SessionError
unfolding append_rows output_of get_or_open_session call_logged
call_opened env id input res (s, some e) = (s, some e)
call_opened env id input res (s, none) =
    let row = item "input" (group input) (item "output" (output_of res) empty) in
    let s' = if env.append_ok id then append_rows s id (row ∷ []) else s in
    call_logged env id res (get_or_open_session env s' id)

unfoldable pub call :
    Env → SessionDiffPipeline → ℕ → PyroRow → SessionDiffPipeline × Option SessionError
unfolding set_session_status status_after get_or_open_session call_opened
call env s id input =
    let trace = s.shard ++ called id input ∷ [] in
    let res = env.module_step trace in
    let s' = set_session_status (record s { shard = trace }) id (status_after res) in
    call_opened env id input res (get_or_open_session env s' id)

unfoldable pub close_session : Env → SessionDiffPipeline → ℕ → SessionDiffPipeline
unfolding contains_key rollup_and_cleanup_session
close_session env s id =
    let s' =
      if contains_key s.active_sessions id then (rollup_and_cleanup_session env s id).0 else s in
    record s' { shard = s'.shard ++ closed id ∷ [] }

unfoldable pub process_prepared :
    Env
    → ℕ
    → PyroRow
    → SessionDiffPipeline × Option SessionError
    → SessionDiffPipeline × Option SessionError
unfolding call close_session
process_prepared env id input (s, some e) = (s, some e)
process_prepared env id input (s, none) =
    let (s', e) = call env s id input in (close_session env s' id, e)

unfoldable pub process :
    Env
    → SessionDiffPipeline
    → ℕ
    → List PyroRow
    → List PyroRow
    → PyroRow
    → SessionDiffPipeline × Option SessionError
unfolding prep_session process_prepared
process env s row_index prior_inputs prior_outputs input =
    let id = row_index % 2 ^ 32 in
    process_prepared env id input (prep_session env s id prior_inputs prior_outputs)
