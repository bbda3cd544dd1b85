-- ===== src/Session/Runs.antt =====
-- The pipeline of lib/pyroduct/src/pipeline/session_diff.rs under any sequence of calls.
use pyroduct.Base.{
  ℕ, ◌%◌, ◌^◌, String, Option, none, some, List, [], ◌∷◌, ◌++◌, refl, arith, inl, inr, Bool-cases,
}
use pyroduct.Value.{PyroRow}
use pyroduct.Session.{
  prep, SessionResult, continue, end, terminate, failure, SessionError, Env, SessionDiffPipeline,
  contains_key, get_or_open_session, rollup_and_cleanup_session,
}
use pyroduct.Session.Lru.{
  Valid, Opened, get_or_open_session-Opened, contains_key-remove, remove-Distinct, length-remove_le,
}
use pyroduct.Session.Calls.{
  set_session_status, append_missing, prep_opened, prep_session, finish, call_logged, call_opened,
  call, close_session, process_prepared, process, append_rows,
}

rollup-Valid :
    (env : Env) (s : SessionDiffPipeline) (id : ℕ)
    → Valid s
    → Valid (rollup_and_cleanup_session env s id).0
unfolding rollup_and_cleanup_session
rollup-Valid env s id valid = elim (Bool-cases (env.push_ok id)) [
  | inl e ↦ rw e (
    (
      remove-Distinct s.lru_order id valid.0.0,
      remove-Distinct s.active_sessions id valid.0.1,
      λ j. ground (
        arith,
        contains_key-remove s.lru_order id j valid.0.0,
        contains_key-remove s.active_sessions id j valid.0.1,
        valid.0.2 j,
      ),
    ),
    λ p. omega (arith, valid.1 p, length-remove_le s.active_sessions id),
  )
  | inr e ↦ rw e valid
]

append_missing-Valid :
    (env : Env) (id : ℕ) (rows : List PyroRow) (s : SessionDiffPipeline)
    → Valid s
    → Valid (append_missing env id rows s).0
unfolding append_missing
append_missing-Valid env id [] s valid = valid
append_missing-Valid env id (row ∷ rows) s valid = elim (Bool-cases (env.append_ok id)) [
  | inl e ↦ rw e valid
  | inr e ↦ rw e valid
]

prep_opened-Valid :
    (env : Env) (id : ℕ) (rows : List PyroRow) (r : SessionDiffPipeline × Option SessionError)
    → Opened id r
    → Valid (prep_opened env id rows r).0
unfolding prep_opened set_session_status
prep_opened-Valid env id rows (s, some e) h = h
prep_opened-Valid env id rows (s, none) h = append_missing-Valid env id rows s h.0

prep_session-Valid :
    (env : Env) (s : SessionDiffPipeline) (id : ℕ) (inputs outputs : List PyroRow)
    → Valid s
    → Valid (prep_session env s id inputs outputs).0
unfolding prep_session
prep_session-Valid env s id inputs outputs valid =
    elim (Bool-cases (env.prep_ok (s.shard ++ prep id inputs outputs ∷ []))) [
      | inl e ↦ rw e (
          prep_opened-Valid env id _
            (get_or_open_session env (record s { shard = s.shard ++ prep id inputs outputs ∷ [] })
              id)
            (get_or_open_session-Opened env _ id valid))
      | inr e ↦ rw e valid
    ]

finish-Valid :
    (env : Env) (id : ℕ) (res : SessionResult) (s : SessionDiffPipeline)
    → Valid s
    → Valid (finish env id res s).0
unfolding finish
finish-Valid env id (continue r) s valid = valid
finish-Valid env id (end r) s valid = rollup-Valid env s id valid
finish-Valid env id terminate s valid = rollup-Valid env s id valid
finish-Valid env id failure s valid = rollup-Valid env s id valid

call_logged-Valid :
    (env : Env) (id : ℕ) (res : SessionResult) (r : SessionDiffPipeline × Option SessionError)
    → Opened id r
    → Valid (call_logged env id res r).0
unfolding call_logged
call_logged-Valid env id res (s, some e) h = h
call_logged-Valid env id res (s, none) h = finish-Valid env id res s h.0

call_opened-Valid :
    (env : Env) (id : ℕ) (input : PyroRow) (res : SessionResult)
    (r : SessionDiffPipeline × Option SessionError)
    → Opened id r
    → Valid (call_opened env id input res r).0
unfolding call_opened
call_opened-Valid env id input res (s, some e) h = h
call_opened-Valid env id input res (s, none) h = elim (Bool-cases (env.append_ok id)) [
  | inl e ↦
      rw e (
        call_logged-Valid env id res _ (get_or_open_session-Opened env (append_rows s id _) id h.0))
  | inr e ↦ rw e (call_logged-Valid env id res _ (get_or_open_session-Opened env s id h.0))
]

call-Valid :
    (env : Env) (s : SessionDiffPipeline) (id : ℕ) (input : PyroRow)
    → Valid s
    → Valid (call env s id input).0
unfolding call set_session_status
call-Valid env s id input valid =
    call_opened-Valid env id input _ _ (get_or_open_session-Opened env _ id valid)

close_session-Valid :
    (env : Env) (s : SessionDiffPipeline) (id : ℕ) → Valid s → Valid (close_session env s id)
unfolding close_session
close_session-Valid env s id valid = elim (Bool-cases (contains_key s.active_sessions id)) [
  | inl e ↦ rw e (rollup-Valid env s id valid)
  | inr e ↦ rw e valid
]

process_prepared-Valid :
    (env : Env) (id : ℕ) (input : PyroRow) (r : SessionDiffPipeline × Option SessionError)
    → Valid r.0
    → Valid (process_prepared env id input r).0
unfolding process_prepared
process_prepared-Valid env id input (s, some e) valid = valid
process_prepared-Valid env id input (s, none) valid =
    close_session-Valid env (call env s id input).0 id (call-Valid env s id input valid)

process-Valid :
    (env : Env) (s : SessionDiffPipeline) (row_index : ℕ) (ins outs : List PyroRow)
    (input : PyroRow)
    → Valid s
    → Valid (process env s row_index ins outs input).0
unfolding process
process-Valid env s row_index ins outs input valid =
    process_prepared-Valid env (row_index % 2 ^ 32) input _
      (prep_session-Valid env s (row_index % 2 ^ 32) ins outs valid)

pub data Request : Type 0 where
  prep_request : ℕ → List PyroRow → List PyroRow → Request
  call_request : ℕ → PyroRow → Request
  close_request : ℕ → Request
  process_request : ℕ → List PyroRow → List PyroRow → PyroRow → Request

unfoldable pub handle : Env → Request → SessionDiffPipeline → SessionDiffPipeline
unfolding prep_session call close_session process
handle env (prep_request id ins outs) s = (prep_session env s id ins outs).0
handle env (call_request id input) s = (call env s id input).0
handle env (close_request id) s = close_session env s id
handle env (process_request row ins outs input) s = (process env s row ins outs input).0

-- One call after the other, what is outside as it is at each.
unfoldable pub run : List (Env × Request) → SessionDiffPipeline → SessionDiffPipeline
unfolding handle
run [] s = s
run ((env, request) ∷ more) s = run more (handle env request s)

-- A pipeline before its first call, over what was stored before.
abbrev pub started :
    ℕ → List (ℕ × String) → List (ℕ × List PyroRow) → List (ℕ × PyroRow) → SessionDiffPipeline
started max status files output = record {
  max_active_sessions = max;
  active_sessions = [];
  lru_order = [];
  status = status;
  files = files;
  output = output;
  shard = [];
}

handle-Valid :
    (env : Env) (request : Request) (s : SessionDiffPipeline)
    → Valid s
    → Valid (handle env request s)
unfolding handle
handle-Valid env (prep_request id ins outs) s valid = prep_session-Valid env s id ins outs valid
handle-Valid env (call_request id input) s valid = call-Valid env s id input valid
handle-Valid env (close_request id) s valid = close_session-Valid env s id valid
handle-Valid env (process_request row ins outs input) s valid =
    process-Valid env s row ins outs input valid

run_from-Valid :
    (requests : List (Env × Request)) (s : SessionDiffPipeline) → Valid s → Valid (run requests s)
unfolding run
run_from-Valid [] s valid = valid
run_from-Valid ((env, request) ∷ more) s valid =
    run_from-Valid more (handle env request s) (handle-Valid env request s valid)

-- Whatever calls a started pipeline gets, in whatever order and whatever fails outside, the order of
-- use has each active session once and no other, and the active sessions are no more than the
-- pipeline allows, where it allows any.
pub run-Valid :
    (max : ℕ) (status : List (ℕ × String)) (files : List (ℕ × List PyroRow))
    (output : List (ℕ × PyroRow)) (requests : List (Env × Request))
    → Valid (run requests (started max status files output))
run-Valid max status files output requests =
    run_from-Valid requests (started max status files output)
      ((tt, tt, λ id. refl), λ p. omega arith)
