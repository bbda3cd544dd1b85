-- ===== src/Session/Tests.antt =====
-- Sessions in calls: two may be active.
use pyroduct.Base.{
  ℕ, ◌+◌, ◌<◌, String, none, some, List, [], ◌∷◌, ◌++◌, map, true, false, ◌≡◌, refl, length, arith,
}
use pyroduct.Base.Texts.{str_discrete}
use pyroduct.Value.{PyroValue, PyroRow, empty, item, group}
use pyroduct.Base.Maps.{entry}
use pyroduct.Session.{
  closed, end, Env, SessionDiffPipeline, cannot_resume, contains_key, rows_of, rolled_up_row,
  evict_if_needed, is_closed,
}
use pyroduct.Session.Lru.{Agree, Valid, evict_if_needed-Evicts}
use pyroduct.Session.Calls.{call, prep_session, status_after, output_of}
use pyroduct.Session.Runs.{Request, prep_request, run, started, run-Valid}
use pyroduct.Session.Rows.{
  unpack_session_diff, rows_of_steps, last_row, unpack_session_diff-rolled_up_row,
}
use pyroduct.Session.Endings.{result_of, call_active_last, call_inactive_last, prep_session_closed}
use pyroduct.Session.Ids.{next_session_id, next_session_id_fresh}

abbrev question : PyroRow
question = item "q" (PyroValue.bool true) empty

abbrev answer : PyroRow
answer = item "a" (PyroValue.bool false) empty

-- Everything outside succeeds, and each step is the last.
abbrev env : Env
env = record {
  module_step = λ trace. end answer;
  prep_ok = λ trace. true;
  open_ok = λ id. true;
  append_ok = λ id. true;
  push_ok = λ id. true;
}

abbrev requests : List (Env × Request)
requests =
    (env, prep_request 1 [] []) ∷ (env, prep_request 2 [] []) ∷ (env, prep_request 3 [] []) ∷ []

abbrev busy : SessionDiffPipeline
busy = record {
  max_active_sessions = 2;
  active_sessions = 3 ∷ 2 ∷ [];
  lru_order = 2 ∷ 3 ∷ [];
  status = [];
  files = [];
  output = [];
  shard = [];
}

-- The first session is evicted when the third is prepared.
third_evicts_first :
    ((run requests (started 2 [] [] [])).active_sessions ≡ 3 ∷ 2 ∷ [])
    × ((run requests (started 2 [] [] [])).lru_order ≡ 2 ∷ 3 ∷ [])
unfolding run str_discrete
third_evicts_first = (refl, refl)

busy-Agree : Agree busy.lru_order busy.active_sessions
unfolding contains_key
busy-Agree = ((refl, (refl, tt)), (refl, (refl, tt)), λ id. ground arith)

busy-Valid : Valid busy
busy-Valid = (busy-Agree, λ p. omega arith)

evict_if_needed-Evicts_example :
    Agree (evict_if_needed busy).lru_order (evict_if_needed busy).active_sessions
    × (0 < 2 → length (evict_if_needed busy).active_sessions < 2)
    × ((victims : List ℕ) × (2 ∷ 3 ∷ [] ≡ victims ++ (evict_if_needed busy).lru_order)
        × ((evict_if_needed busy).shard ≡ [] ++ map closed victims)
        × (length victims + length (evict_if_needed busy).active_sessions ≡ 2))
evict_if_needed-Evicts_example = evict_if_needed-Evicts busy busy-Agree

run-Valid_example : Valid (run requests (started 2 [] [] []))
run-Valid_example = run-Valid 2 [] [] [] requests

unpack_session_diff-rolled_up_row_example :
    unpack_session_diff
      (rolled_up_row (rows_of_steps ((question, answer) ∷ []) ++ map last_row (question ∷ [])))
    ≡ ((question, answer) ∷ []) ++ map (λ i. (i, empty)) (question ∷ [])
unpack_session_diff-rolled_up_row_example =
    unpack_session_diff-rolled_up_row ((question, answer) ∷ []) (question ∷ [])

call_active_last_example :
    let res = result_of env busy 2 question in
    let s' = (call env busy 2 question).0 in
    (s'.output
      ≡ []
        ++ (
          2,
          rolled_up_row (
              rows_of busy 2
              ++ item "input" (group question) (item "output" (output_of res) empty) ∷ []),
        )
          ∷ [])
    × (contains_key s'.active_sessions 2 ≡ false)
    × (entry 2 s'.files ≡ none)
    × (entry 2 s'.status ≡ some (status_after res))
unfolding contains_key
call_active_last_example = call_active_last env busy 2 question busy-Valid refl refl refl tt

call_inactive_last_example :
    ((call env busy 1 question).1 ≡ some cannot_resume)
    × ((call env busy 1 question).0.output ≡ [])
    × (entry 1 (call env busy 1 question).0.status
        ≡ some (status_after (result_of env busy 1 question)))
unfolding contains_key
call_inactive_last_example = call_inactive_last env busy 1 question refl tt

abbrev succeeded : SessionDiffPipeline
succeeded = record busy { status = (1, "succeeded") ∷ [] }

prep_session_closed_example :
    ((prep_session env succeeded 1 [] []).1 ≡ some cannot_resume)
    × (entry 1 (prep_session env succeeded 1 [] []).0.status ≡ some "failed")
unfolding contains_key is_closed entry str_discrete
prep_session_closed_example = prep_session_closed env succeeded 1 [] [] refl refl refl

next_session_id_runs : next_session_id succeeded 0 (7 ∷ []) [] ≡ 8
unfolding next_session_id
next_session_id_runs = refl

next_session_id_fresh_example :
    ((id : ℕ) → contains_key (3 ∷ 2 ∷ []) id ≡ true → id < next_session_id succeeded 0 (7 ∷ []) [])
    × ((id : ℕ) (x : String)
        → entry id ((1, "succeeded") ∷ []) ≡ some x
        → id < next_session_id succeeded 0 (7 ∷ []) [])
    × ((id : ℕ) → contains_key (7 ∷ []) id ≡ true → id < next_session_id succeeded 0 (7 ∷ []) [])
    × ((id : ℕ) → contains_key [] id ≡ true → id < next_session_id succeeded 0 (7 ∷ []) [])
next_session_id_fresh_example =
    next_session_id_fresh succeeded 0 (7 ∷ []) [] (omega arith, (omega arith, tt)) (omega arith, tt)
      (omega arith, tt) tt
