-- ===== src/Session/Endings.antt =====
-- How a session of lib/pyroduct/src/pipeline/session_diff.rs ends: in use, and after its eviction.
use pyroduct.Base.{ℕ, none, some, List, [], ◌∷◌, ◌++◌, true, false, ◌≡◌, refl, ap, ◌∙◌, arith}
use pyroduct.Base.Texts.{str_discrete}
use pyroduct.Value.{group, PyroRow, empty, item}
use pyroduct.Base.Maps.{set_entry, entry, drop_entry, entry-set_entry_self, entry-drop_entry_self}
use pyroduct.Session.{
  prep, called, SessionResult, continue, end, terminate, failure, cannot_resume, Env,
  SessionDiffPipeline, contains_key, rows_of, is_closed, remove, get_or_open_session, rolled_up_row,
  rollup_and_cleanup_session,
}
use pyroduct.Session.Lru.{Valid, contains_key-remove}
use pyroduct.Session.Calls.{
  set_session_status, status_after, output_of, append_rows, prep_opened, prep_session, finish,
  call_logged, call_opened, call,
}

-- The step's result, as the module gives it in this state.
abbrev pub result_of : Env → SessionDiffPipeline → ℕ → PyroRow → SessionResult
result_of env s id input = env.module_step (s.shard ++ called id input ∷ [])

in_use :
    (env : Env) (s : SessionDiffPipeline) (id : ℕ)
    → contains_key s.active_sessions id ≡ true
    → get_or_open_session env s id
      ≡ (record s { lru_order = remove s.lru_order id ++ id ∷ [] }, none)
unfolding get_or_open_session
in_use env s id h = rw h refl

-- A session that was closed is not opened again.
closed_out :
    (env : Env) (s : SessionDiffPipeline) (id : ℕ)
    → contains_key s.active_sessions id ≡ false
    → is_closed (entry id s.status) ≡ true
    → get_or_open_session env s id ≡ (s, some cannot_resume)
unfolding get_or_open_session
closed_out env s id h c = rw (h, c) refl

abbrev pub IsLast : SessionResult → Type 0
IsLast (continue r) = ⊥
IsLast _ = Unit

last_is_closed : (res : SessionResult) → IsLast res → is_closed (some (status_after res)) ≡ true
unfolding is_closed status_after str_discrete
last_is_closed (continue r) h = absurd h
last_is_closed (end r) h = refl
last_is_closed terminate h = refl
last_is_closed failure h = refl

-- A step that is the last of a session that is not active, as after its eviction, is answered with an
-- error and nothing of the session is rolled up, although its status says that it was closed.
pub call_inactive_last :
    (env : Env) (s : SessionDiffPipeline) (id : ℕ) (input : PyroRow)
    → contains_key s.active_sessions id ≡ false
    → IsLast (result_of env s id input)
    → ((call env s id input).1 ≡ some cannot_resume)
      × ((call env s id input).0.output ≡ s.output)
      × (entry id (call env s id input).0.status ≡ some (status_after (result_of env s id input)))
unfolding call set_session_status call_opened
call_inactive_last env s id input h last =
    rw
      (closed_out env
        (record s {
          shard = s.shard ++ called id input ∷ [];
          status = set_entry id (status_after (result_of env s id input)) s.status;
        })
        id h
        (ap is_closed (entry-set_entry_self id (status_after (result_of env s id input)) s.status)
          ∙ last_is_closed (result_of env s id input) last))
      (refl, refl, entry-set_entry_self id (status_after (result_of env s id input)) s.status)

finish_last :
    (env : Env) (id : ℕ) (res : SessionResult) (s : SessionDiffPipeline)
    → IsLast res
    → (finish env id res s).0 ≡ (rollup_and_cleanup_session env s id).0
unfolding finish
finish_last env id (continue r) s h = absurd h
finish_last env id (end r) s h = refl
finish_last env id terminate s h = refl
finish_last env id failure s h = refl

rolled_up : SessionDiffPipeline → ℕ → SessionDiffPipeline
rolled_up s id = record s {
  output = s.output ++ (id, rolled_up_row (rows_of s id)) ∷ [];
  active_sessions = remove s.active_sessions id;
  lru_order = remove s.lru_order id;
  files = drop_entry id s.files;
}

rollup_lem :
    (env : Env) (s : SessionDiffPipeline) (id : ℕ)
    → env.push_ok id ≡ true
    → (rollup_and_cleanup_session env s id).0 ≡ rolled_up s id
unfolding rollup_and_cleanup_session rolled_up
rollup_lem env s id h = rw h refl

rows_of-append_rows :
    (s : SessionDiffPipeline) (id : ℕ) (rows : List PyroRow)
    → rows_of (append_rows s id rows) id ≡ rows_of s id ++ rows
unfolding rows_of append_rows
rows_of-append_rows s id rows = rw (entry-set_entry_self id (rows_of s id ++ rows) s.files) refl

-- The state that the last step of a session in use leaves.
ended : Env → SessionDiffPipeline → ℕ → PyroRow → SessionDiffPipeline
ended env s id input =
    let res = result_of env s id input in
    let s' = record s {
      shard = s.shard ++ called id input ∷ [];
      status = set_entry id (status_after res) s.status;
      lru_order = remove s.lru_order id ++ id ∷ [];
    } in
    let row = item "input" (group input) (item "output" (output_of res) empty) in
    let s'' = append_rows s' id (row ∷ []) in
    rolled_up (record s'' { lru_order = remove s''.lru_order id ++ id ∷ [] }) id

call-ended :
    (env : Env) (s : SessionDiffPipeline) (id : ℕ) (input : PyroRow)
    → contains_key s.active_sessions id ≡ true
    → env.append_ok id ≡ true
    → env.push_ok id ≡ true
    → IsLast (result_of env s id input)
    → (call env s id input).0 ≡ ended env s id input
unfolding call call_opened call_logged set_session_status ended append_rows
call-ended env s id input h a p last =
    let res = result_of env s id input in
    let s1 = record s {
      shard = s.shard ++ called id input ∷ [];
      status = set_entry id (status_after res) s.status;
    } in
    let s2 = record s1 { lru_order = remove s.lru_order id ++ id ∷ [] } in
    let row = item "input" (group input) (item "output" (output_of res) empty) in
    let s3 = append_rows s2 id (row ∷ []) in
    rw (in_use env s1 id h, a, in_use env s3 id h)
      (finish_last env id res (record s3 { lru_order = remove s3.lru_order id ++ id ∷ [] }) last
        ∙ rollup_lem env _ id p)

-- The last step of a session in use rolls the session up: one record is pushed, of the session's rows
-- and the row of this step; the session is no longer active, its file is gone, and its status is
-- that of the step's result. This supposes that the file and the output take what they are given.
pub call_active_last :
    (env : Env) (s : SessionDiffPipeline) (id : ℕ) (input : PyroRow)
    → Valid s
    → contains_key s.active_sessions id ≡ true
    → env.append_ok id ≡ true
    → env.push_ok id ≡ true
    → IsLast (result_of env s id input)
    → let res = result_of env s id input in
      let s' = (call env s id input).0 in
      (s'.output
        ≡ s.output
          ++ (
            id,
            rolled_up_row (
                rows_of s id
                ++ item "input" (group input) (item "output" (output_of res) empty) ∷ []),
          )
            ∷ [])
      × (contains_key s'.active_sessions id ≡ false)
      × (entry id s'.files ≡ none)
      × (entry id s'.status ≡ some (status_after res))
unfolding ended rolled_up append_rows rows_of
call_active_last env s id input valid h a p last = rw (call-ended env s id input h a p last) (
  ap (λ rows. s.output ++ (id, rolled_up_row rows) ∷ [])
      (rows_of-append_rows s id (
        item "input" (group input) (item "output" (output_of (result_of env s id input)) empty)
        ∷ [])),
  contains_key-remove s.active_sessions id id valid.0.1 ∙ ground arith,
  entry-drop_entry_self id _,
  entry-set_entry_self id (status_after (result_of env s id input)) s.status,
)

-- Preparing a session that was closed and is not active is refused, and marks it as failed, whether it
-- had succeeded or not.
pub prep_session_closed :
    (env : Env) (s : SessionDiffPipeline) (id : ℕ) (inputs outputs : List PyroRow)
    → contains_key s.active_sessions id ≡ false
    → is_closed (entry id s.status) ≡ true
    → env.prep_ok (s.shard ++ prep id inputs outputs ∷ []) ≡ true
    → ((prep_session env s id inputs outputs).1 ≡ some cannot_resume)
      × (entry id (prep_session env s id inputs outputs).0.status ≡ some "failed")
unfolding prep_session prep_opened set_session_status
prep_session_closed env s id inputs outputs h c p =
    rw (p, closed_out env (record s { shard = s.shard ++ prep id inputs outputs ∷ [] }) id h c)
      (refl, entry-set_entry_self id "failed" s.status)
