-- ===== src/Session/Lru.antt =====
-- The order of use and the active sessions of lib/pyroduct/src/pipeline/session_diff.rs.
use pyroduct.Base.{
  ℕ, suc, ◌+◌, ◌≤◌, ◌<◌, Option, none, some, List, [], ◌∷◌, ◌++◌, true, false, ◌||◌, ◌==◌, leb, ◌≡◌,
  refl, sym, ap, ◌∙◌, arith, length, map, append-nil, append_assoc, if◌then◌else◌, ◌⊎◌, inl, inr,
  Bool-cases,
}
use pyroduct.Base.Maps.{entry}
use pyroduct.Session.{
  Env, SessionDiffPipeline, SessionError, ShardCall, closed, contains_key, remove, touch,
  evict_loop, evict_if_needed, get_or_open_session, is_closed,
}
use mathlib.Core.Path.{subst⁻¹}

-- No session stands twice.
abbrev pub Distinct : List ℕ → Type 0
Distinct [] = Unit
Distinct (x ∷ xs) = (contains_key xs x ≡ false) × Distinct xs

-- The same sessions.
abbrev pub Same : List ℕ → List ℕ → Type 0
Same xs ys = (id : ℕ) → contains_key xs id ≡ contains_key ys id

-- The order of use and the active sessions have the same sessions, each once.
abbrev pub Agree : List ℕ → List ℕ → Type 0
Agree lru active = Distinct lru × Distinct active × Same lru active

abbrev pub Valid : SessionDiffPipeline → Type 0
Valid s =
    Agree s.lru_order s.active_sessions
    × (0 < s.max_active_sessions → length s.active_sessions ≤ s.max_active_sessions)

pub contains_key-remove :
    (xs : List ℕ) (x id : ℕ)
    → Distinct xs
    → contains_key (remove xs x) id ≡ (if x == id then false else contains_key xs id)
unfolding contains_key remove
contains_key-remove [] x id d = ground arith
contains_key-remove (y ∷ xs) x id d = ground (arith, contains_key-remove xs x id d.1, d.0)

contains_key-append :
    (xs : List ℕ) (x id : ℕ) → contains_key (xs ++ x ∷ []) id ≡ ((x == id) || contains_key xs id)
unfolding contains_key
contains_key-append [] x id = ground arith
contains_key-append (y ∷ xs) x id = ground (arith, contains_key-append xs x id)

pub remove-Distinct : (xs : List ℕ) (x : ℕ) → Distinct xs → Distinct (remove xs x)
unfolding remove
remove-Distinct [] x d = tt
remove-Distinct (y ∷ xs) x d =
    ground (arith, remove-Distinct xs x d.1, contains_key-remove xs x y d.1)

append-Distinct :
    (xs : List ℕ) (x : ℕ) → contains_key xs x ≡ false → Distinct xs → Distinct (xs ++ x ∷ [])
unfolding contains_key
append-Distinct [] x h d = (refl, tt)
append-Distinct (y ∷ xs) x h d =
    ground (arith, append-Distinct xs x, contains_key-append xs x y, h, d)

length-remove :
    (xs : List ℕ) (x : ℕ) → contains_key xs x ≡ true → length (remove xs x) + 1 ≡ length xs
unfolding contains_key remove
length-remove [] x h = absurd (cc h)
length-remove (y ∷ xs) x h = ground (arith, length-remove xs x)

Same-nil : (xs : List ℕ) → Same [] xs → length xs ≡ 0
unfolding contains_key
Same-nil [] h = refl
Same-nil (x ∷ xs) h = absurd (ground (arith, h x))

front_active : (v : ℕ) (lru active : List ℕ) → Same (v ∷ lru) active → contains_key active v ≡ true
unfolding contains_key
front_active v lru active same = ground (arith, same v)

evicted-Agree : (v : ℕ) (lru active : List ℕ) → Agree (v ∷ lru) active → Agree lru (remove active v)
unfolding contains_key
evicted-Agree v lru active h = (
  h.0.1,
  remove-Distinct active v h.1,
  λ id. ground (arith, h.2 id, h.2 v, h.0.0, contains_key-remove active v id h.1),
)

-- The loop went on to the rest of the order, or stopped.
evict_turn :
    (max v : ℕ) (lru active : List ℕ) (shard : List ShardCall)
    → Agree (v ∷ lru) active
    → ((max ≤ length active)
        × (evict_loop max (v ∷ lru) active shard
            ≡ evict_loop max lru (remove active v) (shard ++ closed v ∷ [])))
      ⊎ ((length active < max) × (evict_loop max (v ∷ lru) active shard ≡ (v ∷ lru, active, shard)))
unfolding evict_loop
evict_turn max v lru active shard h = elim (Bool-cases (leb max (length active))) [
  | inl e ↦ inl (ground (arith, e), rw (e, front_active v lru active h.2) refl)
  | inr e ↦ inr (ground (arith, e), rw e refl)
]

abbrev Loop : Type 0
Loop = List ℕ × List ℕ × List ShardCall

-- What the loop does to an order and active sessions that agree.
abbrev Evicts : ℕ → List ℕ → List ℕ → List ShardCall → Loop → Type 0
Evicts max lru active shard out =
    Agree out.0 out.1
    × (0 < max → length out.1 < max)
    × ((victims : List ℕ) × (lru ≡ victims ++ out.0)
        × (out.2 ≡ shard ++ map closed victims)
        × (length victims + length out.1 ≡ length active))

stopped :
    (max : ℕ) (lru active : List ℕ) (shard : List ShardCall)
    → Agree lru active
    → (0 < max → length active < max)
    → Evicts max lru active shard (lru, active, shard)
stopped max lru active shard h room = (h, room, ([], refl, sym (append-nil shard), omega arith))

pub evict_loop-Evicts :
    (max : ℕ) (lru active : List ℕ) (shard : List ShardCall)
    → Agree lru active
    → Evicts max lru active shard (evict_loop max lru active shard)
unfolding evict_loop
evict_loop-Evicts max [] active shard h =
    stopped max [] active shard h (λ p. omega (arith, Same-nil active h.2))
evict_loop-Evicts max (v ∷ lru) active shard h = elim (evict_turn max v lru active shard h) [
  | inl (full, e) ↦
      let (agree, room, (vs, order, trace, count)) =
        evict_loop-Evicts max lru (remove active v) (shard ++ closed v ∷ [])
          (evicted-Agree v lru active h) in
      subst⁻¹ (Evicts max (v ∷ lru) active shard) e (
        agree,
        room,
        (
          v ∷ vs,
          ap (λ l. v ∷ l) order,
          trace ∙ append_assoc shard (closed v ∷ []) (map closed vs),
          omega (arith, count, length-remove active v (front_active v lru active h.2)),
        ),
      )
  | inr (room, e) ↦
      subst⁻¹ (Evicts max (v ∷ lru) active shard) e
        (stopped max (v ∷ lru) active shard h (λ p. room))
]

-- Eviction keeps the order and the active sessions in step and makes room for one more; it closes the
-- sessions used longest ago, in that order, and only those that it takes off the active ones.
pub evict_if_needed-Evicts :
    (s : SessionDiffPipeline)
    → Agree s.lru_order s.active_sessions
    → Agree (evict_if_needed s).lru_order (evict_if_needed s).active_sessions
      × (0 < s.max_active_sessions
          → length (evict_if_needed s).active_sessions < s.max_active_sessions)
      × ((victims : List ℕ) × (s.lru_order ≡ victims ++ (evict_if_needed s).lru_order)
          × ((evict_if_needed s).shard ≡ s.shard ++ map closed victims)
          × (length victims + length (evict_if_needed s).active_sessions
              ≡ length s.active_sessions))
unfolding evict_if_needed
evict_if_needed-Evicts s agree =
    evict_loop-Evicts s.max_active_sessions s.lru_order s.active_sessions s.shard agree

contains_key_behind :
    (xs ys : List ℕ) (id : ℕ) → contains_key (xs ++ ys) id ≡ false → contains_key ys id ≡ false
unfolding contains_key
contains_key_behind [] ys id h = h
contains_key_behind (x ∷ xs) ys id h = contains_key_behind xs ys id (ground (arith, h))

touch-Agree :
    (id : ℕ) (lru active : List ℕ)
    → Agree lru active
    → contains_key active id ≡ true
    → Agree (touch id lru) active
unfolding touch
touch-Agree id lru active h c = (
  append-Distinct (remove lru id) id (contains_key-remove lru id id h.0 ∙ ground arith)
      (remove-Distinct lru id h.0),
  h.1,
  λ j. ground (
    arith,
    contains_key-append (remove lru id) id j,
    contains_key-remove lru id j h.0,
    h.2 j,
    h.2 id,
    c,
  ),
)

open-Agree :
    (id : ℕ) (lru active : List ℕ)
    → Agree lru active
    → contains_key lru id ≡ false
    → Agree (lru ++ id ∷ []) (id ∷ active)
unfolding contains_key
open-Agree id lru active h c = (
  append-Distinct lru id c h.0,
  (sym (h.2 id) ∙ c, h.1),
  λ j. contains_key-append lru id j ∙ ap (λ b. (id == j) || b) (h.2 j),
)

-- The session is active, and the last in the order of use.
abbrev pub InUse : ℕ → SessionDiffPipeline → Type 0
InUse id s =
    (contains_key s.active_sessions id ≡ true) × ((lru : List ℕ) × (s.lru_order ≡ lru ++ id ∷ []))

-- How `get_or_open_session` ends: with the session in use, or with an error.
abbrev pub Opened : ℕ → SessionDiffPipeline × Option SessionError → Type 0
Opened id (s, none) = Valid s × InUse id s
Opened id (s, some e) = Valid s

opened-Valid :
    (s : SessionDiffPipeline) (id : ℕ)
    → Valid s
    → contains_key s.active_sessions id ≡ false
    → Agree ((evict_if_needed s).lru_order ++ id ∷ []) (id ∷ (evict_if_needed s).active_sessions)
      × (0 < s.max_active_sessions
          → suc (length (evict_if_needed s).active_sessions) ≤ s.max_active_sessions)
opened-Valid s id valid e =
    let (agree, room, (vs, order, _, _)) = evict_if_needed-Evicts s valid.0 in
    (
      open-Agree id (evict_if_needed s).lru_order (evict_if_needed s).active_sessions agree (
          contains_key_behind vs (evict_if_needed s).lru_order id
            (ap (λ l. contains_key l id) (sym order) ∙ valid.0.2 id ∙ e)),
      λ p. omega (arith, room p),
    )

evicted-Valid : (s : SessionDiffPipeline) → Valid s → Valid (evict_if_needed s)
unfolding evict_if_needed
evicted-Valid s valid =
    let (agree, room, _) = evict_if_needed-Evicts s valid.0 in (agree, λ p. omega (arith, room p))

pub get_or_open_session-Opened :
    (env : Env) (s : SessionDiffPipeline) (id : ℕ)
    → Valid s
    → Opened id (get_or_open_session env s id)
unfolding get_or_open_session contains_key
get_or_open_session-Opened env s id valid = elim (Bool-cases (contains_key s.active_sessions id)) [
  | inl e ↦ rw e (
    (touch-Agree id s.lru_order s.active_sessions valid.0 e, valid.1),
    (e, (remove s.lru_order id, refl)),
  )
  | inr e ↦ elim (Bool-cases (is_closed (entry id s.status))) [
    | inl c ↦ rw (e, c) valid
    | inr c ↦ elim (Bool-cases (env.open_ok id)) [
      | inl o ↦
          rw (e, c, o)
            (opened-Valid s id valid e, (ground arith, ((evict_if_needed s).lru_order, refl)))
      | inr o ↦ rw (e, c, o) (evicted-Valid s valid)
    ]
  ]
]

pub length-remove_le : (xs : List ℕ) (x : ℕ) → length (remove xs x) ≤ length xs
unfolding remove
length-remove_le [] x = omega arith
length-remove_le (y ∷ xs) x = ground (arith, length-remove_le xs x)
