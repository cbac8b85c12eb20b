-- ===== src/Scheduler/Sessions.antt =====
-- lovensepy/services/http_api/scheduler.py: sessions of presets, patterns and loops. A task of
-- `_run_session_until` is a number whose row in `waits` says if it has ended.
use lovensepy.Base.{
  ℕ, zero, suc, ◌+◌, ◌-◌, max, String, Bool, true, false, not, ◌&&◌, Option, none, some, List, [],
  ◌∷◌, leb, nat_eq, if◌then◌else◌, is_some, ◌==◌, ℕ_Eq, String_Eq, Pair_Eq, Codes_Eq,
}
use lovensepy.Base.Dict.{Dict, get, put, pop, keep}
use lovensepy.Base.Int.{ℤ, pos, negsuc}
use lovensepy.Base.Result.{Result, ok, err, value_error, runtime_error}
use lovensepy.Scheduler.Types.{
  Scheduler, Session, SessionKind, Meta, hold, session, Call, send, preset_session, pattern_session,
  function_loop, preset_request, pattern_request,
}
use lovensepy.Scheduler.Slots.{forget}

-- `requested` or, if it is not positive, the longest session
unfoldable pub effective : ℤ → Scheduler → ℕ
effective (pos zero) s = s.session_max_sec
effective (pos (suc n)) s = suc n
effective (negsuc n) s = s.session_max_sec

is_capped : ℤ → Bool
is_capped (pos (suc n)) = false
is_capped _ = true

-- asyncio.create_task(self._run_session_until(task_id)), registered
unfoldable pub start_wait : String → Scheduler → Scheduler
start_wait task_id s = record s {
  session_tasks = put task_id s.next_task s.session_tasks;
  waits = put s.next_task false s.waits;
  next_task = suc s.next_task;
}

unfoldable pub track_session :
    ℕ → String → SessionKind → Option String → ℤ → Scheduler → Result (Scheduler)
unfolding is_capped
track_session now task_id kind toy_id duration s =
    let row : Session = record {
      kind = kind;
      toy_id = toy_id;
      duration_sec = effective duration s;
      duration_capped = is_capped duration;
      extension_count = 0;
      started = now;
      ends = now + effective duration s;
    } in
    if s.closed
    then err runtime_error
    else ok (start_wait task_id (record s { metas = put task_id (session row) s.metas }))

-- self._session_tasks.get(task_id) is me
is_registered : ℕ → String → Scheduler → Bool
is_registered me task_id s = elim (get task_id s.session_tasks) [
  | none ↦ false
  | some h ↦ nat_eq h me
]

-- The `finally` block: only the registered task clears the row.
unfoldable pub wait_finish : ℕ → String → Scheduler → Scheduler
unfolding is_registered
wait_finish me task_id s =
    let mine = is_registered me task_id s in
    record s {
      waits = put me true s.waits;
      session_tasks = if mine then pop task_id s.session_tasks else s.session_tasks;
      metas = if mine then pop task_id s.metas else s.metas;
    }

abbrev pub ends_of : Option Meta → ℕ
ends_of (some (session row)) = row.ends
ends_of _ = 0

-- A turn of `_run_session_until`: it ends without a row, or when the row's time is over.
unfoldable pub run_session : ℕ → ℕ → String → Scheduler → Scheduler
run_session now me task_id s =
    if leb (ends_of (get task_id s.metas)) now then wait_finish me task_id s else s

unfoldable pub end_old : Option ℕ → String → Scheduler → Scheduler
end_old none task_id s = s
end_old (some h) task_id s = wait_finish h task_id s

-- A task is taken out of `_session_tasks` and, unless it has ended, cancelled.
unfoldable pub cancel_session : String → Scheduler → Scheduler
cancel_session task_id s =
    end_old (get task_id s.session_tasks) task_id
      (record s { session_tasks = pop task_id s.session_tasks })

is_session_of : Option String → Meta → Bool
is_session_of toy_id (hold _) = false
is_session_of none (session row) = not (is_some row.toy_id)
is_session_of (some toy) (session row) = elim row.toy_id [ none ↦ false | some t ↦ t == toy ]

unfoldable pub sessions_of : Option String → Dict String Meta → List String
unfolding is_session_of
sessions_of toy_id [] = []
sessions_of toy_id ((tid, m) ∷ metas) =
    let rest = sessions_of toy_id metas in if is_session_of toy_id m then tid ∷ rest else rest

unfoldable pub drop_sessions : List String → Scheduler → Scheduler
drop_sessions [] s = s
drop_sessions (tid ∷ tids) s = drop_sessions tids (forget tid (cancel_session tid s))

unfoldable pub cancel_sessions_for_toy : Option String → Scheduler → Scheduler
cancel_sessions_for_toy toy_id s = drop_sessions (sessions_of toy_id s.metas) s

unfoldable pub cancel_listed : List (String × ℕ) → Scheduler → Scheduler
cancel_listed [] s = s
cancel_listed ((tid, _) ∷ tids) s = cancel_listed tids (cancel_session tid s)

is_hold : Meta → Bool
is_hold (hold _) = true
is_hold (session _) = false

unfoldable pub cancel_all_sessions : Scheduler → Scheduler
unfolding is_hold
cancel_all_sessions s =
    let s' = cancel_listed s.session_tasks s in
    record s' { metas = keep (λ _ m. is_hold m) s'.metas }

-- The call that starts the preset or the pattern again.
unfoldable pub resend : ℕ → Session → Result Call
resend time row = elim row.kind [
  | preset_session name ↦
      if name == "" then err value_error else ok (preset_request name time row.toy_id)
  | pattern_session key stored ↦
      if stored then ok (pattern_request key time row.toy_id) else err value_error
  | function_loop _ ↦ err value_error
]

unfoldable pub extended : ℕ → ℕ → Session → Session
extended now time row =
    let new_end = max row.ends (now + time) in
    record row {
      ends = new_end;
      extension_count = suc row.extension_count;
      duration_sec = new_end - row.started;
    }

-- The old task is no longer registered, so its `finally` leaves the row alone.
unfoldable pub replace_wait : String → Scheduler → Scheduler
replace_wait task_id s = end_old (get task_id s.session_tasks) task_id (start_wait task_id s)

unfoldable pub resent : ℕ → String → ℕ → Session → Result Call → Scheduler → Result Scheduler
resent now task_id time row (err e) s = err e
resent now task_id time row (ok call) s =
    let moved = put task_id (session (extended now time row)) s.metas in
    ok (replace_wait task_id (send call (record s { metas = moved })))

unfoldable pub extend_row : ℕ → String → ℕ → Session → Scheduler → Result Scheduler
extend_row now task_id time row s = resent now task_id time row (resend time row) s

unfoldable pub extend_found : ℕ → String → ℤ → Option Meta → Scheduler → Result Scheduler
extend_found now task_id duration none s = err value_error
extend_found now task_id duration (some (hold _)) s = err value_error
extend_found now task_id duration (some (session row)) s =
    extend_row now task_id (effective duration s) row s

unfoldable pub extend_session : ℕ → String → ℤ → Scheduler → Result Scheduler
extend_session now task_id duration s =
    if s.closed
    then err runtime_error
    else extend_found now task_id duration (get task_id s.metas) s

-- The waiting task of a session is registered and has not ended.
unfoldable pub is_waiting : String → Scheduler → Bool
is_waiting tid s = elim (get tid s.session_tasks) [
  | none ↦ false
  | some h ↦ elim (get h s.waits) [ none ↦ false | some ended ↦ not ended ]
]

-- A preset session of a name, a pattern session of a signature.
same_kind : SessionKind → SessionKind → Bool
same_kind (preset_session a) (preset_session b) = a == b
same_kind (pattern_session a _) (pattern_session b _) = a == b
same_kind _ _ = false

is_match : Option String → SessionKind → Meta → Bool
is_match toy_id kind (hold _) = false
is_match toy_id kind (session row) = is_session_of toy_id (session row) && same_kind kind row.kind

unfoldable pub find_matching_session :
    Option String → SessionKind → Scheduler → Dict String Meta → Option String
unfolding is_match same_kind is_session_of
find_matching_session toy_id kind s [] = none
find_matching_session toy_id kind s ((tid, m) ∷ metas) =
    let rest = find_matching_session toy_id kind s metas in
    if is_match toy_id kind m && is_waiting tid s then some tid else rest
