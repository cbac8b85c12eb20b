-- ===== src/Scheduler/Still.antt =====
-- Sessions come and go beside the holds: their operations keep the tables of tasks in agreement and
-- change no level.
use lovensepy.Base.{
  ℕ, String, ◌≡◌, refl, ◌∙◌, Option, none, some, List, [], ◌∷◌, arith, leb, ℕ_Eq, String_Eq,
  Pair_Eq, Codes_Eq, if_split,
}
use lovensepy.Base.Dict.{get, pop, put}
use lovensepy.Scheduler.Types.{Scheduler, send, Session, SessionKind, Call, Meta, hold, session}
use lovensepy.Scheduler.Slots.{forget}
use lovensepy.Scheduler.Sessions.{
  ends_of, resent, wait_finish, cancel_session, end_old, drop_sessions, cancel_sessions_for_toy,
  sessions_of, cancel_listed, cancel_all_sessions, extend_found, extend_session, replace_wait,
  run_session, start_wait, track_session, extend_row, effective, resend,
}
use lovensepy.Scheduler.Valid.{IsValid}
use lovensepy.Base.Result.{Result, err, ok, runtime_error}
use lovensepy.Base.Int.{ℤ}

-- The holds are as they were.
pub record Still (s t : Scheduler) : Type 0 where
  pub valid : IsValid s → IsValid t
  pub same_levels : t.levels ≡ s.levels

Still-refl : (s : Scheduler) → Still s s
Still-refl s = record { valid = λ v. v; same_levels = refl }

Still-trans : (s t u : Scheduler) → Still s t → Still t u → Still s u
Still-trans s t u a b = record {
  valid = λ v. b.valid (a.valid v);
  same_levels = b.same_levels ∙ a.same_levels;
}

end_old-Still : (o : Option ℕ) (tid : String) (s : Scheduler) → Still s (end_old o tid s)
unfolding end_old wait_finish
end_old-Still none tid s = Still-refl s
end_old-Still (some h) tid s = record { valid = λ v. v; same_levels = refl }

cancel_session-Still : (tid : String) (s : Scheduler) → Still s (cancel_session tid s)
unfolding cancel_session
cancel_session-Still tid s =
    let s' : Scheduler = record s { session_tasks = pop tid s.session_tasks } in
    let first : Still s s' = record { valid = λ v. v; same_levels = refl } in
    Still-trans s s' (cancel_session tid s) first (end_old-Still (get tid s.session_tasks) tid s')

drop_sessions-Still : (tids : List String) (s : Scheduler) → Still s (drop_sessions tids s)
unfolding drop_sessions forget
drop_sessions-Still [] s = Still-refl s
drop_sessions-Still (tid ∷ tids) s =
    let a = cancel_session-Still tid s in
    let t : Scheduler = forget tid (cancel_session tid s) in
    let b : Still s t = record { valid = a.valid; same_levels = a.same_levels } in
    Still-trans s t (drop_sessions (tid ∷ tids) s) b (drop_sessions-Still tids t)

cancel_listed-Still : (tids : List (String × ℕ)) (s : Scheduler) → Still s (cancel_listed tids s)
unfolding cancel_listed
cancel_listed-Still [] s = Still-refl s
cancel_listed-Still ((tid, h) ∷ tids) s =
    Still-trans s (cancel_session tid s) (cancel_listed ((tid, h) ∷ tids) s)
      (cancel_session-Still tid s) (cancel_listed-Still tids (cancel_session tid s))

pub cancel_sessions_for_toy-IsValid :
    (toy_id : Option String) (s : Scheduler)
    → IsValid s
    → IsValid (cancel_sessions_for_toy toy_id s)
unfolding cancel_sessions_for_toy
cancel_sessions_for_toy-IsValid toy_id s v =
    (drop_sessions-Still (sessions_of toy_id s.metas) s).valid v

pub cancel_sessions_for_toy-levels :
    (toy_id : Option String) (s : Scheduler) → (cancel_sessions_for_toy toy_id s).levels ≡ s.levels
unfolding cancel_sessions_for_toy
cancel_sessions_for_toy-levels toy_id s =
    (drop_sessions-Still (sessions_of toy_id s.metas) s).same_levels

pub cancel_all_sessions-IsValid : (s : Scheduler) → IsValid s → IsValid (cancel_all_sessions s)
unfolding cancel_all_sessions
cancel_all_sessions-IsValid s v = (cancel_listed-Still s.session_tasks s).valid v

pub cancel_all_sessions-levels : (s : Scheduler) → (cancel_all_sessions s).levels ≡ s.levels
unfolding cancel_all_sessions
cancel_all_sessions-levels s = (cancel_listed-Still s.session_tasks s).same_levels

pub wait_finish-IsValid :
    (me : ℕ) (tid : String) (s : Scheduler) → IsValid s → IsValid (wait_finish me tid s)
unfolding wait_finish
wait_finish-IsValid me tid s v = v

pub run_session-IsValid :
    (now me : ℕ) (tid : String) (s : Scheduler) → IsValid s → IsValid (run_session now me tid s)
unfolding run_session
run_session-IsValid now me tid s v =
    if_split IsValid (leb (ends_of (get tid s.metas)) now) (wait_finish me tid s) s
      (λ _. wait_finish-IsValid me tid s v) (λ _. v)

start_wait-IsValid : (tid : String) (s : Scheduler) → IsValid s → IsValid (start_wait tid s)
unfolding start_wait
start_wait-IsValid tid s v = record {
  owned = v.owned;
  fresh = λ h le. v.fresh h (omega (arith, le));
  tasks_distinct = v.tasks_distinct;
  levels_distinct = v.levels_distinct;
}

-- The state that a call leaves: the new one, or the old one if the call raised.
abbrev pub state_of : Result Scheduler → Scheduler → Scheduler
state_of (ok t) s = t
state_of (err e) s = s

pub track_session-IsValid :
    (now : ℕ) (tid : String) (kind : SessionKind) (toy_id : Option String) (duration : ℤ)
    (s : Scheduler)
    → IsValid s
    → IsValid (state_of (track_session now tid kind toy_id duration s) s)
unfolding track_session
track_session-IsValid now tid kind toy_id duration s v =
    if_split (λ r. IsValid (state_of r s)) s.closed (err runtime_error) _ (λ _. v)
      (λ _. start_wait-IsValid tid (record s { metas = put tid (session _) s.metas }) v)

replace_wait-IsValid : (tid : String) (s : Scheduler) → IsValid s → IsValid (replace_wait tid s)
unfolding replace_wait
replace_wait-IsValid tid s v =
    (end_old-Still (get tid s.session_tasks) tid (start_wait tid s)).valid
      (start_wait-IsValid tid s v)

resent-IsValid :
    (now : ℕ) (tid : String) (time : ℕ) (row : Session) (r : Result Call) (s : Scheduler)
    → IsValid s
    → IsValid (state_of (resent now tid time row r s) s)
unfolding resent send
resent-IsValid now tid time row (err e) s v = v
resent-IsValid now tid time row (ok call) s v = replace_wait-IsValid tid _ v

extend_found-IsValid :
    (now : ℕ) (tid : String) (duration : ℤ) (o : Option Meta) (s : Scheduler)
    → IsValid s
    → IsValid (state_of (extend_found now tid duration o s) s)
unfolding extend_found extend_row
extend_found-IsValid now tid duration none s v = v
extend_found-IsValid now tid duration (some (hold h)) s v = v
extend_found-IsValid now tid duration (some (session row)) s v =
    resent-IsValid now tid (effective duration s) row (resend (effective duration s) row) s v

pub extend_session-IsValid :
    (now : ℕ) (tid : String) (duration : ℤ) (s : Scheduler)
    → IsValid s
    → IsValid (state_of (extend_session now tid duration s) s)
unfolding extend_session
extend_session-IsValid now tid duration s v =
    if_split (λ r. IsValid (state_of r s)) s.closed (err runtime_error)
      (extend_found now tid duration (get tid s.metas) s) (λ _. v)
      (λ _. extend_found-IsValid now tid duration (get tid s.metas) s v)
