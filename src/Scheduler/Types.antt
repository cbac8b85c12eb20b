-- ===== src/Scheduler/Types.antt =====
-- lovensepy/services/http_api/scheduler.py: the fields of `ControlScheduler`, its asyncio tasks and the
-- calls it makes of the backend. A task object is a number, given out in order by `next_task`; its row
-- in `slots` or `waits` says how far it has come. Levels are thousandths, times milliseconds of the
-- monotonic clock. `sent` holds the calls of the backend, newest first.
use lovensepy.Base.{
  ℕ, String, Bool, false, Option, List, [], ◌∷◌, ℕ_Eq, String_Eq, Pair_Eq, Codes_Eq,
}
use lovensepy.Base.Dict.{Dict}
use lovensepy.Base.Int.{ℤ}
use lovensepy.Toys.Features.{Toy}

-- A toy id and a feature.
abbrev pub Key : Type 0
Key = String × String

pub data Phase : Type 0 where
  ready holding done : Phase

-- A task of `_run_slot`: made, past its first snapshot, or ended.
pub record Slot : Type 0 where
  pub task_id : String
  pub key : Key
  pub level : ℤ
  pub duration : ℤ
  pub phase : Phase

pub data SessionKind : Type 0 where
  preset_session : String → SessionKind
  -- its signature, and whether the row stores the pattern itself
  pattern_session : String → Bool → SessionKind
  function_loop : Dict String ℤ → SessionKind

-- A row of a preset, a pattern or a loop.
pub record Session : Type 0 where
  pub kind : SessionKind
  pub toy_id : Option String
  pub duration_sec : ℕ
  pub duration_capped : Bool
  pub extension_count : ℕ
  pub started : ℕ
  pub ends : ℕ

-- A row of a hold; `ends` is none for one without an end.
pub record Hold : Type 0 where
  pub toy_id : String
  pub feature : String
  pub level : ℤ
  pub duration_sec : ℤ
  pub started : ℕ
  pub ends : Option ℕ

pub data Meta : Type 0 where
  hold : Hold → Meta
  session : Session → Meta

pub data Call : Type 0 where
  function_request : Dict String ℤ → String → Call
  loop_request : Dict String ℤ → ℤ → Option ℤ → Option ℤ → String → Call
  preset_request : String → ℕ → Option String → Call
  pattern_request : String → ℕ → Option String → Call
  stop : Option String → Call

pub record Scheduler : Type 0 where
  pub session_max_sec : ℕ
  pub closed : Bool
  pub levels : Dict Key ℤ
  pub tasks : Dict Key ℕ
  pub slots : Dict ℕ Slot
  pub session_tasks : Dict String ℕ
  pub waits : Dict ℕ Bool
  pub metas : Dict String Meta
  pub sent : List Call
  pub next_task : ℕ

unfoldable pub new_scheduler : ℕ → Scheduler
new_scheduler session_max_sec = record {
  session_max_sec = session_max_sec;
  closed = false;
  levels = [];
  tasks = [];
  slots = [];
  session_tasks = [];
  waits = [];
  metas = [];
  sent = [];
  next_task = 0;
}

-- The toys of a GetToys response: each id with what `features_for_toy` reads of it.
abbrev pub Toys : Type 0
Toys = List (String × Toy)

unfoldable pub send : Call → Scheduler → Scheduler
send call s = record s { sent = call ∷ s.sent }
