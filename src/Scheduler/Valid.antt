-- ===== src/Scheduler/Valid.antt =====
-- The tables of tasks agree: each registered task runs a slot of its own motor, task numbers are given
-- out in order, and no key stands twice.
use lovensepy.Base.{
  ℕ, ◌≤◌, ◌≡◌, sym, ap, ◌∙◌, Option, none, some, arith, nat_eq_iff, ℕ_Eq, String_Eq, Pair_Eq,
  Codes_Eq,
}
use lovensepy.Base.Dict.{
  Dict, get, put, pop, get-put, get-put-same, get-pop-some, put-Distinct, pop-Distinct, Distinct,
}
use lovensepy.Base.Int.{ℤ}
use lovensepy.Scheduler.Types.{Scheduler, Key, Slot, Phase}
use lovensepy.Scheduler.Slots.{set_phase}

-- The motor of the task object that a number names.
abbrev pub key_of : Option Slot → Option Key
key_of none = none
key_of (some slot) = some slot.key

pub record Agree (tasks : Dict Key ℕ) (slots : Dict ℕ Slot) (next : ℕ) (levels : Dict Key ℤ)
    : Type 0 where
  pub owned : (key : Key) (h : ℕ) → get key tasks ≡ some h → key_of (get h slots) ≡ some key
  pub fresh : (h : ℕ) → next ≤ h → get h slots ≡ none
  pub tasks_distinct : Distinct tasks
  pub levels_distinct : Distinct levels

abbrev pub IsValid : Scheduler → Type 0
IsValid s = Agree s.tasks s.slots s.next_task s.levels

put-fresh :
    (me h : ℕ) (new old : Slot) (slots : Dict ℕ Slot)
    → get me slots ≡ some old
    → get h slots ≡ none
    → get h (put me new slots) ≡ none
put-fresh me h new old slots g n = ground (arith, get-put me h new slots, nat_eq_iff me h)

pub set_phase-IsValid :
    (me : ℕ) (slot : Slot) (phase : Phase) (s : Scheduler)
    → get me s.slots ≡ some slot
    → IsValid s
    → IsValid (set_phase me slot phase s)
unfolding set_phase
set_phase-IsValid me slot phase s g v = record {
  owned = λ key h t.
      get-put-same key_of me h (record slot { phase = phase }) s.slots (ap key_of (sym g))
      ∙ v.owned key h t;
  fresh = λ h le. put-fresh me h (record slot { phase = phase }) slot s.slots g (v.fresh h le);
  tasks_distinct = v.tasks_distinct;
  levels_distinct = v.levels_distinct;
}

pub pop_task-IsValid :
    (key : Key) (s : Scheduler) → IsValid s → IsValid (record s { tasks = pop key s.tasks })
pop_task-IsValid key s v = record {
  owned = λ k h t. v.owned k h (get-pop-some key k h s.tasks t);
  fresh = v.fresh;
  tasks_distinct = pop-Distinct key s.tasks v.tasks_distinct;
  levels_distinct = v.levels_distinct;
}

pub pop_level-IsValid :
    (key : Key) (s : Scheduler) → IsValid s → IsValid (record s { levels = pop key s.levels })
pop_level-IsValid key s v = record {
  owned = v.owned;
  fresh = v.fresh;
  tasks_distinct = v.tasks_distinct;
  levels_distinct = pop-Distinct key s.levels v.levels_distinct;
}

pub put_level-IsValid :
    (key : Key) (level : ℤ) (s : Scheduler)
    → IsValid s
    → IsValid (record s { levels = put key level s.levels })
put_level-IsValid key level s v = record {
  owned = v.owned;
  fresh = v.fresh;
  tasks_distinct = v.tasks_distinct;
  levels_distinct = put-Distinct key level s.levels v.levels_distinct;
}
