-- ===== src/Ble/Silence.antt =====
-- A stop: which lines it writes, and at what level every motor is left.
use lovensepy.Base.{
  ℕ, suc, String, ◌≡◌, refl, sym, ap, ◌∙◌, ◌⊎◌, inl, inr, Bool, true, Option, none, some, List, [],
  ◌∷◌, ◌++◌, map, arith, eq_iff, if◌then◌else◌, Bool-cases, all, HasSame, ◌==◌, ℕ_Eq, String_Eq,
  Pair_Eq, Codes_Eq, if_split, if_true, if_false,
}
use mathlib.Core.Path.{subst}
use lovensepy.Base.Result.{Result, ok, err, ble_error}
use lovensepy.Base.Dict.{Dict, get}
use lovensepy.Toys.Features.{member}
use lovensepy.Ble.Wire.{
  Line, level, stop_heads, add_stops, stop_loop, stops_of, uart_heads, uart_features,
  stop_lines_for_toy_type, full_stop, default_full_stop_lines,
}
use lovensepy.Ble.Link.{
  Client, Radio, delivered, silence_all_motors, note_write, write_all, write, attempt_write, settle,
  stop_lines, given_or, note_failure, motor_toy_type_hint,
}
use lovensepy.Ble.Clear.{last_number}
use lovensepy.Base.Text.{truthy}

-- What a check of every entry says of the entry found.
found_checked :
    {K V : Type 0} ⦃e : HasSame K⦄ (q : K → V → Bool) (k : K) (v : V) (d : Dict K V)
    → all (λ e. q e.0 e.1) d ≡ true
    → get k d ≡ some v
    → q k v ≡ true
unfolding get
found_checked q k v [] h g = ground arith
found_checked ⦃e⦄ q k v ((j, w) ∷ d) h g = ground (arith, e.same_iff j k, found_checked q k v d)

-- The line that drives a feature is among those that stop it.
driven_stopped :
    (feature head : String)
    → get feature uart_heads ≡ some head
    → member head (stops_of feature) ≡ true
unfolding get
driven_stopped feature head g =
    found_checked (λ f h. member h (stops_of f)) feature head uart_heads refl g

member-append :
    (x y : String) (ys : List String) → member x ys ≡ true → member x (ys ++ (y ∷ [])) ≡ true
member-append x y [] h = ground arith
member-append x y (z ∷ ys) h = ground (arith, member-append x y ys)

member-last : (x : String) (ys : List String) → member x (ys ++ (x ∷ [])) ≡ true
member-last x [] = ground (arith, eq_iff x x)
member-last x (y ∷ ys) = ground (arith, member-last x ys)

-- A line once among the stops stays there.
step_keeps :
    (x cmd : String) (out : List String)
    → member x out ≡ true
    → member x (if member cmd out then out else out ++ (cmd ∷ [])) ≡ true
step_keeps x cmd out h =
    if_split (λ l. member x l ≡ true) (member cmd out) out (out ++ (cmd ∷ [])) (λ _. h)
      (λ _. member-append x cmd out h)

step_adds :
    (cmd : String) (out : List String)
    → member cmd (if member cmd out then out else out ++ (cmd ∷ [])) ≡ true
step_adds cmd out =
    if_split (λ l. member cmd l ≡ true) (member cmd out) out (out ++ (cmd ∷ [])) (λ h. h)
      (λ _. member-last cmd out)

add_keeps :
    (x : String) (out cmds : List String)
    → member x out ≡ true
    → member x (add_stops out cmds) ≡ true
unfolding add_stops
add_keeps x out [] h = h
add_keeps x out (cmd ∷ cmds) h =
    add_keeps x (if member cmd out then out else out ++ (cmd ∷ [])) cmds (step_keeps x cmd out h)

add_adds :
    (x : String) (out cmds : List String)
    → member x cmds ≡ true
    → member x (add_stops out cmds) ≡ true
unfolding add_stops
add_adds x out [] h = cc
add_adds x out (cmd ∷ cmds) h =
    let next : List String = if member cmd out then out else out ++ (cmd ∷ []) in
    elim (Bool-cases (cmd == x)) [
      | inl same ↦
          subst (λ y. member y (add_stops next cmds) ≡ true) ((eq_iff cmd x).0 same)
            (add_keeps cmd next cmds (step_adds cmd out))
      | inr other ↦ add_adds x next cmds (ground arith)
    ]

loop_keeps :
    (x : String) (out features : List String)
    → member x out ≡ true
    → member x (stop_loop out features) ≡ true
unfolding stop_loop
loop_keeps x out [] h = h
loop_keeps x out (f ∷ features) h =
    loop_keeps x (add_stops out (stops_of f)) features (add_keeps x out (stops_of f) h)

loop_adds :
    (f x : String) (out features : List String)
    → member f features ≡ true
    → member x (stops_of f) ≡ true
    → member x (stop_loop out features) ≡ true
unfolding stop_loop
loop_adds f x out [] h g = cc
loop_adds f x out (e ∷ features) h g = elim (Bool-cases (e == f)) [
  | inl same ↦ loop_keeps x (add_stops out (stops_of e)) features (
      add_adds x out (stops_of e)
        (subst (λ y. member x (stops_of y) ≡ true) (sym ((eq_iff e f).0 same)) g))
  | inr other ↦ loop_adds f x (add_stops out (stops_of e)) features (ground arith) g
]

stop_heads-member :
    (f x : String) (features : List String)
    → member f features ≡ true
    → get f uart_heads ≡ some x
    → member x (stop_heads features) ≡ true
unfolding stop_heads
stop_heads-member f x features h g = loop_adds f x [] features h (driven_stopped f x g)

-- The levels 0 of these heads.
abbrev zeros : List String → List Line
zeros heads = map (λ h. level h 0) heads

-- A toy of this type has the feature; without a type it may have every one.
abbrev pub may_have : Option String → String → Bool
may_have toy_type feature =
    if truthy toy_type then member feature (uart_features toy_type) else true

known_stopped : (f x : String) → get f uart_heads ≡ some x → member x full_stop ≡ true
known_stopped f x g = found_checked (λ _ h. member h full_stop) f x uart_heads refl g

-- One more zero is written.
step_stops :
    (x y : String) (heads : List String) (sent : List Line)
    → (member x (y ∷ heads) ≡ true) ⊎ (last_number x sent ≡ 0)
    → (member x heads ≡ true) ⊎ (last_number x (level y 0 ∷ sent) ≡ 0)
step_stops x y heads sent q = elim (Bool-cases (y == x)) [
  | inl same ↦ inr (if_true (y == x) 0 (last_number x sent) same)
  | inr other ↦ elim q [
    | inl among ↦ inl (ground arith)
    | inr at ↦ inr (if_false (y == x) 0 (last_number x sent) other ∙ at)
  ]
]

module _ (radio : Radio) (clear : (n : ℕ) → radio n ≡ delivered) where
  pub write_clear :
      (line : Line) (c : Client) (k : ℕ)
      → c.is_connected ≡ true
      → c.gatt_write_max_attempts ≡ suc k
      → write radio line c ≡ (ok tt, note_write line c)
  unfolding write attempt_write
  write_clear line c k h e =
      if_true c.is_connected (attempt_write radio c.gatt_write_max_attempts line c)
        (err ble_error, c) h
      ∙ ap (λ n. attempt_write radio n line c) e
      ∙ ap (λ o. settle o line (attempt_write radio k line (note_failure c)) c) (clear c.tried)

  -- A head that is written, or stands at 0 already, stands at 0 after the zeros.
  zeros_stop :
      (x : String) (heads : List String) (c : Client) (k : ℕ)
      → c.is_connected ≡ true
      → c.gatt_write_max_attempts ≡ suc k
      → (member x heads ≡ true) ⊎ (last_number x c.sent ≡ 0)
      → last_number x (write_all radio (zeros heads) c).1.sent ≡ 0
  unfolding write_all
  zeros_stop x [] c k h e (inl h0) = cc
  zeros_stop x [] c k h e (inr at) = at
  zeros_stop x (y ∷ heads) c k h e q =
      let next : Client = note_write (level y 0) c in
      ap
        (λ (r : Result (Unit {0}) × Client).
          last_number x (write_all radio (zeros heads) r.1).1.sent)
        (write_clear (level y 0) c k h e)
      ∙ zeros_stop x heads next k h e (step_stops x y heads c.sent q)

-- The client whose stop begins.
abbrev stopping : Client → Client
stopping c = record c { last_vibrate_sig = none }

-- What a stop of this type leaves at 0.
stopped_at :
    (radio : Radio) (toy_type : Option String) (feature head : String) (c : Client) (k : ℕ)
    → ((n : ℕ) → radio n ≡ delivered)
    → c.is_connected ≡ true
    → c.gatt_write_max_attempts ≡ suc k
    → may_have toy_type feature ≡ true
    → get feature uart_heads ≡ some head
    → last_number head (write_all radio (stop_lines toy_type) (stopping c)).1.sent ≡ 0
unfolding stop_lines stop_lines_for_toy_type default_full_stop_lines
stopped_at radio toy_type feature head c k clear h e m g =
    if_split (λ l. last_number head (write_all radio l (stopping c)).1.sent ≡ 0) (truthy toy_type)
      (zeros (stop_heads (uart_features toy_type))) (zeros full_stop)
      (λ t. zeros_stop radio clear head (stop_heads (uart_features toy_type)) (stopping c) k h e (
        inl (
          stop_heads-member feature head (uart_features toy_type)
            (sym (if_true (truthy toy_type) (member feature (uart_features toy_type)) true t) ∙ m)
            g)))
      (λ _.
        zeros_stop radio clear head full_stop (stopping c) k h e
          (inl (known_stopped feature head g)))

-- A client that is connected, makes at least one attempt at a write, and has each write go through.
-- After a stop, the last level written under the head of any feature that a toy of the type may have
-- is 0, where the type is the one given, or else the client's own, and a missing type allows every
-- feature.
pub silence_all_motors-last_number :
    (radio : Radio) (toy_type : Option String) (feature head : String) (c : Client) (k : ℕ)
    → ((n : ℕ) → radio n ≡ delivered)
    → c.is_connected ≡ true
    → c.gatt_write_max_attempts ≡ suc k
    → may_have (given_or toy_type (motor_toy_type_hint c)) feature ≡ true
    → get feature uart_heads ≡ some head
    → last_number head (silence_all_motors radio toy_type c).1.sent ≡ 0
unfolding silence_all_motors
silence_all_motors-last_number radio toy_type feature head c k clear h e m g =
    let at = given_or toy_type (motor_toy_type_hint c) in
    let c' : Client = (write_all radio (stop_lines at) (stopping c)).1 in
    ap (λ (r : Result (Unit {0}) × Client). last_number head r.1.sent)
      (if_true c.is_connected (ok tt, record c' { dual_vibrate_levels = (0, 0) }) (err ble_error, c)
        h)
    ∙ stopped_at radio at feature head c k clear h e m g
