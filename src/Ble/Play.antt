-- ===== src/Ble/Play.antt =====
-- lovensepy/ble_direct/client.py: `set_vibration`, the bodies of `function_request`, `stop`,
-- `pattern_request_raw`, `preset_request` and `position_request`, and the deferred playback. A body runs
-- to its end; how many rounds or steps it makes before its deadline is an argument.
use lovensepy.Base.{
  ℕ, zero, suc, ◌*◌, ◌/◌, min, String, Bool, true, false, not, ◌&&◌, Option, none, some, List, [],
  ◌∷◌, ◌++◌, map, leb, nat_eq, if◌then◌else◌, is_some, ◌==◌, ℕ_Eq, String_Eq, Pair_Eq, Codes_Eq,
}
use text.Mathlib.Text.{starts_with}
use lovensepy.Base.Dict.{Dict, get}
use lovensepy.Base.Int.{ℤ, pos, negsuc}
use lovensepy.Base.Result.{Result, ok, err, ble_error}
use lovensepy.Base.Text.{lower, strip}
use lovensepy.Toys.Constants.{preset_ble_pat_index}
use lovensepy.Ble.Wire.{Line, level, ble_clamp_actions}
use lovensepy.Ble.Link.{
  Client, Radio, Action, ◌>>=◌, ◌>>◌, done, write, send_uart, features_of, silence_all_motors,
  send_uart_for_clamped,
}

abbrev returns : {A : Type 0} → A → Action A
returns a c = (ok a, c)

-- vib = those features that start with "Vibrate", or "Vibrate" alone
vibrate_features : List String → List String
vibrate_features [] = []
vibrate_features (f ∷ fs) =
    let rest = vibrate_features fs in if starts_with f "Vibrate" then f ∷ rest else rest

abbrev or_vibrate : List String → List String
or_vibrate [] = "Vibrate" ∷ []
or_vibrate (f ∷ fs) = f ∷ fs

unfoldable pub vibrate_channels : Client → List String
unfolding vibrate_features
vibrate_channels c = or_vibrate (vibrate_features (features_of c))

-- The channels of a toy, all at one level.
unfoldable pub signature : ℕ → List String → Dict String ℕ
signature n channels = map (λ f. (f, n)) channels

same_signature : Dict String ℕ → Dict String ℕ → Bool
same_signature [] [] = true
same_signature ((f, m) ∷ d) ((g, n) ∷ e) = f == g && nat_eq m n && same_signature d e
same_signature _ _ = false

abbrev is_last : Dict String ℕ → Option (Dict String ℕ) → Bool
is_last sig none = false
is_last sig (some last) = same_signature sig last

-- max(0, min(20, int(level)))
abbrev pub vibration_level : ℤ → ℕ
vibration_level (pos n) = min 20 (n / 1000)
vibration_level (negsuc n) = 0

-- A lone "Vibrate" is written as it is; several channels go through the mapping.
unfoldable pub drive_channels : Radio → ℕ → List String → Action (Unit {0})
drive_channels radio n (f ∷ []) c =
    let mapped = send_uart_for_clamped radio (ble_clamp_actions ((f, pos (n * 1000)) ∷ [])) in
    if f == "Vibrate" then write radio (level "Vibrate" n) c else (mapped >>= λ _. done) c
drive_channels radio n channels c =
    (send_uart_for_clamped radio (ble_clamp_actions (map (λ f. (f, pos (n * 1000))) channels))
        >>= λ _. done)
      c

set_signature : Dict String ℕ → Action (Unit {0})
set_signature sig c = (ok tt, record c { last_vibrate_sig = some sig })

unfoldable pub set_vibration : Radio → ℤ → Action (Unit {0})
unfolding same_signature set_signature
set_vibration radio value c =
    let n = vibration_level value in
    let sig = signature n (vibrate_channels c) in
    let driven = (drive_channels radio n (vibrate_channels c) >> set_signature sig) c in
    if not c.is_connected
    then (err ble_error, c)
    else if is_last sig c.last_vibrate_sig
    then (ok tt, c)
    else driven

-- A body without an end, with a hold, or with so many more rounds than one.
pub data Timing : Type 0 where
  endless timed : Timing
  looped : ℕ → Timing

unfoldable pub silence : Radio → Action (Unit {0})
silence radio = silence_all_motors radio none

unfoldable pub rounds : Radio → ℕ → Dict String ℤ → Action (List Line)
rounds radio zero actions =
    send_uart_for_clamped radio actions >>= λ lines. silence radio >> returns lines
rounds radio (suc n) actions = send_uart_for_clamped radio actions >>= λ lines.
    silence radio >> rounds radio n actions >>= λ more. returns (lines ++ more)

unfoldable pub timed_body : Radio → Timing → Dict String ℤ → Action (List Line)
timed_body radio endless actions = send_uart_for_clamped radio actions
timed_body radio timed actions =
    send_uart_for_clamped radio actions >>= λ lines. silence radio >> returns lines
timed_body radio (looped n) actions =
    rounds radio n actions >>= λ lines. silence radio >> returns lines

-- `_body` of `function_request`
unfoldable pub function_body : Radio → Dict String ℤ → Bool → Timing → Action (List Line)
function_body radio actions stop_previous timing c =
    let before = if stop_previous then silence radio else done in
    let drive = (before >> timed_body radio timing (ble_clamp_actions actions)) c in
    if is_some (get "Stop" actions) then (silence radio >> returns []) c else drive

unfoldable pub stop_body : Radio → Action (List Line)
stop_body radio = silence radio >> returns []

-- The steps of a pattern, over and over, until so many are made.
unfoldable pub cycle : ℕ → List ℕ → List ℕ → List ℕ
cycle zero steps rest = []
cycle (suc n) steps (s ∷ rest) = s ∷ cycle n steps rest
cycle (suc n) [] [] = []
cycle (suc n) (s ∷ steps) [] = s ∷ cycle n (s ∷ steps) steps

unfoldable pub play_steps : Radio → String → List ℕ → Action (List Line)
play_steps radio feature [] = returns []
play_steps radio feature (n ∷ steps) =
    send_uart_for_clamped radio ((feature, pos (n * 1000)) ∷ []) >>= λ lines.
    play_steps radio feature steps >>= λ more. returns (lines ++ more)

-- Without a deadline the steps run once.
unfoldable pub due_steps : Option ℕ → List ℕ → List ℕ
due_steps none steps = steps
due_steps (some n) steps = cycle n steps steps

-- `_body` of `pattern_request_raw`, after the rule is parsed
unfoldable pub pattern_body : Radio → Option ℕ → String → List ℕ → Action (List Line)
pattern_body radio until feature [] = returns []
pattern_body radio until feature (s ∷ steps) =
    play_steps radio feature (due_steps until (s ∷ steps)) >>= λ lines.
    silence radio >> returns lines

unfoldable pub position_body : Radio → ℤ → Action (List Line)
position_body radio value =
    let line = level "Position" (elim value [ pos n ↦ min 100 (n / 1000) | negsuc n ↦ 0 ]) in
    send_uart radio true line >> returns (line ∷ [])

-- The slot of a preset, by its name or by its digits; `to_number` reads a text of digits.
unfoldable pub resolve_pat_index : (String → Option ℕ) → String → Result ℕ
resolve_pat_index to_number name =
    let raw = lower (strip name) in
    elim (get raw preset_ble_pat_index) [
      | some n ↦ ok n
      | none ↦ elim (to_number raw) [
        | none ↦ err ble_error
        | some n ↦ if leb n 20 then ok n else err ble_error
      ]
    ]

-- The line of a preset after a stop, and the stop at the end of its hold.
unfoldable pub preset_body : Radio → String → Bool → ℕ → Action (List Line)
preset_body radio keyword holds n =
    let line = level keyword n in
    silence radio
    >> send_uart radio true line
    >> (if holds then silence radio else done)
    >> returns (line ∷ [])

unfoldable pub preset_request :
    Radio → (String → Option ℕ) → String → String → Bool → Action (List Line)
preset_request radio to_number keyword name holds c = elim (resolve_pat_index to_number name) [
  | err e ↦ (err e, c)
  | ok n ↦ preset_body radio keyword holds n c
]
