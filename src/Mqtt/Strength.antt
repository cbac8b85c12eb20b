-- ===== src/Mqtt/Strength.antt =====
-- lovensepy/integrations/mqtt/ha_bridge.py: the levels that the app reports, and the clamping of levels.
-- Numbers are in thousandths until they are made whole.
use lovensepy.Base.{
  ℕ, ◌+◌, ◌-◌, ◌*◌, ◌/◌, min, max, String, not, ◌&&◌, Option, none, some, [], ltb, if◌then◌else◌,
  ◌==◌, ℕ_Eq, String_Eq, Pair_Eq, Codes_Eq,
}
use lovensepy.Base.Dict.{Dict, get, put}
use lovensepy.Base.Int.{ℤ, pos, negsuc, round_even}
use lovensepy.Base.Text.{lower, capitalize}
use lovensepy.Services.Snapshot.{Json, Fields, boolean, number, object, no_fields, field, value_at}
use lovensepy.Toys.Constants.{function_ranges}
use lovensepy.Mqtt.Topics.{topic_segment_to_action_name}
use lovensepy.Mqtt.Payloads.{Python, str, has_key, event_id}

-- int(v)
unfoldable pub whole : ℤ → ℤ
whole (pos n) = pos (n / 1000)
whole (negsuc n) = if ltb n 999 then pos 0 else negsuc ((n + 1) / 1000 - 1)

-- max(lo, min(hi, round(v))), for bounds that are not negative
unfoldable pub clamp_round : ℕ → ℕ → ℤ → ℕ
unfolding round_even
clamp_round lo hi (pos n) = max lo (min hi (round_even n))
clamp_round lo hi (negsuc n) = max lo (min hi 0)

unfoldable pub clamp_in : Option (ℕ × ℕ) → ℤ → ℤ
unfolding clamp_round whole
clamp_in none v = whole v
clamp_in (some (lo, hi)) v = pos (clamp_round lo hi v)

-- int(_clamp_feature(action, v))
unfoldable pub clamp_feature : String → ℤ → ℤ
unfolding clamp_in get
clamp_feature action v = clamp_in (get action function_ranges) v

-- An int in thousandths.
unfoldable pub thousandths : ℤ → ℤ
thousandths (pos n) = pos (n * 1000)
thousandths (negsuc n) = negsuc (n * 1000 + 999)

-- An int, a float or a bool; none is below 0.
unfoldable pub as_number : Json → Option ℕ
as_number (number n) = some n
as_number (boolean b) = some (if b then 1000 else 0)
as_number _ = none

-- topic_segment_to_action_name(segment), or the text given
abbrev pub action_or : String → Option String → String
action_or other none = other
action_or other (some action) = action

abbrev pub put_number : String → Option ℕ → Dict String ℕ → Dict String ℕ
put_number k none out = out
put_number k (some n) out = put k n out

unfoldable pub add_strengths : Fields → Dict String ℕ → Dict String ℕ
unfolding topic_segment_to_action_name as_number
add_strengths no_fields out = out
add_strengths (field k v fs) out =
    add_strengths fs
      (put_number (action_or k (topic_segment_to_action_name (lower k))) (as_number v) out)

strengths_of : Json → Dict String ℕ
unfolding add_strengths as_number
strengths_of (object s) = add_strengths s []
strengths_of v = put_number "Vibrate" (as_number v) []

-- A feature that is named beside its value.
add_named : Python → String → Fields → Dict String ℕ → Dict String ℕ
unfolding as_number has_key value_at str topic_segment_to_action_name
add_named p key d out =
    let segment = lower (str p (value_at key d)) in
    let action = action_or (capitalize segment) (topic_segment_to_action_name segment) in
    if has_key key d && has_key "value" d
    then put_number action (as_number (value_at "value" d)) out
    else out

unfoldable pub strength_from_payload : Python → Fields → String → Dict String ℕ
unfolding strengths_of add_named event_id value_at
strength_from_payload p d toy_id =
    let tid = event_id p d in
    if not (tid == "") && not (tid == toy_id)
    then []
    else add_named p "function" d (add_named p "feature" d (strengths_of (value_at "strength" d)))
