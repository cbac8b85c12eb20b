-- ===== src/Mqtt/Parts.antt =====
-- What the topics of a toy carry: its safe id and its feature are read back.
use lovensepy.Base.{
  ℕ, zero, suc, ◌≤◌, ◌<◌, min, String, ◌≡◌, refl, ap, Bool, true, false, not, ◌&&◌, Option, none,
  some, List, ◌∷◌, map, arith, eq_iff, nat_eq, if◌then◌else◌, all, ◌==◌, ℕ_Eq, String_Eq, Pair_Eq,
  Codes_Eq, if_split,
}
use lovensepy.Base.Text.{size, concat, push, strip, take_chars, split}
use lovensepy.Mqtt.Topics.{
  segment_to_action, is_safe, squash, underline, trim_left, trim_right, trim, trim_push, or_toy,
  mqtt_safe_toy_id, slash, command_topic, feature_topic_segment, topic_segment_to_action_name,
  after_prefix, command_parts,
}
use lovensepy.Toys.Features.{member}
use lovensepy.Toys.Known.{member-all}
use Prim.Native.Char.{Char, code}
use mathlib.Core.Path.{subst}
use text.Mathlib.TextLemmas.{nil-append, cons-append}

-- Every character passes.
unfoldable pub every : (ℕ → Bool) → String → Bool
every q String.[] = true
every q (String.◌∷◌ c s) = q (code c) && every q s

-- Not a slash, a plus sign or a number sign, the characters with a meaning in topics.
abbrev pub is_plain : ℕ → Bool
is_plain n = not (nat_eq n b'/') && not (nat_eq n b'+') && not (nat_eq n b'#')

safe_plain : (n : ℕ) → is_safe n ≡ true → is_plain n ≡ true
unfolding is_safe
safe_plain n h = ground arith

every_mono :
    (q r : ℕ → Bool) (s : String)
    → ((n : ℕ) → q n ≡ true → r n ≡ true)
    → every q s ≡ true
    → every r s ≡ true
unfolding every
every_mono q r String.[] k h = refl
every_mono q r (String.◌∷◌ c s) k h = ground (arith, k (code c), every_mono q r s k)

-- Reading a prefix that has no slash, up to the slash behind it.
split-slash :
    (a t : String) → every is_plain a ≡ true → split 47 (concat a (concat "/" t)) ≡ (a ∷ split 47 t)
unfolding every split
split-slash String.[] t h = rw (nil-append, cons-append, nil-append) refl
split-slash (String.◌∷◌ c a) t h =
    let other : nat_eq (code c) 47 ≡ false = ground arith in
    let rest : every is_plain a ≡ true = ground arith in
    rw cons-append (rw (split-slash a t rest, other) refl)

after_prefix-concat : (p t : String) → after_prefix p (concat p t) ≡ some t
unfolding after_prefix
after_prefix-concat String.[] t = rw nil-append refl
after_prefix-concat (String.◌∷◌ c p) t = rw cons-append (ground (arith, after_prefix-concat p t))

concat_assoc : (a b c : String) → concat (concat a b) c ≡ concat a (concat b c)
concat_assoc String.[] b c = rw (nil-append, nil-append) refl
concat_assoc (String.◌∷◌ x a) b c =
    rw (cons-append, cons-append, cons-append) (ap (push x) (concat_assoc a b c))

-- What a command topic carries is read back, for a prefix without slashes at its ends.
pub command_parts-command_topic :
    (prefix safe segment : String)
    → trim 47 prefix ≡ prefix
    → every is_plain safe ≡ true
    → every is_plain segment ≡ true
    → command_parts prefix (command_topic prefix safe segment) ≡ some (safe, segment)
unfolding command_parts command_topic
command_parts-command_topic prefix safe segment bare hs hf =
    let tail : String = slash safe (slash segment "set") in
    let read : after_prefix (concat prefix "/") (slash prefix tail) ≡ some tail =
      subst (λ t. after_prefix (concat prefix "/") t ≡ some tail) (concat_assoc prefix "/" tail)
        (after_prefix-concat (concat prefix "/") tail) in
    rw bare
      (rw read (rw (split-slash safe (slash segment "set") hs, split-slash segment "set" hf) refl))

underline_pushed : (s : String) → every is_safe s ≡ true → every is_safe (push underline s) ≡ true
unfolding every is_safe
underline_pushed s h = h

squash-safe : (run : Bool) (s : String) → every is_safe (squash run s) ≡ true
unfolding every squash
squash-safe run String.[] = refl
squash-safe run (String.◌∷◌ c s) =
    let rest : String = squash (not (is_safe (code c))) s in
    let h : every is_safe rest ≡ true = squash-safe (not (is_safe (code c))) s in
    if_split (λ t. every is_safe t ≡ true) (is_safe (code c)) (push c rest)
      (if run then rest else push underline rest) (λ safe. ground arith)
      (λ _.
        if_split (λ t. every is_safe t ≡ true) run rest (push underline rest) (λ _. h)
          (λ _. underline_pushed rest h))

trim_left-every :
    (q : ℕ → Bool) (n : ℕ) (s : String) → every q s ≡ true → every q (trim_left n s) ≡ true
unfolding every trim_left
trim_left-every q n String.[] h = refl
trim_left-every q n (String.◌∷◌ c s) h = ground (arith, trim_left-every q n s)

trim_push-every :
    (q : ℕ → Bool) (n : ℕ) (c : Char) (s : String)
    → q (code c) ≡ true
    → every q s ≡ true
    → every q (trim_push n c s) ≡ true
unfolding every trim_push
trim_push-every q n c String.[] h k =
    if_split (λ t. every q t ≡ true) (nat_eq (code c) n) "" (push c "") (λ _. refl)
      (λ _. ground arith)
trim_push-every q n c (String.◌∷◌ d s) h k = ground arith

trim_right-every :
    (q : ℕ → Bool) (n : ℕ) (s : String) → every q s ≡ true → every q (trim_right n s) ≡ true
unfolding every trim_right
trim_right-every q n String.[] h = refl
trim_right-every q n (String.◌∷◌ c s) h =
    trim_push-every q n c (trim_right n s) (ground arith) (trim_right-every q n s (ground arith))

or_toy-safe :
    (s : String)
    → every is_safe s ≡ true
    → (every is_safe (or_toy s) ≡ true) × (0 < size (or_toy s))
unfolding every or_toy size is_safe
or_toy-safe String.[] h = (refl, ground arith)
or_toy-safe (String.◌∷◌ c s) h = (h, ground arith)

take_chars-every :
    (q : ℕ → Bool) (n : ℕ) (s : String) → every q s ≡ true → every q (take_chars n s) ≡ true
unfolding every take_chars
take_chars-every q zero s h = refl
take_chars-every q (suc n) String.[] h = refl
take_chars-every q (suc n) (String.◌∷◌ c s) h = ground (arith, take_chars-every q n s)

size-take_chars : (n : ℕ) (s : String) → size (take_chars n s) ≡ min n (size s)
unfolding size take_chars
size-take_chars zero s = ground arith
size-take_chars (suc n) String.[] = ground arith
size-take_chars (suc n) (String.◌∷◌ c s) = ground (arith, size-take_chars n s)

-- Whatever a toy is called, its name in topics is made of letters, digits, dashes and underlines, has
-- at least one character and at most 64.
pub mqtt_safe_toy_id-safe :
    (toy_id : String)
    → (every is_safe (mqtt_safe_toy_id toy_id) ≡ true)
      × (0 < size (mqtt_safe_toy_id toy_id))
      × (size (mqtt_safe_toy_id toy_id) ≤ 64)
unfolding mqtt_safe_toy_id trim
mqtt_safe_toy_id-safe toy_id =
    let clean : String = squash false (strip toy_id) in
    let named = or_toy-safe (trim 95 clean) (
      trim_right-every is_safe 95 (trim_left 95 clean)
        (trim_left-every is_safe 95 clean (squash-safe false (strip toy_id)))) in
    let s : String = or_toy (trim 95 clean) in
    (
      take_chars-every is_safe 64 s named.0,
      omega (arith, size-take_chars 64 s, named.1),
      omega (arith, size-take_chars 64 s),
    )

abbrev pub names : Option String → String → Bool
names none action = false
names (some a) action = a == action

names_sound : (o : Option String) (action : String) → names o action ≡ true → o ≡ some action
names_sound none action h = cc
names_sound (some a) action h = ap some ((eq_iff a action).0 h)

abbrev pub mqtt_actions : List String
mqtt_actions = map (λ e. e.1) segment_to_action

-- The segment of an action has no slash and is read back as the action.
reads_back : String → Bool
reads_back action =
    every is_plain (feature_topic_segment action)
    && names (topic_segment_to_action_name (feature_topic_segment action)) action

all_read_back : all reads_back mqtt_actions ≡ true
unfolding reads_back every feature_topic_segment topic_segment_to_action_name
all_read_back = refl

-- A command sent to the topic of a toy's feature is read as that toy's safe id and that feature,
-- whatever the toy's id is, for the actions that have a segment and a prefix without slashes at its
-- ends.
pub command_parts-advertised :
    (prefix toy_id action : String)
    → trim 47 prefix ≡ prefix
    → member action mqtt_actions ≡ true
    → (command_parts prefix
          (command_topic prefix (mqtt_safe_toy_id toy_id) (feature_topic_segment action))
        ≡ some (mqtt_safe_toy_id toy_id, feature_topic_segment action))
      × (topic_segment_to_action_name (feature_topic_segment action) ≡ some action)
unfolding reads_back
command_parts-advertised prefix toy_id action bare known =
    let back = member-all reads_back action mqtt_actions all_read_back known in
    let safe : every is_plain (mqtt_safe_toy_id toy_id) ≡ true =
      every_mono is_safe is_plain (mqtt_safe_toy_id toy_id) safe_plain
        (mqtt_safe_toy_id-safe toy_id).0 in
    (
      command_parts-command_topic prefix (mqtt_safe_toy_id toy_id) (feature_topic_segment action)
          bare safe (ground arith),
      names_sound (topic_segment_to_action_name (feature_topic_segment action)) action
          (ground arith),
    )
