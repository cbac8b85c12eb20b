-- ===== src/Lan/Pinned.antt =====
-- lovensepy/standard/lan.py: the payloads of the requests without levels, and their sending to an endpoint
-- whose certificate is compared with a known one. The outcome of a comparison is an argument.
use lovensepy.Base.{
  ℕ, zero, suc, min, max, String, ◌≡◌, refl, sym, Bool, true, false, not, ◌&&◌, ◌||◌, Option, none,
  some, List, [], ◌∷◌, ◌++◌, arith, nat_eq, if◌then◌else◌, all, any, ◌==◌, ℕ_Eq, String_Eq, Pair_Eq,
  Codes_Eq, if_false,
}
use mathlib.Core.Path.{subst}
use lovensepy.Base.Dict.{Dict}
use lovensepy.Base.Result.{Result, ok, err, runtime_error}
use lovensepy.Services.Snapshot.{Json, Fields, text, number, no_fields, field, fields_of}

abbrev pub host_eq : String × ℕ → String × ℕ → Bool
host_eq a b = a.0 == b.0 && nat_eq a.1 b.1

pub record LanClient : Type 0 where
  pub https : Bool
  pub host : String
  pub port : ℕ
  pub verify_ssl : Bool
  pub fingerprint_verified : List (String × ℕ)
  pub last_command : Option Fields
  pub posts : List Fields

-- max(1.0, min(v, 6000.0)) of a number that is not 0, in thousandths
unfoldable pub clamp_time : Json → Json
clamp_time (number zero) = number zero
clamp_time (number (suc n)) = number (max 1000 (min (suc n) 6000000))
clamp_time v = v

unfoldable pub clamp_time_sec_in_payload : Fields → Fields
unfolding clamp_time
clamp_time_sec_in_payload no_fields = no_fields
clamp_time_sec_in_payload (field k v fs) =
    let rest = clamp_time_sec_in_payload fs in
    if k == "timeSec" then field k (clamp_time v) fs else field k v rest

-- The answer of `_ensure_fingerprint_verified`; a comparison that succeeds is remembered.
unfoldable pub ensure_fingerprint_verified : Bool → LanClient → Bool × LanClient
ensure_fingerprint_verified matches c =
    let at : String × ℕ = (c.host, c.port) in
    if c.verify_ssl || not c.https || any (host_eq at) c.fingerprint_verified
    then (true, c)
    else if matches
    then (true, record c { fingerprint_verified = at ∷ c.fingerprint_verified })
    else (false, c)

post_if : Fields → Bool × LanClient → Result Fields × LanClient
post_if cmd (true, c) = (ok cmd, record c { posts = cmd ∷ c.posts })
post_if cmd (false, c) = (err runtime_error, c)

-- Up to the post, whose payload is the answer here. The error is LovenseAuthError.
unfoldable pub send_command : Bool → Fields → LanClient → Result Fields × LanClient
unfolding ensure_fingerprint_verified post_if clamp_time_sec_in_payload
send_command matches command_data c =
    let cmd = clamp_time_sec_in_payload command_data in
    let c' = record c { last_command = some cmd } in
    post_if cmd (ensure_fingerprint_verified matches c')

-- Commands one after another, each with the outcome of its comparison.
unfoldable pub send_all : List (Bool × Fields) → LanClient → LanClient
unfolding send_command
send_all [] c = c
send_all ((matches, cmd) ∷ rest) c = send_all rest (send_command matches cmd c).1

with_toy : Option Json → Dict String Json → Fields
with_toy none d = fields_of d
with_toy (some toy) d = fields_of (d ++ (("toy", toy) ∷ []))

unfoldable pub stop_payload : Option Json → Fields
unfolding with_toy
stop_payload toy = with_toy toy (
    ("command", text "Function")
    ∷ ("action", text "Stop")
    ∷ ("timeSec", number 0)
    ∷ ("apiVer", number 1000)
    ∷ [])

unfoldable pub pattern_raw_payload : String → String → Json → Option Json → Fields
unfolding with_toy
pattern_raw_payload strength rule time toy = with_toy toy (
    ("command", text "Pattern")
    ∷ ("rule", text rule)
    ∷ ("strength", text strength)
    ∷ ("timeSec", time)
    ∷ ("apiVer", number 2000)
    ∷ [])

unfoldable pub preset_payload : String → Json → Option Json → Fields
unfolding with_toy
preset_payload name time toy = with_toy toy (
    ("command", text "Preset")
    ∷ ("name", text name)
    ∷ ("timeSec", time)
    ∷ ("apiVer", number 1000)
    ∷ [])

-- The endpoint is encrypted, its certificate is not checked otherwise and has not been compared, and
-- these are the posts.
record Unproven (posts : List Fields) (c : LanClient) : Type 0 where
  is_https : c.https ≡ true
  unchecked : c.verify_ssl ≡ false
  not_compared : any (host_eq (c.host, c.port)) c.fingerprint_verified ≡ false
  same_posts : c.posts ≡ posts

send-Unproven :
    (posts : List Fields) (cmd : Fields) (c : LanClient)
    → Unproven posts c
    → Unproven posts (send_command false cmd c).1
unfolding send_command ensure_fingerprint_verified post_if
send-Unproven posts cmd c h =
    let command : Fields = clamp_time_sec_in_payload cmd in
    let noted : LanClient = record c { last_command = some command } in
    let closed : (c.verify_ssl
          || not c.https
          || any (host_eq (c.host, c.port)) c.fingerprint_verified)
        ≡ false =
      ground (arith, h.is_https, h.unchecked, h.not_compared) in
    subst (λ (r : Bool × LanClient). Unproven posts (post_if command r).1)
      (sym (
        if_false
          (c.verify_ssl || not c.https || any (host_eq (c.host, c.port)) c.fingerprint_verified)
          (true, noted) (false, noted) closed))
      (record {
        is_https = h.is_https;
        unchecked = h.unchecked;
        not_compared = h.not_compared;
        same_posts = h.same_posts;
      })

all-Unproven :
    (posts : List Fields) (cmds : List (Bool × Fields)) (c : LanClient)
    → all (λ e. not e.0) cmds ≡ true
    → Unproven posts c
    → Unproven posts (send_all cmds c)
unfolding send_all
all-Unproven posts [] c q h = h
all-Unproven posts ((true, cmd) ∷ cmds) c q h = absurd (ground arith)
all-Unproven posts ((false, cmd) ∷ cmds) c q h =
    all-Unproven posts cmds (send_command false cmd c).1 q (send-Unproven posts cmd c h)

-- Over an encrypted endpoint whose certificate is not checked otherwise and was never found to be the
-- known one, no command is posted as long as the comparisons fail.
pub send_all-pinned :
    (cmds : List (Bool × Fields)) (c : LanClient)
    → c.https ≡ true
    → c.verify_ssl ≡ false
    → any (host_eq (c.host, c.port)) c.fingerprint_verified ≡ false
    → all (λ e. not e.0) cmds ≡ true
    → (send_all cmds c).posts ≡ c.posts
send_all-pinned cmds c secure unchecked fresh failing =
    (all-Unproven c.posts cmds c failing (record {
      is_https = secure;
      unchecked = unchecked;
      not_compared = fresh;
      same_posts = refl;
    })).same_posts
