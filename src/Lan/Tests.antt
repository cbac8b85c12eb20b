-- ===== src/Lan/Tests.antt =====
-- Tests of the patterns, and their theorem at a concrete input.
use lovensepy.Base.{
  ◌≡◌, refl, true, false, none, List, [], ◌∷◌, map, take, ℕ_Eq, String_Eq, Pair_Eq, Codes_Eq,
}
use lovensepy.Services.Snapshot.{number, fields_of}
use lovensepy.Lan.Pinned.{
  LanClient, clamp_time_sec_in_payload, stop_payload, send_all, send_all-pinned,
}
use lovensepy.Base.Int.{ℤ, pos, negsuc}
use lovensepy.Base.Text.{codes}
use lovensepy.Lan.Pattern.{
  clamp_int, pattern_rule, pattern_strength, parse_pattern_rule_and_strength,
}
use lovensepy.Lan.ReadBack.{parse-pattern_request}

abbrev wave : List ℤ
wave = pos 5 ∷ negsuc 2 ∷ pos 25 ∷ []

a_rule : pattern_rule (codes "v,r") (pos 20) ≡ codes "V:1;F:v,r;S:100#"
unfolding pattern_rule
a_rule = refl

a_strength : pattern_strength (pos 5 ∷ negsuc 2 ∷ pos 25 ∷ []) ≡ codes "5;0;20"
unfolding pattern_strength
a_strength = refl

-- A rule without an interval, and parts that are no numbers.
loose :
    parse_pattern_rule_and_strength (λ c. none) (λ s. none) (codes "F: v ") (codes "3;;x; 40")
    ≡ (3 ∷ 20 ∷ [], 100, codes "v")
unfolding parse_pattern_rule_and_strength
loose = refl

parse-pattern_request_example :
    parse_pattern_rule_and_strength
      (λ c. none)
      (λ s. none)
      (pattern_rule (codes "v,r") (pos 250))
      (pattern_strength wave)
    ≡ (map (clamp_int 0 20) (take 50 wave), clamp_int 100 1000 (pos 250), codes "v,r")
parse-pattern_request_example =
    parse-pattern_request (λ c. none) (λ s. none) wave (pos 250) (codes "v,r") refl

short_time :
    clamp_time_sec_in_payload (fields_of (("timeSec", number 200) ∷ []))
    ≡ fields_of (("timeSec", number 1000) ∷ [])
unfolding clamp_time_sec_in_payload
short_time = refl

abbrev app : LanClient
app = record {
  https = true;
  host = "10.0.0.7";
  port = 30011;
  verify_ssl = false;
  fingerprint_verified = [];
  last_command = none;
  posts = [];
}

-- The second comparison succeeds; the third command needs none.
pinned_twice :
    (send_all
      ((false, stop_payload none) ∷ (true, stop_payload none) ∷ (false, stop_payload none) ∷ [])
      app).posts
    ≡ (stop_payload none ∷ stop_payload none ∷ [])
unfolding send_all stop_payload
pinned_twice = refl

send_all-pinned_example :
    (send_all ((false, stop_payload none) ∷ (false, stop_payload none) ∷ []) app).posts ≡ []
send_all-pinned_example =
    send_all-pinned ((false, stop_payload none) ∷ (false, stop_payload none) ∷ []) app refl refl
      refl refl
