-- ===== src/Services/Tests.antt =====
-- Tests of the backends and of the toy cache, and their theorems at concrete inputs.
use lovensepy.Base.{
  ℕ, zero, suc, ◌+◌, ◌-◌, ◌*◌, ◌/◌, ◌%◌, ◌^◌, ◌≤◌, ◌<◌, min, max, String, ◌≡◌, refl, sym, ap, ◌∙◌,
  ◌≢◌, ◌↔◌, ◌⊎◌, inl, inr, Bool, false, not, ◌&&◌, ◌||◌, Option, none, some, List, [], ◌∷◌, ◌++◌,
  map, arith, eq_iff, ltb, leb, nat_eq, if◌then◌else◌, ltb→lt, lt→ltb, leb→le, le→leb, nat_eq_iff,
  Bool-cases, Option-cases, is_some, length, take, drop, all, any, length-append, All, All-append,
  HasSame, ◌==◌, ==-self, ℕ_Eq, String_Eq, Pair_Eq, Codes_Eq, pair_eq_iff, codes_eq_iff, tests,
  if_split, if_true, if_false,
}
use lovensepy.Base.Dict.{Dict, get}
use lovensepy.Base.Result.{ok, err, backend_error}
use lovensepy.Toys.Features.{member}
use lovensepy.Services.Composite.{Toy, Backend, Target, used, stop}
use lovensepy.Services.Snapshot.{
  Json, text, number, object_of, section, value_at, truth, redact_state_for_remote,
}
use lovensepy.Services.Remote.{SameForRemote, rewritten, redact_state_for_remote-same}
use lovensepy.Services.ToyCache.{ToyCache, Listing, listed, failed, read}
use lovensepy.Services.Sharing.{read-read}

abbrev toy : String → Toy String
toy id = record { id = some id; model_dump = id }

-- A backend with these toys, which answers with its name.
abbrev backend : String → List (Toy String) → Backend String String String String String
backend name toys = record {
  function_request = λ f target. ok name;
  stop = λ target. ok name;
  pattern_request = λ p target. ok name;
  preset_request = λ n target. err backend_error;
  get_toys = λ query_battery. ok toys;
}

abbrev house : Dict String (Backend String String String String String)
house = ("ble", backend "ble" (toy "a" ∷ toy "b" ∷ [])) ∷ ("lan", backend "lan" (toy "b" ∷ [])) ∷ []

-- The toy of both backends is stopped by both, the other by its own.
stop_routes : stop house (some ("b" ∷ [])) ≡ ok (("ble", "ble") ∷ ("lan", "lan") ∷ [])
unfolding stop lovensepy.Services.Composite.request lovensepy.Services.Composite.answer_used used
    lovensepy.Services.Composite.used_by lovensepy.Services.Composite.use_all get
    lovensepy.Services.Composite.get_toys_index lovensepy.Services.Composite.index_listing
    lovensepy.Services.Composite.index_toys lovensepy.Services.Composite.index_toy
    lovensepy.Services.Composite.append_to lovensepy.Base.Dict.put
    lovensepy.Services.Composite.gathered lovensepy.Services.Composite.ask_used
stop_routes = refl

-- The backend lists one toy, and then fails.
abbrev listing : ℕ → Listing (List String)
listing zero = listed ("a" ∷ [])
listing (suc n) = failed "timeout"

abbrev empty_cache : ToyCache (List String)
empty_cache = record { ttl = 2000; value = none; fetched = 0; error = none; asked = 0 }

abbrev full_cache : ToyCache (List String)
full_cache = record { ttl = 2000; value = some ("a" ∷ []); fetched = 1000; error = none; asked = 1 }

read-read_example :
    read listing [] false 2500 2500 2600 (read listing [] false 900 900 1000 empty_cache).1
    ≡ read listing [] false 900 900 1000 empty_cache
unfolding read lovensepy.Services.ToyCache.fresh lovensepy.Services.ToyCache.fetch
read-read_example = read-read listing [] false 900 900 1000 2500 2500 2600 empty_cache refl

-- A document of a gate that shows this code, and its look without the other parts.
abbrev document : String → Dict String Json
document code =
    ("toys", text "edge")
    ∷ ("config", object_of (("mode", text "ble") ∷ []))
    ∷ ("gate", object_of (("code", text code) ∷ ("enabled", number 1) ∷ []))
    ∷ []

others_same :
    (k : String)
    → member k rewritten ≡ false
    → get k (document "123456") ≡ get k (document "654321")
unfolding get
others_same k h = ground arith

documents_same : SameForRemote (document "123456") (document "654321")
unfolding section value_at truth get
documents_same = record {
  others = others_same;
  mode = refl;
  session_max_sec = refl;
  events_interval_sec = refl;
  app_name = refl;
  desired = refl;
  tunnel_running = refl;
  gate_enabled = refl;
}

redact_state_for_remote-same_example :
    get "gate" (redact_state_for_remote (document "123456"))
    ≡ get "gate" (redact_state_for_remote (document "654321"))
redact_state_for_remote-same_example =
    redact_state_for_remote-same (document "123456") (document "654321") documents_same "gate"
