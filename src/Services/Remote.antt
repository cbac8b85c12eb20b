-- ===== src/Services/Remote.antt =====
-- What a remote can tell of the host from a status document.
use lovensepy.Base.{
  String, ◌≡◌, refl, sym, ap, ◌∙◌, inl, inr, Bool, true, false, ◌||◌, Option, some, List, [], ◌∷◌,
  arith, if◌then◌else◌, Bool-cases, ◌==◌, ℕ_Eq, String_Eq, Pair_Eq, Codes_Eq,
}
use lovensepy.Base.Dict.{Dict, get, put, get-put}
use lovensepy.Toys.Features.{member}
use lovensepy.Services.Snapshot.{
  Json, null, value_at, truth, section, or_empty_fields, remote_config, redact_state_for_remote,
  remote_gate, remote_tunnel,
}

-- The parts of the document that are rewritten.
abbrev pub rewritten : List String
rewritten = "gate" ∷ "tunnel" ∷ "socket" ∷ "ble" ∷ "config" ∷ []

-- What the rewritten parts show of two documents is the same, and so are the other parts.
pub record SameForRemote (s t : Dict String Json) : Type 0 where
  pub others : (k : String) → member k rewritten ≡ false → get k s ≡ get k t
  pub mode : value_at "mode" (section "config" s) ≡ value_at "mode" (section "config" t)
  pub session_max_sec :
      value_at "session_max_sec" (section "config" s)
      ≡ value_at "session_max_sec" (section "config" t)
  pub events_interval_sec :
      value_at "events_interval_sec" (section "config" s)
      ≡ value_at "events_interval_sec" (section "config" t)
  pub app_name : value_at "app_name" (section "config" s) ≡ value_at "app_name" (section "config" t)
  pub desired :
      truth (value_at "desired" (section "tunnel" s))
      ≡ truth (value_at "desired" (section "tunnel" t))
  pub tunnel_running :
      truth (value_at "running" (section "tunnel" s))
      ≡ truth (value_at "running" (section "tunnel" t))
  pub gate_enabled :
      truth (value_at "enabled" (section "gate" s)) ≡ truth (value_at "enabled" (section "gate" t))

-- What stands at a key of a redacted document.
abbrev shown_at : String → Json → Json → Json → Option Json → Option Json
shown_at k gate tunnel config rest =
    if "gate" == k
    then some gate
    else if "tunnel" == k
    then some tunnel
    else if "socket" == k
    then some null
    else if "ble" == k
    then some null
    else if "config" == k
    then some config
    else rest

else_same :
    {A : Type 0} (b : Bool) (x y z : A) → y ≡ z → (if b then x else y) ≡ (if b then x else z)
else_same b x y z h = ap (λ w. if b then x else w) h

get-redact :
    (k : String) (gate tunnel config : Json) (s : Dict String Json)
    → get k (
        put "gate" gate
          (put "tunnel" tunnel (put "socket" null (put "ble" null (put "config" config s)))))
      ≡ shown_at k gate tunnel config (get k s)
get-redact k gate tunnel config s =
    get-put "gate" k gate _
    ∙ else_same ("gate" == k) _ _ _ (
        get-put "tunnel" k tunnel _
        ∙ else_same ("tunnel" == k) _ _ _ (
            get-put "socket" k null _
            ∙ else_same ("socket" == k) _ _ _ (
                get-put "ble" k null _
                ∙ else_same ("ble" == k) _ _ _ (get-put "config" k config s))))

-- At a rewritten key the rest does not count.
nested_same :
    {A : Type 0} (a b c d e : Bool) (u v w x y r r' : A)
    → (a || (b || (c || (d || (e || false))))) ≡ true
    → (if a then u else if b then v else if c then w else if d then x else if e then y else r)
      ≡ (if a then u else if b then v else if c then w else if d then x else if e then y else r')
nested_same true b c d e u v w x y r r' h = refl
nested_same false true c d e u v w x y r r' h = refl
nested_same false false true d e u v w x y r r' h = refl
nested_same false false false true e u v w x y r r' h = refl
nested_same false false false false true u v w x y r r' h = refl
nested_same false false false false false u v w x y r r' h = cc

rest_same :
    (k : String) (gate tunnel config : Json) (s t : Dict String Json)
    → (member k rewritten ≡ false → get k s ≡ get k t)
    → shown_at k gate tunnel config (get k s) ≡ shown_at k gate tunnel config (get k t)
rest_same k gate tunnel config s t same = elim (Bool-cases (member k rewritten)) [
  | inl h ↦
      nested_same ("gate" == k) ("tunnel" == k) ("socket" == k) ("ble" == k) ("config" == k)
        (some gate) (some tunnel) (some null) (some null) (some config) (get k s) (get k t) h
  | inr h ↦ ap (λ r. shown_at k gate tunnel config r) (same h)
]

config_same :
    (s t : Dict String Json)
    → SameForRemote s t
    → remote_config (section "config" s) (section "transports" s)
      ≡ remote_config (section "config" t) (section "transports" t)
unfolding remote_config section
config_same s t h =
    let transports : or_empty_fields (get "transports" s) ≡ or_empty_fields (get "transports" t) =
      ap or_empty_fields (h.others "transports" refl) in
    grind (arith, h.mode, h.session_max_sec, h.events_interval_sec, h.app_name, transports)

tunnel_same :
    (s t : Dict String Json)
    → SameForRemote s t
    → remote_tunnel (section "tunnel" s) ≡ remote_tunnel (section "tunnel" t)
unfolding remote_tunnel
tunnel_same s t h = cc (h.desired, h.tunnel_running)

gate_same :
    (s t : Dict String Json)
    → SameForRemote s t
    → remote_gate (section "gate" s) ≡ remote_gate (section "gate" t)
unfolding remote_gate
gate_same s t h = cc (h.gate_enabled)

-- Two status documents that differ only in the settings, the Bluetooth and socket parts, the tunnel and
-- the gate, and there not in the mode, the longest session, the event interval, the name of the
-- app, and whether the tunnel is wanted, whether it runs and whether the gate is on, look the same
-- to a remote at every key: nothing else of these parts reaches it, the code and the waiting visitors
-- among them.
pub redact_state_for_remote-same :
    (s t : Dict String Json)
    → SameForRemote s t
    → (k : String) → get k (redact_state_for_remote s) ≡ get k (redact_state_for_remote t)
unfolding redact_state_for_remote
redact_state_for_remote-same s t h k =
    let config = remote_config (section "config" s) (section "transports" s) in
    let tunnel = remote_tunnel (section "tunnel" s) in
    let gate = remote_gate (section "gate" s) in
    get-redact k gate tunnel config s
    ∙ rest_same k gate tunnel config s t (h.others k)
    ∙ ap (λ c. shown_at k gate tunnel c (get k t)) (config_same s t h)
    ∙ ap
        (λ u.
          shown_at k gate u (remote_config (section "config" t) (section "transports" t)) (get k t))
        (tunnel_same s t h)
    ∙ ap
        (λ g.
          shown_at k g (remote_tunnel (section "tunnel" t))
            (remote_config (section "config" t) (section "transports" t)) (get k t))
        (gate_same s t h)
    ∙ sym (
        get-redact k (remote_gate (section "gate" t)) (remote_tunnel (section "tunnel" t))
          (remote_config (section "config" t) (section "transports" t)) t)
