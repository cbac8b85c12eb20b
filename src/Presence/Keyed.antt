-- ===== src/Presence/Keyed.antt =====
-- The table of browsers over time: each row stands under its own id.
use lovensepy.Base.{
  ℕ, String, ◌≡◌, refl, sym, ap, ◌∙◌, inl, inr, Option, none, some, List, [], ◌∷◌, arith, eq_iff,
  Bool-cases, ◌==◌, ℕ_Eq, String_Eq, Pair_Eq, Codes_Eq, if_split, if_true, if_false,
}
use lovensepy.Base.Dict.{
  Dict, get, put, pop, get-put, get-pop-some, Distinct, put-Distinct, pop-Distinct,
}
use lovensepy.Base.Int.{ℤ}
use lovensepy.Base.Text.{or_empty}
use lovensepy.Presence.Hub.{
  peer_row, touched, at_least_zero, connect, disconnect, touch_found, touch_row, touch, new_hub,
  chosen_id, new_client, PresenceClient, PresenceHub, leave, touch_tab, touch_activity, note_rtt,
  is_other, notify, is_remote, Touch,
}
use lovensepy.Gate.Types.{Platform}
use lovensepy.Gate.Visitors.{Scope}

-- No id stands twice, and a row's id is its key.
pub record Keyed (clients : Dict String PresenceClient) : Type 0 where
  pub keyed : (id : String) (row : PresenceClient) → get id clients ≡ some row → row.client_id ≡ id
  pub distinct : Distinct clients

some_id : (a b : PresenceClient) → some a ≡ some b → a.client_id ≡ b.client_id
some_id a b e =
    ap (λ (o : Option PresenceClient). elim o [ none ↦ a.client_id | some c ↦ c.client_id ]) e

put-Keyed :
    (k : String) (v : PresenceClient) (d : Dict String PresenceClient)
    → v.client_id ≡ k
    → Keyed d
    → Keyed (put k v d)
put-Keyed k v d e h = record {
  keyed = λ id row g. elim (Bool-cases (k == id)) [
    | inl same ↦
        let here : some v ≡ some row =
          sym (if_true (k == id) (some v) (get id d) same) ∙ sym (get-put k id v d) ∙ g in
        sym (some_id v row here) ∙ e ∙ (eq_iff k id).0 same
    | inr other ↦
        h.keyed id row
          (sym (if_false (k == id) (some v) (get id d) other) ∙ sym (get-put k id v d) ∙ g)
  ];
  distinct = put-Distinct k v d h.distinct;
}

leave-Keyed :
    (id : String) (socket : Option ℕ) (o : Option PresenceClient) (hub : PresenceHub)
    → Keyed hub.clients
    → Keyed (leave id socket o hub).clients
unfolding leave notify
leave-Keyed id socket none hub h = h
leave-Keyed id socket (some row) hub h =
    if_split (λ (x : PresenceHub). Keyed x.clients) (is_other socket row.socket) hub
      (notify (record hub { clients = pop id hub.clients })) (λ _. h)
      (λ _. record {
        keyed = λ j r g. h.keyed j r (get-pop-some id j r hub.clients g);
        distinct = pop-Distinct id hub.clients h.distinct;
      })

tab_id :
    (tab : Option String) (row : PresenceClient) → (touch_tab tab row).0.client_id ≡ row.client_id
unfolding touch_tab
tab_id none row = refl
tab_id (some tab) row = ground arith

activity_id :
    (now : ℕ) (activity : Option String) (row : PresenceClient)
    → (touch_activity now activity row).0.client_id ≡ row.client_id
unfolding touch_activity
activity_id now none row = refl
activity_id now (some activity) row = ground arith

note_rtt-Keyed :
    (now : ℕ) (rtt : Option ℤ) (peer : String) (o : Option PresenceClient)
    (d : Dict String PresenceClient)
    → ((row : PresenceClient) → o ≡ some row → row.client_id ≡ peer)
    → Keyed d
    → Keyed (note_rtt now rtt peer o d)
unfolding note_rtt
note_rtt-Keyed now none peer o d f h = h
note_rtt-Keyed now (some rtt) peer none d f h = h
note_rtt-Keyed now (some rtt) peer (some target) d f h =
    let noted : PresenceClient = record target {
      rtt_ms = some (at_least_zero rtt);
      rtt_at = some now;
    } in
    if_split Keyed (is_remote target.role) (put peer noted d) d
      (λ _. put-Keyed peer noted d (f target refl) h) (λ _. h)

peer_row_id :
    (peer : Option String) (d : Dict String PresenceClient) (row : PresenceClient)
    → Keyed d
    → peer_row peer d ≡ some row
    → row.client_id ≡ or_empty peer
unfolding peer_row
peer_row_id peer d row h g = ground (arith, h.keyed (or_empty peer) row)

touched-Keyed :
    (now : ℕ) (id : String) (t : Touch) (row : PresenceClient) (d : Dict String PresenceClient)
    → row.client_id ≡ id
    → Keyed d
    → Keyed (touched now id t row d)
unfolding touched
touched-Keyed now id t row d e h =
    let d' = put id row d in
    let h' = put-Keyed id row d e h in
    note_rtt-Keyed now t.rtt_ms (or_empty t.peer_id) (peer_row t.peer_id d') d'
      (λ r g. peer_row_id t.peer_id d' r h' g) h'

touch_found-Keyed :
    (now : ℕ) (id : String) (t : Touch) (o : Option PresenceClient) (hub : PresenceHub)
    → ((row : PresenceClient) → o ≡ some row → row.client_id ≡ id)
    → Keyed hub.clients
    → Keyed (touch_found now id t o hub).clients
unfolding touch_found touch_row
touch_found-Keyed now id t none hub f h = h
touch_found-Keyed now id t (some row) hub f h =
    let seen : PresenceClient = record row { last_seen_mono = now } in
    let a = (touch_tab t.tab seen).0 in
    touched-Keyed now id t (touch_activity now t.activity a).0 hub.clients
      (activity_id now t.activity a ∙ tab_id t.tab seen ∙ f row refl) h

pub data Event : Type 0 where
  join : Scope → Option String → ℕ → ℕ → String → Option String → Event
  part : String → Option ℕ → Event
  stir : ℕ → String → Touch → Event

abbrev pub step : Platform → Event → PresenceHub → PresenceHub
step p (join scope country now socket fresh preferred) hub =
    (connect p scope country now socket fresh preferred hub).1
step p (part id socket) hub = disconnect id socket hub
step p (stir now id t) hub = touch now id t hub

abbrev pub run : Platform → List Event → PresenceHub → PresenceHub
run p [] hub = hub
run p (event ∷ events) hub = run p events (step p event hub)

step-Keyed :
    (p : Platform) (event : Event) (hub : PresenceHub)
    → Keyed hub.clients
    → Keyed (step p event hub).clients
unfolding connect disconnect touch new_client notify
step-Keyed p (join scope country now socket fresh preferred) hub h =
    let id = chosen_id preferred fresh in
    put-Keyed id (new_client p scope country now socket id) hub.clients refl h
step-Keyed p (part id socket) hub h = leave-Keyed id socket (get id hub.clients) hub h
step-Keyed p (stir now id t) hub h =
    touch_found-Keyed now id t (get id hub.clients) hub (λ row g. h.keyed id row g) h

run-Keyed :
    (p : Platform) (events : List Event) (hub : PresenceHub)
    → Keyed hub.clients
    → Keyed (run p events hub).clients
run-Keyed p [] hub h = h
run-Keyed p (event ∷ events) hub h =
    run-Keyed p events (step p event hub) (step-Keyed p event hub h)

-- From the start of the service, whichever browsers connect, report and leave, in any order: no id
-- stands twice in the table, and each row stands under its own id.
pub run-new_hub-Keyed : (p : Platform) (events : List Event) → Keyed (run p events new_hub).clients
unfolding new_hub get
run-new_hub-Keyed p events =
    run-Keyed p events new_hub (record { keyed = λ id row g. ground (arith, g); distinct = tt })
