-- ===== src/Presence/Private.antt =====
-- Who is told what, and which connection a row stands for.
use lovensepy.Base.{
  ℕ, String, ◌≡◌, refl, sym, ap, ◌∙◌, Bool, true, false, not, ◌&&◌, Option, none, some, List, [],
  ◌∷◌, arith, nat_eq, All, ==-self, ℕ_Eq, String_Eq, Pair_Eq, Codes_Eq, if_split, if_true,
}
use mathlib.Core.Path.{subst}
use lovensepy.Base.Dict.{Dict, get, put, pop, get-put}
use lovensepy.Gate.Types.{Platform}
use lovensepy.Gate.Visitors.{Scope}
use lovensepy.Presence.Hub.{
  Role, PresenceClient, PresenceHub, connect, disconnect, leave, chosen_id, new_client, notify,
}
use lovensepy.Presence.Views.{
  takes_frame, is_role, of_role, other_role, targets, deliver, relay_from, relay_echo,
  fresh_remotes, shown, snapshot_for, is_stale,
}

is_role_sound : (a b : Role) → is_role a b ≡ true → b ≡ a
is_role_sound Role.host Role.host h = refl
is_role_sound Role.remote Role.remote h = refl
is_role_sound Role.host Role.remote h = ground arith
is_role_sound Role.remote Role.host h = ground arith

abbrev HasRole : Role → PresenceClient → Type 0
HasRole role row = row.role ≡ role

of_role-All :
    (role : Role) (clients : Dict String PresenceClient) → All (HasRole role) (of_role role clients)
unfolding of_role
of_role-All role [] = tt
of_role-All role ((id, row) ∷ clients) =
    if_split (All (HasRole role)) (is_role role row.role) (row ∷ of_role role clients)
      (of_role role clients) (λ h. (is_role_sound role row.role h, of_role-All role clients))
      (λ _. of_role-All role clients)

deliver-All :
    (delivers : ℕ → Bool) (role : Role) (rows : List PresenceClient)
    → All (HasRole role) rows
    → All (HasRole role) (deliver delivers rows)
unfolding deliver
deliver-All delivers role [] h = tt
deliver-All delivers role (row ∷ rows) h =
    if_split (All (HasRole role)) (takes_frame delivers row.socket) (row ∷ deliver delivers rows)
      (deliver delivers rows) (λ _. (h.0, deliver-All delivers role rows h.1))
      (λ _. deliver-All delivers role rows h.1)

-- An echo that names no receiver reaches only browsers of the other role than its sender's: a remote's
-- frame goes to hosts, a host's to remotes, whichever sockets take it.
pub relay_echo-other_role :
    (delivers : ℕ → Bool) (from_id : String) (sender : PresenceClient) (hub : PresenceHub)
    → get from_id hub.clients ≡ some sender
    → All (λ row. row.role ≡ other_role sender.role) (relay_echo delivers from_id none hub)
unfolding relay_echo relay_from targets
relay_echo-other_role delivers from_id sender hub h =
    subst (λ o. All (HasRole (other_role sender.role)) (relay_from delivers none o hub)) (sym h)
      (deliver-All delivers (other_role sender.role) (of_role (other_role sender.role) hub.clients)
        (of_role-All (other_role sender.role) hub.clients))

-- A row of a remote that was heard of in the last 45 seconds.
abbrev pub Visible : ℕ → PresenceClient → Type 0
Visible now row = (row.role ≡ Role.remote) × (is_stale now row ≡ false)

fresh_remotes-All :
    (now : ℕ) (clients : Dict String PresenceClient) → All (Visible now) (fresh_remotes now clients)
unfolding fresh_remotes
fresh_remotes-All now [] = tt
fresh_remotes-All now ((id, row) ∷ clients) =
    if_split (All (Visible now)) (is_role Role.remote row.role && not (is_stale now row))
      (row ∷ fresh_remotes now clients) (fresh_remotes now clients)
      (λ h. (
        (is_role_sound Role.remote row.role (ground arith), ground arith),
        fresh_remotes-All now clients,
      ))
      (λ _. fresh_remotes-All now clients)

-- The viewer is a host, and the row visible.
abbrev pub MaySee : ℕ → Option PresenceClient → PresenceClient → Type 0
MaySee now none row = ⊥
MaySee now (some viewer) row = (viewer.role ≡ Role.host) × Visible now row

All-pair :
    (viewer : PresenceClient) (now : ℕ) (rows : List PresenceClient)
    → viewer.role ≡ Role.host
    → All (Visible now) rows
    → All (MaySee now (some viewer)) rows
All-pair viewer now [] h v = tt
All-pair viewer now (row ∷ rows) h v = ((h, v.0), All-pair viewer now rows h v.1)

shown-All :
    (now : ℕ) (viewer : Option PresenceClient) (hub : PresenceHub)
    → All (MaySee now viewer) (shown now viewer hub)
unfolding shown
shown-All now none hub = tt
shown-All now (some viewer) hub =
    if_split (All (MaySee now (some viewer))) (is_role Role.host viewer.role)
      (fresh_remotes now hub.clients) []
      (λ h.
        All-pair viewer now (fresh_remotes now hub.clients) (is_role_sound Role.host viewer.role h)
          (fresh_remotes-All now hub.clients))
      (λ _. tt)

-- Only a host is shown other browsers, and only remotes that were heard of in the last 45 seconds: a
-- remote, or a browser without a row, is shown none.
pub snapshot_for-MaySee :
    (now : ℕ) (viewer : Option PresenceClient) (hub : PresenceHub)
    → All (MaySee now viewer) (snapshot_for now viewer hub).remotes
unfolding snapshot_for
snapshot_for-MaySee now viewer hub = shown-All now viewer hub

-- A browser that connects again under its id keeps its row when the old socket, one that the new
-- socket is not, reports its end.
pub disconnect-connect :
    (p : Platform) (scope : Scope) (country : Option String) (now socket old : ℕ) (fresh : String)
    (preferred : Option String) (hub : PresenceHub)
    → nat_eq socket old ≡ false
    → disconnect
        (chosen_id preferred fresh)
        (some old)
        (connect p scope country now socket fresh preferred hub).1
      ≡ (connect p scope country now socket fresh preferred hub).1
unfolding disconnect leave connect notify new_client
disconnect-connect p scope country now socket old fresh preferred hub n =
    let id = chosen_id preferred fresh in
    let row = new_client p scope country now socket id in
    let found : get id (put id row hub.clients) ≡ some row =
      ground (arith, get-put id id row hub.clients, ==-self id) in
    let hub' = (connect p scope country now socket fresh preferred hub).1 in
    ap (λ o. leave id (some old) o hub') found
    ∙ if_true (not (nat_eq socket old)) hub'
        (notify (record hub' { clients = pop id hub'.clients })) (ap not n)
