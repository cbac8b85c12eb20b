-- ===== src/Socket/Tests.antt =====
-- Tests of the Socket API client, and its theorems at concrete inputs.
use lovensepy.Base.{
  ℕ, suc, ◌≤◌, String, ◌≡◌, refl, Bool, true, false, Option, none, some, [], ◌∷◌, arith, nat_eq,
  if◌then◌else◌, ◌==◌, ℕ_Eq, String_Eq, Pair_Eq, Codes_Eq,
}
use lovensepy.Base.Result.{ok}
use lovensepy.Base.Text.{concat, strip}
use lovensepy.Services.Snapshot.{
  Fields, null, text, object, array, item, no_items, field, no_fields, value_at,
}
use lovensepy.Mqtt.Parts.{every}
use lovensepy.Socket.Client.{
  Codec, Lan, Client, ip_to_domain, https_port, update_device_info, handle_message, start_connect,
  finish_connect, disconnect, send_event, send_command,
}
use lovensepy.Socket.Retry.{connect_with_retry, quiet, ended_by, connect_with_retry-ends}
use lovensepy.Socket.Local.{no_dash, send_command-local}

abbrev info : Fields
info = field "domain" (text "10-0-0-7.lovense.club") no_fields

-- One document is known to the reader.
abbrev codec : Codec
codec = record {
  loads = λ s.
      if s == "[]"
      then some (array (item (text update_device_info) (item (object info) no_items)))
      else none;
  dumps = λ v. "[]";
}

abbrev fresh : Client
fresh = record {
  use_local_commands = true;
  raise_on_disconnect = false;
  is_open = false;
  socket_io_connected = false;
  lan = none;
  stop_requested = false;
  closed = true;
  pinging = false;
  receiving = false;
  running = false;
  callbacks = 0;
  closes = 0;
  sent = [];
  local_commands = [];
  events = [];
}

abbrev octet : String → Option ℕ
octet s =
    if s == "10" then some 10 else if s == "0" then some 0 else if s == "7" then some 7 else none

domain_of : ip_to_domain octet " 10.0.0.7" ≡ ok "10-0-0-7.lovense.club"
unfolding ip_to_domain
domain_of = refl

plain : every no_dash (strip " 10.0.0.7") ≡ true
unfolding every strip
plain = refl

named : value_at "domain" info ≡ text "10-0-0-7.lovense.club"
unfolding value_at
named = refl

-- The handshake, and then an event goes out.
handshake :
    send_event codec "ping" null
      (handle_message codec "40" (finish_connect true (start_connect fresh)))
    ≡ ok (record (handle_message codec "40" (finish_connect true (start_connect fresh))) {
      sent = "42[]" ∷ "2probe" ∷ [];
    })
unfolding send_event handle_message finish_connect start_connect
handshake = refl

-- A disconnect while the transport connects is overtaken: the connection comes to stand.
overtaken : (finish_connect true (disconnect (start_connect fresh))).running ≡ true
unfolding finish_connect start_connect
overtaken = refl

-- After a disconnect the loop does not connect at all.
not_again : (stops asleep : ℕ → Bool) → connect_with_retry stops asleep 5 true none ≡ some 0
unfolding connect_with_retry
not_again stops asleep = refl

connect_with_retry-ends_example :
    (k : ℕ) × (connect_with_retry (λ n. false) (λ n. nat_eq n 1) 4 false (some 3) ≡ some (suc k))
    × (k ≤ 3)
    × (quiet (λ n. false) (λ n. nat_eq n 1) k ≡ true)
    × (ended_by (λ n. false) (λ n. nat_eq n 1) 3 (suc k) ≡ true)
connect_with_retry-ends_example =
    connect_with_retry-ends (λ n. false) (λ n. nat_eq n 1) 4 3 (omega arith)

send_command-local_example :
    let told = handle_message codec (concat "42" "[]") fresh in
    let lan : Lan = record {
      host = text (strip " 10.0.0.7");
      port = https_port info;
      verify_ssl = false;
    } in
    send_command codec null told
    ≡ ok (record told { local_commands = (lan, null) ∷ told.local_commands })
send_command-local_example =
    send_command-local codec octet " 10.0.0.7" "10-0-0-7.lovense.club" "[]" info null fresh refl
      refl named domain_of plain
