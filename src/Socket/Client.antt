-- ===== src/Socket/Client.antt =====
-- lovensepy/socket_api/client.py and the address of _utils.py: the state of SocketAPIClient and its
-- operations. A text that is sent, or scheduled to be sent, over an open connection is an entry of a log,
-- the last one first; so is a command to the local app, and an event that is handed on.
use lovensepy.Base.{
  ℕ, ◌+◌, ◌-◌, String, Bool, true, false, not, ◌&&◌, ◌||◌, Option, none, some, List, [], ◌∷◌, ◌++◌,
  leb, nat_eq, if◌then◌else◌, all, ◌==◌, ℕ_Eq, String_Eq, Pair_Eq, Codes_Eq,
}
use lovensepy.Base.Dict.{Dict}
use lovensepy.Base.Result.{Result, ok, err, runtime_error, value_error}
use lovensepy.Base.Text.{
  begins, strip, split, size, concat, push, ends_with, take_chars, drop_chars,
}
use lovensepy.Services.Snapshot.{
  Json, Items, Fields, null, number, text, array, object, no_items, item, value_at, truth,
  fields_of,
}
use lovensepy.Mqtt.Payloads.{has_key}
use Prim.Native.Char.{char, code}

-- json.loads, none where it raises, and json.dumps.
pub record Codec : Type 0 where
  pub loads : String → Option Json
  pub dumps : Json → String

-- The client of the local app.
pub record Lan : Type 0 where
  pub host : Json
  pub port : Json
  pub verify_ssl : Bool

pub record Client : Type 0 where
  pub use_local_commands : Bool
  pub raise_on_disconnect : Bool
  pub is_open : Bool
  pub socket_io_connected : Bool
  pub lan : Option Lan
  pub stop_requested : Bool
  pub closed : Bool
  pub pinging : Bool
  pub receiving : Bool
  pub running : Bool
  pub callbacks : ℕ
  pub closes : ℕ
  pub sent : List String
  pub local_commands : List (Lan × Json)
  pub events : List (Json × Json)

-- WsTransport.send on a connection that holds.
unfoldable pub send : String → Client → Client
send msg c = if c.is_open then record c { sent = msg ∷ c.sent } else c

unfoldable pub disconnect : Client → Client
disconnect c = record c {
  stop_requested = true;
  pinging = false;
  receiving = false;
  running = false;
  callbacks = 0;
  is_open = false;
  socket_io_connected = false;
  lan = none;
  closed = true;
}

unfoldable pub cleanup : Client → Client
cleanup c = record c {
  socket_io_connected = false;
  pinging = false;
  receiving = false;
  callbacks = 0;
  running = false;
  is_open = false;
  lan = none;
  closes = c.closes + 1;
  closed = true;
}

-- `connect` up to the connection of the transport.
unfoldable pub start_connect : Client → Client
unfolding disconnect
start_connect c = record (disconnect c) { stop_requested = false }

-- `connect` from the answer of the transport on.
unfoldable pub finish_connect : Bool → Client → Client
unfolding send
finish_connect connected c =
    if connected
    then record (send "2probe" (record c { is_open = true })) {
      closed = false;
      pinging = true;
      receiving = true;
      running = true;
    }
    else record c { is_open = false }

-- One round of the ping loop; a ping that is not taken ends it.
unfoldable pub ping : Client → Client
unfolding send
ping c = if c.is_open then send "2" c else record c { pinging = false }

abbrev pub lovense_suffix : String
lovense_suffix = ".lovense.club"

-- s.replace(".", "-")
unfoldable pub dashed : String → String
dashed String.[] = ""
dashed (String.◌∷◌ c s) =
    let rest = dashed s in if nat_eq (code c) b'.' then push (char 45 tt) rest else push c rest

abbrev pub in_octet : Option ℕ → Bool
in_octet none = false
in_octet (some n) = leb n 255

abbrev pub four : List String → Bool
four (a ∷ b ∷ c ∷ d ∷ []) = true
four _ = false

-- ip_to_domain, with `int(part)` where it succeeds and is not negative
unfoldable pub ip_to_domain : (String → Option ℕ) → String → Result String
unfolding strip split dashed
ip_to_domain octet ip =
    let parts = split b'.' (strip ip) in
    if strip ip == "" || not (four parts) || not (all (λ part. in_octet (octet part)) parts)
    then err value_error
    else ok (concat (dashed (strip ip)) lovense_suffix)

-- s.replace("-", ".")
unfoldable pub dotted : String → String
dotted String.[] = ""
dotted (String.◌∷◌ c s) =
    let rest = dotted s in if nat_eq (code c) b'-' then push (char 46 tt) rest else push c rest

-- The address that a domain stands for, empty where it stands for none.
unfoldable pub local_ip_of : Json → String
unfolding ends_with take_chars dotted
local_ip_of (text domain) =
    if ends_with domain lovense_suffix then dotted (take_chars (size domain - 13) domain) else ""
local_ip_of _ = ""

unfoldable pub lan_for : Json → Json → Lan
unfolding local_ip_of
lan_for domain port =
    if local_ip_of domain == ""
    then record { host = domain; port = port; verify_ssl = true }
    else record { host = text (local_ip_of domain); port = port; verify_ssl = false }

-- payload.get("httpsPort", 30011)
unfoldable pub https_port : Fields → Json
unfolding has_key value_at
https_port d = if has_key "httpsPort" d then value_at "httpsPort" d else number 30011000

abbrev pub update_device_info : String
update_device_info = "basicapi_update_device_info_tc"

abbrev pub is_text : String → Json → Bool
is_text s (text t) = t == s
is_text s _ = false

-- The client of the local app that a device info names, if it names one.
unfoldable pub take_device_info : Json → Client → Client
unfolding lan_for https_port value_at truth
take_device_info (object d) c =
    if truth (value_at "domain" d)
    then record c { lan = some (lan_for (value_at "domain" d) (https_port d)) }
    else c
take_device_info _ c = c

unfoldable pub or_itself : Json → Option Json → Json
or_itself v none = v
or_itself v (some w) = w

-- A payload that is itself a document in a text is read.
unfoldable pub inner : Codec → Json → Json
unfolding or_itself
inner p (text s) = or_itself (text s) (p.loads s)
inner p v = v

unfoldable pub first_of : Items → Json
first_of no_items = null
first_of (item v vs) = v

unfoldable pub take_event : Codec → Json → Json → Client → Client
unfolding inner take_device_info
take_event p event payload c =
    let body = inner p payload in
    let c' =
      if c.use_local_commands && is_text update_device_info event
      then take_device_info body c
      else c in
    record c' { events = (event, body) ∷ c'.events }

unfoldable pub take_items : Codec → Items → Client → Client
unfolding take_event first_of
take_items p no_items c = c
take_items p (item event rest) c = take_event p event (first_of rest) c

unfoldable pub take_frame : Codec → Option Json → Client → Client
unfolding take_items
take_frame p (some (array items)) c = take_items p items c
take_frame p _ c = c

unfoldable pub handle_message : Codec → String → Client → Client
unfolding send take_frame drop_chars begins
handle_message p message c =
    if begins message "0{"
    then send "40" c
    else if message == "3probe"
    then send "5" c
    else if message == "3"
    then c
    else if begins message "40"
    then record c { socket_io_connected = true }
    else if begins message "42"
    then take_frame p (p.loads (drop_chars 2 message)) c
    else c

-- "42" and the packed list of the event and its payload
unfoldable pub event_text : Codec → String → Json → String
event_text p event payload =
    concat "42" (p.dumps (array (item (text event) (item payload no_items))))

unfoldable pub send_event : Codec → String → Json → Client → Result Client
unfolding event_text send
send_event p event payload c =
    if not c.is_open || not c.socket_io_connected
    then (if c.raise_on_disconnect then err runtime_error else ok c)
    else ok (send (event_text p event payload) c)

abbrev pub send_toy_command : String
send_toy_command = "basicapi_send_toy_command_ts"

unfoldable pub given : String → Option Json → Dict String Json → Dict String Json
given k none d = d
given k (some v) d = d ++ ((k, v) ∷ [])

-- Without further keyword arguments.
unfoldable pub build_command_payload :
    String → String → Json → Option Json → Option Json → Option Json → Option Json → Json
unfolding given
build_command_payload command action time_sec toy loop_running_sec loop_pause_sec stop_previous =
    object (
      fields_of (
        given "stopPrevious" stop_previous (
          given "loopPauseSec" loop_pause_sec (
            given "loopRunningSec" loop_running_sec (
              given "toy" toy (
                ("command", text command)
                ∷ ("action", text action)
                ∷ ("timeSec", time_sec)
                ∷ ("apiVer", number 1000)
                ∷ []))))))

unfoldable pub send_by : Codec → Json → Option Lan → Client → Result Client
unfolding send_event
send_by p payload none c = send_event p send_toy_command payload c
send_by p payload (some lan) c =
    ok (record c { local_commands = (lan, payload) ∷ c.local_commands })

-- The sending of `send_command`, with the payload built.
unfoldable pub send_command : Codec → Json → Client → Result Client
unfolding send_by
send_command p payload c = send_by p payload c.lan c
