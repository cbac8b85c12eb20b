-- ===== src/Services/Snapshot.antt =====
-- lovensepy/services/http_api/snapshot.py: what is left of a status document for a remote.
use lovensepy.Base.{
  ℕ, zero, suc, String, Bool, true, false, Option, some, [], ◌∷◌, if◌then◌else◌, ◌==◌, ℕ_Eq,
  String_Eq, Pair_Eq, Codes_Eq,
}
use lovensepy.Base.Dict.{Dict, get, put}
use lovensepy.Base.Text.{truthy}

-- A JSON value. Numbers are counted in thousandths, none is below 0.
mutual
  pub data Json : Type 0 where
    null : Json
    boolean : Bool → Json
    number : ℕ → Json
    text : String → Json
    array : Items → Json
    object : Fields → Json

  pub data Items : Type 0 where
    no_items : Items
    item : Json → Items → Items

  pub data Fields : Type 0 where
    no_fields : Fields
    field : String → Json → Fields → Fields

-- d.get(k)
unfoldable pub value_at : String → Fields → Json
value_at k no_fields = null
value_at k (field j v fields) = if j == k then v else value_at k fields

-- state.get(k) or {}, where a value that counts as true is an object
abbrev pub or_empty_fields : Option Json → Fields
or_empty_fields (some (object fields)) = fields
or_empty_fields _ = no_fields

unfoldable pub section : String → Dict String Json → Fields
section k state = or_empty_fields (get k state)

-- bool(value)
unfoldable pub truth : Json → Bool
truth null = false
truth (boolean b) = b
truth (number zero) = false
truth (number (suc _)) = true
truth (text s) = truthy (some s)
truth (array no_items) = false
truth (array (item _ _)) = true
truth (object no_fields) = false
truth (object (field _ _ _)) = true

abbrev pub fields_of : Dict String Json → Fields
fields_of [] = no_fields
fields_of ((k, v) ∷ d) = field k v (fields_of d)

abbrev pub object_of : Dict String Json → Json
object_of d = object (fields_of d)

abbrev pub no : Json
no = boolean false

unfoldable pub remote_lan : Fields → Json
remote_lan transports =
    object_of (
      ("ip", null) ∷ ("port", null) ∷ ("enabled", boolean (truth (value_at "lan" transports))) ∷ [])

unfoldable pub remote_ble : Fields → Json
remote_ble transports = object_of (
    ("enabled", boolean (truth (value_at "ble" transports)))
    ∷ ("scan_timeout_sec", null)
    ∷ ("scan_name_prefix", null)
    ∷ ("advertisement_monitor", no)
    ∷ ("advertisement_monitor_interval_sec", null)
    ∷ ("preset_uart_keyword", null)
    ∷ ("preset_emulate_pattern", no)
    ∷ ("auto_reconnect", no)
    ∷ ("auto_reconnect_interval_sec", null)
    ∷ ("battery_refresh_sec", null)
    ∷ [])

unfoldable pub remote_socket : Fields → Json
remote_socket transports = object_of (
    ("enabled", boolean (truth (value_at "socket" transports)))
    ∷ ("platform", null)
    ∷ ("uname", null)
    ∷ ("has_developer_token", no)
    ∷ ("has_uid", no)
    ∷ ("use_local_commands", no)
    ∷ ("auto_request_qr", no)
    ∷ [])

-- The settings, from those of the document and its transports.
unfoldable pub remote_config : Fields → Fields → Json
remote_config config transports = object_of (
    ("mode", value_at "mode" config)
    ∷ ("session_max_sec", value_at "session_max_sec" config)
    ∷ ("webui_enabled", boolean true)
    ∷ ("events_interval_sec", value_at "events_interval_sec" config)
    ∷ ("external_gate", boolean true)
    ∷ ("lan", remote_lan transports)
    ∷ ("ble", remote_ble transports)
    ∷ ("socket", remote_socket transports)
    ∷ ("tunnel", object_of (("enabled", no) ∷ ("listen_port", null) ∷ ("listen_host", null) ∷ []))
    ∷ ("app_name", value_at "app_name" config)
    ∷ [])

unfoldable pub remote_tunnel : Fields → Json
remote_tunnel tunnel = object_of (
    ("available", no)
    ∷ ("binary", null)
    ∷ ("desired", boolean (truth (value_at "desired" tunnel)))
    ∷ ("running", boolean (truth (value_at "running" tunnel)))
    ∷ ("url", null)
    ∷ ("local_url", null)
    ∷ ("pid", null)
    ∷ ("last_error", null)
    ∷ ("restarts", number 0)
    ∷ ("uptime_sec", null)
    ∷ ("recent", array no_items)
    ∷ [])

unfoldable pub remote_gate : Fields → Json
remote_gate gate = object_of (
    ("enabled", boolean (truth (value_at "enabled" gate)))
    ∷ ("code_pending", no)
    ∷ ("code_expires_in_sec", null)
    ∷ ("active_sessions", number 0)
    ∷ ("code", null)
    ∷ ("display", null)
    ∷ ("pending_approval_count", number 0)
    ∷ ("pending_approvals", array no_items)
    ∷ [])

unfoldable pub redact_state_for_remote : Dict String Json → Dict String Json
redact_state_for_remote state =
    let config = remote_config (section "config" state) (section "transports" state) in
    let tunnel = remote_tunnel (section "tunnel" state) in
    let gate = remote_gate (section "gate" state) in
    put "gate" gate
      (put "tunnel" tunnel (put "socket" null (put "ble" null (put "config" config state))))
