-- ===== src/Gate/Visitors.antt =====
-- lovensepy/services/http_api/access_gate.py: who asks. The address of a visitor, whether the visitor
-- stands outside the local network, the cookie and the country of a request.
use lovensepy.Base.{
  String, Bool, false, not, ◌&&◌, ◌||◌, Option, none, some, List, [], ◌∷◌, nat_eq, if◌then◌else◌,
  is_some, any, ◌==◌, ℕ_Eq, String_Eq, Pair_Eq, Codes_Eq,
}
use Prim.Native.Char.{code}
use text.Mathlib.Text.{starts_with}
use lovensepy.Base.Text.{
  truthy, or_empty, concat, contains, ends_with, lower, strip, before, count_char, drop_chars,
  split,
}
use lovensepy.Gate.Types.{IpFlags, Platform}

pub data ScopeType : Type 0 where
  http websocket other : ScopeType

-- The ASGI scope: `headers` gives the first value of a header by its lower-case name.
pub record Scope : Type 0 where
  pub type : ScopeType
  pub path : Option String
  pub method : Option String
  pub query_string : String
  pub client : Option String
  pub headers : String → Option String

private_flags : Option IpFlags → Bool
private_flags none = false
private_flags (some a) =
    a.is_private || a.is_loopback || a.is_link_local || a.is_reserved || a.is_unspecified

unfoldable pub is_private_ip : Platform → String → Bool
unfolding private_flags
is_private_ip p value = private_flags (p.ip_address (strip value))

unfoldable pub is_ip_literal : Platform → String → Bool
is_ip_literal p value = is_some (p.ip_address value)

-- s.lstrip("[]")
lstrip_brackets : String → String
lstrip_brackets String.[] = ""
lstrip_brackets (String.◌∷◌ c s) =
    if nat_eq (code c) b'[' || nat_eq (code c) b']' then lstrip_brackets s else String.◌∷◌ c s

rstrip_brackets : String → String
rstrip_brackets String.[] = ""
rstrip_brackets (String.◌∷◌ c s) =
    let rest = rstrip_brackets s in
    if rest == "" && (nat_eq (code c) b'[' || nat_eq (code c) b']') then "" else String.◌∷◌ c rest

unfoldable pub host_without_port : Option String → String
unfolding lstrip_brackets rstrip_brackets
host_without_port host_header =
    let raw = lower (strip (or_empty host_header)) in
    if raw == ""
    then ""
    else if starts_with raw "["
    then (if contains raw "]"
        then before b']' (drop_chars 1 raw)
        else rstrip_brackets (lstrip_brackets raw))
    else if nat_eq (count_char b':' raw) 1
    then before b':' raw
    else raw

-- value.split(",")[0].strip()
first_address : Option String → String
first_address value = strip (before b',' (or_empty value))

unfoldable pub client_ip : Scope → Option String
unfolding first_address
client_ip scope =
    let h = scope.headers in
    if truthy (h "cf-connecting-ip")
    then some (first_address (h "cf-connecting-ip"))
    else if truthy (h "x-real-ip")
    then some (first_address (h "x-real-ip"))
    else if truthy (h "x-forwarded-for")
    then some (first_address (h "x-forwarded-for"))
    else if truthy scope.client
    then scope.client
    else none

abbrev public_host_suffixes : List String
public_host_suffixes =
    ".trycloudflare.com" ∷ ".cfargotunnel.com" ∷ ".ngrok-free.app" ∷ ".ngrok.io" ∷ ".loca.lt" ∷ []

-- A literal of an address that is not private.
public_ip : Platform → String → Bool
public_ip p value = not (value == "") && is_ip_literal p value && not (is_private_ip p value)

-- A name with a dot, outside `.local`: a public DNS name.
public_name : Platform → String → Bool
public_name p host =
    not (host == "")
    && contains host "."
    && not (ends_with host ".local")
    && not (is_ip_literal p host)

unfoldable pub is_external_request : Platform → Scope → Bool
unfolding public_ip public_name
is_external_request p scope =
    let host = host_without_port (scope.headers "host") in
    any (ends_with host) public_host_suffixes
    || public_ip p host
    || public_name p host
    || public_ip p (or_empty (client_ip scope))

unfoldable pub wants_html : Scope → Bool
wants_html scope =
    let accept = or_empty (scope.headers "accept") in
    contains accept "text/html" || contains accept "*/*"

find_piece : String → List String → Option String
find_piece prefix [] = none
find_piece prefix (part ∷ parts) =
    if starts_with (strip part) prefix then some (strip part) else find_piece prefix parts

abbrev cookie_name : String
cookie_name = "lovensepy_gate"

-- piece[len(name) + 1:], for the cookie of the gate
cookie_value : Option String → Option String
cookie_value none = none
cookie_value (some piece) = some (drop_chars 15 piece)

-- `_cookie(headers, COOKIE_NAME)`
unfoldable pub cookie : Scope → Option String
unfolding find_piece cookie_value
cookie scope =
    if truthy (scope.headers "cookie")
    then cookie_value
        (find_piece (concat cookie_name "=") (split b';' (or_empty (scope.headers "cookie"))))
    else none
