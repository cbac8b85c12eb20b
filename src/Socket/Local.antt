-- ===== src/Socket/Local.antt =====
-- A device info with the domain of a local address: commands go to that address from then on.
use lovensepy.Base.{
  ℕ, ◌+◌, ◌-◌, String, ◌≡◌, refl, sym, ap, ◌∙◌, inl, inr, Bool, true, false, not, ◌&&◌, ◌||◌,
  Option, some, ◌∷◌, arith, eq_iff, nat_eq, if◌then◌else◌, Bool-cases, ◌==◌, ==-self, ℕ_Eq,
  String_Eq, Pair_Eq, Codes_Eq, if_split, if_true, if_false,
}
use lovensepy.Base.Result.{value_error, ok, err}
use lovensepy.Base.Text.{begins, concat, push, size, strip, ends_with, take_chars, drop_chars}
use lovensepy.Services.Snapshot.{Json, Fields, text, object, array, item, no_items, value_at, truth}
use lovensepy.Mqtt.Parts.{every}
use lovensepy.Socket.Client.{
  Codec, Lan, Client, lovense_suffix, dashed, dotted, ip_to_domain, local_ip_of, lan_for,
  https_port, update_device_info, is_text, take_device_info, inner, take_event, take_items,
  first_of, take_frame, handle_message, send_by, send_command,
}
use package.text.Mathlib.TextEquality.{Char-path}
use Prim.Native.Char.{char, code}
use package.text.Mathlib.TextLemmas.{nil-append, cons-append}

abbrev pub no_dash : ℕ → Bool
no_dash n = not (nat_eq n b'-')

dotted-dashed : (s : String) → every no_dash s ≡ true → dotted (dashed s) ≡ s
unfolding dotted dashed every
dotted-dashed String.[] h = refl
dotted-dashed (String.◌∷◌ c s) h =
    let rest : dotted (dashed s) ≡ s = dotted-dashed s (ground arith) in
    let other : nat_eq (code c) 45 ≡ false = ground arith in
    if_split (λ t. dotted t ≡ push c s) (nat_eq (code c) 46) (push (char 45 tt) (dashed s))
      (push c (dashed s))
      (λ e.
        let dot : char 46 tt ≡ c = Char-path (char 46 tt) c (ground arith) in
        ap (push (char 46 tt)) rest ∙ ap (λ x. push x s) dot)
      (λ _.
        if_false (nat_eq (code c) 45) (push (char 46 tt) (dotted (dashed s)))
          (push c (dotted (dashed s))) other
        ∙ ap (push c) rest)

ends_with_self : (t : String) → ends_with t t ≡ true
unfolding ends_with
ends_with_self String.[] = refl
ends_with_self (String.◌∷◌ c t) = ap (λ b. b || ends_with t (push c t)) (==-self (push c t))

or_true : (a b : Bool) → b ≡ true → (a || b) ≡ true
or_true true b h = refl
or_true false b h = h

ends_with-concat : (a t : String) → ends_with (concat a t) t ≡ true
unfolding ends_with
ends_with-concat String.[] t = rw nil-append (ends_with_self t)
ends_with-concat (String.◌∷◌ c a) t =
    rw cons-append
      (or_true (push c (concat a t) == t) (ends_with (concat a t) t) (ends_with-concat a t))

size-concat : (a t : String) → size (concat a t) ≡ size a + size t
unfolding size
size-concat String.[] t = rw nil-append (omega arith)
size-concat (String.◌∷◌ c a) t = rw cons-append (omega (arith, size-concat a t))

take_chars-concat : (a t : String) → take_chars (size a) (concat a t) ≡ a
unfolding size take_chars
take_chars-concat String.[] t = refl
take_chars-concat (String.◌∷◌ c a) t = rw cons-append (ap (push c) (take_chars-concat a t))

ok_sound : (b : Bool) (s d : String) → (if b then err value_error else ok s) ≡ ok d → s ≡ d
ok_sound true s d h = absurd (ground arith)
ok_sound false s d h = ground arith

local_ip_of-suffixed :
    (s : String)
    → every no_dash s ≡ true
    → local_ip_of (text (concat (dashed s) lovense_suffix)) ≡ s
unfolding local_ip_of
local_ip_of-suffixed s plain =
    let d : String = concat (dashed s) lovense_suffix in
    let thirteen : size lovense_suffix ≡ 13 = unfold size in refl in
    let left : size d - 13 ≡ size (dashed s) =
      omega (arith, size-concat (dashed s) lovense_suffix, thirteen) in
    if_true (ends_with d lovense_suffix) (dotted (take_chars (size d - 13) d)) ""
      (ends_with-concat (dashed s) lovense_suffix)
    ∙ ap (λ n. dotted (take_chars n d)) left
    ∙ ap dotted (take_chars-concat (dashed s) lovense_suffix)
    ∙ dotted-dashed s plain

-- The domain of an address without dashes stands for the address.
pub local_ip_of-ip_to_domain :
    (octet : String → Option ℕ) (ip domain : String)
    → ip_to_domain octet ip ≡ ok domain
    → every no_dash (strip ip) ≡ true
    → local_ip_of (text domain) ≡ strip ip
unfolding ip_to_domain local_ip_of
local_ip_of-ip_to_domain octet ip domain h plain =
    let a : String = dashed (strip ip) in
    let there : concat a lovense_suffix ≡ domain = ok_sound _ (concat a lovense_suffix) domain h in
    ap (λ d. local_ip_of (text d)) (sym there) ∙ local_ip_of-suffixed (strip ip) plain

pushed : (body : String) → concat "42" body ≡ push (char 52 tt) (push (char 50 tt) body)
pushed body = rw (cons-append, cons-append, nil-append) refl

-- A text that begins otherwise is another one.
begins-other : (m w t : String) → begins m t ≡ true → begins w t ≡ false → (m == w) ≡ false
begins-other m w t h k = elim (Bool-cases (m == w)) [
  | inl same ↦
      let e : begins m t ≡ begins w t = ap (λ s. begins s t) ((eq_iff m w).0 same) in
      absurd (ground arith)
  | inr other ↦ other
]

frame-handled :
    (p : Codec) (body : String) (c : Client)
    → handle_message p (concat "42" body) c ≡ take_frame p (p.loads body) c
unfolding handle_message drop_chars begins
frame-handled p body c =
    let m : String = push (char 52 tt) (push (char 50 tt) body) in
    let probe : (m == "3probe") ≡ false = begins-other m "3probe" "4" refl refl in
    let pong : (m == "3") ≡ false = begins-other m "3" "4" refl refl in
    ap (λ n. handle_message p n c) (pushed body)
    ∙ if_false (m == "3probe") _ _ probe
    ∙ if_false (m == "3") _ _ pong

-- A domain with the suffix is not empty.
suffixed-truth : (a : String) → truth (text (concat a lovense_suffix)) ≡ true
unfolding truth
suffixed-truth String.[] = refl
suffixed-truth (String.◌∷◌ c a) = rw cons-append refl

blank_raises :
    (octet : String → Option ℕ) (ip domain : String)
    → ip_to_domain octet ip ≡ ok domain
    → (strip ip == "") ≡ false
unfolding ip_to_domain
blank_raises octet ip domain h = elim (Bool-cases (strip ip == "")) [
  | inl blank ↦ absurd (ground arith)
  | inr other ↦ other
]

lan-known :
    (octet : String → Option ℕ) (ip domain : String) (port : Json)
    → ip_to_domain octet ip ≡ ok domain
    → every no_dash (strip ip) ≡ true
    → lan_for (text domain) port
      ≡ record { host = text (strip ip); port = port; verify_ssl = false }
unfolding lan_for
lan-known octet ip domain port h plain =
    let address : local_ip_of (text domain) ≡ strip ip =
      local_ip_of-ip_to_domain octet ip domain h plain in
    let filled : (local_ip_of (text domain) == "") ≡ false =
      ap (λ s. s == "") address ∙ blank_raises octet ip domain h in
    if_false (local_ip_of (text domain) == "") _ _ filled
    ∙ ap (λ s. record { host = text s; port = port; verify_ssl = false }) address

info-lan :
    (octet : String → Option ℕ) (ip domain : String) (d : Fields) (c : Client)
    → value_at "domain" d ≡ text domain
    → ip_to_domain octet ip ≡ ok domain
    → every no_dash (strip ip) ≡ true
    → (take_device_info (object d) c).lan
      ≡ some (record { host = text (strip ip); port = https_port d; verify_ssl = false })
unfolding take_device_info ip_to_domain
info-lan octet ip domain d c named h plain =
    let there : concat (dashed (strip ip)) lovense_suffix ≡ domain =
      ok_sound _ (concat (dashed (strip ip)) lovense_suffix) domain h in
    let said : truth (value_at "domain" d) ≡ true =
      ap truth (named ∙ ap text (sym there)) ∙ suffixed-truth (dashed (strip ip)) in
    ap (λ x. x.lan) (if_true (truth (value_at "domain" d)) _ c said)
    ∙ ap (λ v. some (lan_for v (https_port d))) named
    ∙ ap some (lan-known octet ip domain (https_port d) h plain)

event-lan :
    (p : Codec) (d : Fields) (c : Client)
    → c.use_local_commands ≡ true
    → (take_frame p
        (some (array (item (text update_device_info) (item (object d) no_items))))
        c).lan
      ≡ (take_device_info (object d) c).lan
unfolding take_frame take_items take_event inner first_of
event-lan p d c local =
    ap (λ x. x.lan)
      (if_true (c.use_local_commands && is_text update_device_info (text update_device_info))
        (take_device_info (object d) c) c
        (ap (λ b. b && is_text update_device_info (text update_device_info)) local))

-- After a device info with the domain of a local address, a client that prefers local commands sends its
-- commands to that address, on the port that the info names.
pub send_command-local :
    (p : Codec) (octet : String → Option ℕ) (ip domain body : String) (d : Fields) (payload : Json)
    (c : Client)
    → c.use_local_commands ≡ true
    → p.loads body ≡ some (array (item (text update_device_info) (item (object d) no_items)))
    → value_at "domain" d ≡ text domain
    → ip_to_domain octet ip ≡ ok domain
    → every no_dash (strip ip) ≡ true
    → let told = handle_message p (concat "42" body) c in
      let lan : Lan = record { host = text (strip ip); port = https_port d; verify_ssl = false } in
      send_command p payload told
      ≡ ok (record told { local_commands = (lan, payload) ∷ told.local_commands })
unfolding send_command send_by
send_command-local p octet ip domain body d payload c local loaded named h plain =
    let told : Client = handle_message p (concat "42" body) c in
    let lan : Lan = record { host = text (strip ip); port = https_port d; verify_ssl = false } in
    let known : told.lan ≡ some lan =
      ap (λ x. x.lan) (frame-handled p body c ∙ ap (λ o. take_frame p o c) loaded)
      ∙ event-lan p d c local
      ∙ info-lan octet ip domain d c named h plain in
    ap (λ o. send_by p payload o told) known
