-- ===== src/Provisioning.antt =====
-- The provisioning QR (packages/shared/src/provisioning-qr.ts). `to_number` is `Number` of a JSON value
-- and `is_number k` is `=== k`; `normalize` is `normalize("NFD")`.
mod Tests
use Prim.Native.Char.{Char, code}
use Prim.Native.String.{[], ◌∷◌}
use iot_saas.Prelude.{
  ℕ, zero, suc, ◌+◌, ◌≤◌, String, Bool, true, false, not, ◌&&◌, ◌||◌, ◌≡◌, refl, ◌∙◌, Option, none,
  some, leb, ltb, ◌==◌, str_eq, if◌then◌else◌, if_both, arith, Bool-cases, inl, inr,
}
use iot_saas.Prelude.Numbers.{Numbers}
use iot_saas.Prelude.Text.{trim, trim_start, trim_end, drop_last, is_empty, is_space}
use iot_saas.Prelude.Json.{Json, JsonText, Fields, str, num, obj, field, end, get_field}

-- `replace(/[\u0300-\u036f]/g, "")`
unfoldable pub drop_marks : String → String
drop_marks [] = []
drop_marks (c ∷ s) =
    let rest = drop_marks s in if leb 0x300 (code c) && leb (code c) 0x36f then rest else c ∷ rest

-- `replace(/[^\x20-\x7e]/g, "-")`
unfoldable pub to_ascii : String → String
to_ascii [] = []
to_ascii (c ∷ s) = (if leb 0x20 (code c) && leb (code c) 0x7e then c else "-") ∷ to_ascii s

-- `replace(/\s+/g, " ")`; the flag is on in a run
unfoldable pub one_space : Bool → String → String
one_space run [] = []
one_space run (c ∷ s) =
    let inside = one_space true s in
    let outside = one_space false s in
    if is_space (code c) then (if run then inside else " " ∷ inside) else c ∷ outside

-- `slice(0, n)` of an ASCII text
unfoldable pub take_text : ℕ → String → String
take_text zero s = []
take_text (suc n) [] = []
take_text (suc n) (c ∷ s) = c ∷ take_text n s

unfoldable pub prov_name : (String → String) → String → String
unfolding drop_marks to_ascii one_space take_text
prov_name normalize name =
    let ascii = trim (one_space false (to_ascii (drop_marks (normalize name)))) in
    trim (take_text 29 (if is_empty ascii then "iot-device" else ascii))

pub record ProvisioningQr : Type 0 where
  pub name : String
  pub pop : String
  pub username : Option String
  pub security : ℕ

-- the argument of provisioningPayload; `security_2` is `security === 2`
pub record Payload : Type 0 where
  pub name : String
  pub username : String
  pub password : String
  pub security_2 : Bool

module _ {N : Type 0} (𝓝 : Numbers N) where
  unfoldable pub payload_body : Payload → Json N
  payload_body p =
      if p.security_2
      then obj (
          field "ver" (str "v1") (
            field "name" (str p.name) (
              field "username" (str p.username) (
                field "pop" (str p.password) (
                  field "transport" (str "ble")
                    (field "network" (str "wifi") (field "security" (num (𝓝.of_nat 2)) end)))))))
      else obj (
          field "ver" (str "v1") (
            field "name" (str p.name) (
              field "pop" (str p.password) (
                field "transport" (str "ble")
                  (field "network" (str "wifi") (field "security" (num (𝓝.of_nat 1)) end))))))

module _ {N : Type 0} (𝓝 : Numbers N) (json : JsonText N) where
  unfoldable pub provisioning_payload : Payload → String
  unfolding payload_body
  provisioning_payload p = json.print (payload_body 𝓝 p)

  -- `typeof v === "string" && v`
  abbrev filled_text : Option (Json N) → Option String
  filled_text (some (str t)) = if is_empty t then none else some t
  filled_text _ = none

  abbrev text_or_empty : Option (Json N) → String
  text_or_empty (some (str t)) = t
  text_or_empty _ = ""

  -- `o.transport !== undefined && o.transport !== "ble"`
  abbrev other_transport : Option (Json N) → Bool
  other_transport none = false
  other_transport (some (str t)) = not (str_eq t "ble")
  other_transport (some v) = true

  module _ (to_number : Json N → N) (is_number : ℕ → N → Bool) where
    -- 0, 1 or 2
    abbrev security_value : N → Option ℕ
    security_value n =
        if is_number 0 n
        then some 0
        else if is_number 1 n
        then some 1
        else if is_number 2 n
        then some 2
        else none

    abbrev security_of : Option (Json N) → Option ℕ
    security_of none = some 2
    security_of (some v) = security_value (to_number v)

    abbrev has_name : Option String → Bool
    has_name none = false
    has_name (some u) = true

    abbrev qr_with : String → String → Option String → Option ℕ → Option ProvisioningQr
    qr_with name pop username none = none
    qr_with name pop username (some security) =
        if (not (security == 0) && is_empty pop) || (security == 2 && not (has_name username))
        then none
        else some (record { name = name; pop = pop; username = username; security = security })

    abbrev qr_named : Option String → Fields N → Option ProvisioningQr
    qr_named none o = none
    qr_named (some name) o =
        if other_transport (get_field "transport" o)
        then none
        else qr_with name (text_or_empty (get_field "pop" o)) (filled_text (get_field "username" o))
            (security_of (get_field "security" o))

    -- an array has no name, as no other value has
    abbrev qr_of : Option (Json N) → Option ProvisioningQr
    qr_of (some (obj o)) = qr_named (filled_text (get_field "name" o)) o
    qr_of _ = none

    unfoldable pub parse_provisioning_qr : String → Option ProvisioningQr
    parse_provisioning_qr text = qr_of (json.parse text)

    abbrev pub qr_for : Payload → ProvisioningQr
    qr_for p = record {
      name = p.name;
      pop = p.password;
      username = if p.security_2 then some p.username else none;
      security = if p.security_2 then 2 else 1;
    }

    qr_of-payload_body :
        (p : Payload)
        → ((n : N) → to_number (num n) ≡ n)
        → ((k m : ℕ) → k ≤ 2 → m ≤ 2 → is_number k (𝓝.of_nat m) ≡ (k == m))
        → is_empty p.name ≡ false
        → is_empty p.username ≡ false
        → is_empty p.password ≡ false
        → qr_of (some (payload_body 𝓝 p)) ≡ some (qr_for p)
    unfolding payload_body
    qr_of-payload_body p same is a b c = elim (Bool-cases p.security_2) [
      | inl e ↦
          simp
            (
              e,
              a,
              b,
              c,
              same,
              is 0 2 (omega arith) (omega arith),
              is 1 2 (omega arith) (omega arith),
              is 2 2 (omega arith) (omega arith),
            )
            refl
      | inr e ↦
          simp
            (e, a, c, same, is 0 1 (omega arith) (omega arith), is 1 1 (omega arith) (omega arith))
            refl
    ]

    -- The QR that is printed for a device scans as its name, its secret, its username under Security 2,
    -- and the security, where these are not empty. The body is read back from its text, a number is
    -- itself as a number, and `===` tells the numerals 0, 1 and 2 apart.
    pub parse_provisioning_qr-provisioning_payload :
        (p : Payload)
        → json.parse (json.print (payload_body 𝓝 p)) ≡ some (payload_body 𝓝 p)
        → ((n : N) → to_number (num n) ≡ n)
        → ((k m : ℕ) → k ≤ 2 → m ≤ 2 → is_number k (𝓝.of_nat m) ≡ (k == m))
        → is_empty p.name ≡ false
        → is_empty p.username ≡ false
        → is_empty p.password ≡ false
        → parse_provisioning_qr (provisioning_payload p) ≡ some (qr_for p)
    unfolding parse_provisioning_qr provisioning_payload
    parse_provisioning_qr-provisioning_payload p back same is a b c =
        rw back (qr_of-payload_body p same is a b c)

-- `s.length` of an ASCII text
abbrev pub text_length : String → ℕ
text_length [] = 0
text_length (c ∷ s) = suc (text_length s)

length-take_text : (n : ℕ) (s : String) → text_length (take_text n s) ≤ n
unfolding take_text
length-take_text zero s = omega arith
length-take_text (suc n) [] = omega arith
length-take_text (suc n) (c ∷ s) = omega (arith, length-take_text n s)

length-drop_last : (c : Char) (s : String) → text_length (drop_last c s) ≤ suc (text_length s)
unfolding drop_last
length-drop_last c [] =
    if_both (λ t. text_length t ≤ 1) (is_space (code c)) [] (c ∷ []) (λ e. omega arith)
      (λ e. omega arith)
length-drop_last c (d ∷ s) = omega arith

length-trim_end : (s : String) → text_length (trim_end s) ≤ text_length s
unfolding trim_end
length-trim_end [] = omega arith
length-trim_end (c ∷ s) = omega (arith, length-drop_last c (trim_end s), length-trim_end s)

length-trim_start : (s : String) → text_length (trim_start s) ≤ text_length s
unfolding trim_start
length-trim_start [] = omega arith
length-trim_start (c ∷ s) =
    if_both (λ t. text_length t ≤ suc (text_length s)) (is_space (code c)) (trim_start s) (c ∷ s)
      (λ e. omega (arith, length-trim_start s)) (λ e. omega arith)

-- The name of a board fits the 29 bytes that BLE leaves for it.
pub length-prov_name :
    (normalize : String → String) (name : String) → text_length (prov_name normalize name) ≤ 29
unfolding prov_name trim
length-prov_name normalize name =
    let ascii = trim (one_space false (to_ascii (drop_marks (normalize name)))) in
    let s = take_text 29 (if is_empty ascii then "iot-device" else ascii) in
    omega (
      arith,
      length-trim_end (trim_start s),
      length-trim_start s,
      length-take_text 29 (if is_empty ascii then "iot-device" else ascii),
    )
