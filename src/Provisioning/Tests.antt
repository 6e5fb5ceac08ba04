-- ===== src/Provisioning/Tests.antt =====
-- The QR of a concrete device.
use iot_saas.Prelude.{ℕ, true, ◌≡◌, refl, some, ◌==◌}
use iot_saas.Prelude.Json.{Json, JsonText, num}
use iot_saas.Samples.{naturals}
use iot_saas.Provisioning.{
  Payload, payload_body, provisioning_payload, parse_provisioning_qr, qr_for,
  parse_provisioning_qr-provisioning_payload,
}

abbrev device : Payload
device = record { name = "pump"; username = "d1"; password = "secret"; security_2 = true }

abbrev reader : JsonText ℕ
reader = record {
  parse = λ t. some (payload_body naturals device);
  print = λ v. "{}";
  show = λ v. "{}";
}

abbrev to_number : Json ℕ → ℕ
to_number (num n) = n
to_number v = 0

parse_provisioning_qr-provisioning_payload_example :
    parse_provisioning_qr naturals reader to_number
      (λ k n. k == n)
      (provisioning_payload naturals reader device)
    ≡ some (qr_for naturals reader to_number (λ k n. k == n) device)
parse_provisioning_qr-provisioning_payload_example =
    parse_provisioning_qr-provisioning_payload naturals reader to_number (λ k n. k == n) device refl
      (λ n. refl) (λ k m h i. refl) refl refl refl
