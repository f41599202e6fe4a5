-- ===== src/Identifiers/Tests.antt =====
-- An identifier on concrete bytes, and the theorem at it.
use elydora_open_source.Prelude.{ℕ, ◌+◌, ◌≤◌, ◌<◌, ◌≡◌, refl, some, arith, length, get_elem?}
use elydora_open_source.Prelude.Texts.{Text, codes}
use elydora_open_source.Identifiers.{
  radix_digit, uuid_bytes, hex_byte, hex_text, format_uuid, generate_uuid_v7,
}
use elydora_open_source.Identifiers.Layout.{time_of, generated-layout}

abbrev identifier : Text
identifier = generate_uuid_v7 1700000000000 (λ i. i + 1)

identifier_run : identifier ≡ codes "018bcfe5-6800-7708-890a-0b0c0d0e0f10"
unfolding uuid_bytes hex_byte hex_text format_uuid generate_uuid_v7
identifier_run = refl

generated-layout_example :
    (time_of identifier ≡ 1700000000000)
    × (length identifier ≡ 36)
    × (get_elem? identifier 14 ≡ some b'7')
    × (d : ℕ) × (8 ≤ d)
    × (d < 12)
    × (get_elem? identifier 19 ≡ some (radix_digit d))
generated-layout_example = generated-layout 1700000000000 (λ i. i + 1) (omega arith)
