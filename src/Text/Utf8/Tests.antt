-- ===== src/Text/Utf8/Tests.antt =====
-- Runs of the conversions, and the laws at concrete texts.
use airdcpp_core.Base.{
  ℕ, ◌+◌, ◌≡◌, refl, true, ◌&&◌, none, some, [], ◌∷◌, ◌++◌, arith, leb, if◌then◌else◌, Bytes, codes,
}
use airdcpp_core.Text.Utf8.{
  good, is_invalid_code_point, lead_bytes, decode_rest, decode_lead, utf8_to_wc, encode, wc_to_utf8,
  validate_utf8, insert_at, sanitize_loop, sanitize_utf8,
}
use airdcpp_core.Text.Utf8.RoundTrip.{utf8_to_wc-wc_to_utf8}
use airdcpp_core.Text.Utf8.Texts.{IsShortest, IsLowering, sanitize_utf8-validate_utf8}

abbrev euro : Bytes
euro = 0xe2 ∷ 0x82 ∷ 0xac ∷ []

utf8_to_wc-wc_to_utf8_example : utf8_to_wc (wc_to_utf8 0x20ac ++ codes "x") ≡ good 3 0x20ac
unfolding wc_to_utf8 encode is_invalid_code_point
utf8_to_wc-wc_to_utf8_example = utf8_to_wc-wc_to_utf8 0x20ac (codes "x")

euro_written : wc_to_utf8 0x20ac ≡ euro
unfolding wc_to_utf8 encode is_invalid_code_point
euro_written = refl

-- An overlong letter is accepted, and its text becomes shorter.
overlong_accepted : utf8_to_wc (0xc1 ∷ 0x81 ∷ []) ≡ good 2 0x41
unfolding utf8_to_wc decode_lead lead_bytes decode_rest is_invalid_code_point
overlong_accepted = refl

-- With an invalid byte behind it, the position to insert at lies behind the end.
overlong_then_invalid : sanitize_utf8 (0xc1 ∷ 0x81 ∷ 0xff ∷ []) ≡ none
unfolding sanitize_utf8 sanitize_loop insert_at utf8_to_wc decode_lead lead_bytes decode_rest
    wc_to_utf8 encode is_invalid_code_point
overlong_then_invalid = refl

-- The assertion of the source.
sanitized : sanitize_utf8 (0x41 ∷ 0xc3 ∷ codes "Name") ≡ some (codes "A_Name")
unfolding sanitize_utf8 sanitize_loop insert_at utf8_to_wc decode_lead lead_bytes decode_rest
    wc_to_utf8 encode is_invalid_code_point
sanitized = refl

sanitize_utf8-validate_utf8_example :
    (t : Bytes) × (sanitize_utf8 (0x41 ∷ 0xc3 ∷ euro) ≡ some t) × (validate_utf8 t ≡ true)
unfolding IsShortest utf8_to_wc decode_lead lead_bytes decode_rest wc_to_utf8 encode
    is_invalid_code_point
sanitize_utf8-validate_utf8_example =
    sanitize_utf8-validate_utf8 (0x41 ∷ 0xc3 ∷ euro) (refl, (refl, tt))

abbrev ascii_lower : ℕ → ℕ
ascii_lower c = if leb 65 c && leb c 90 then c + 32 else c

ascii_lower-IsLowering : IsLowering ascii_lower
unfolding IsLowering is_invalid_code_point
ascii_lower-IsLowering c = ground arith
