-- ===== src/Utf8/Tests.antt =====
-- Runs of the UTF-8 routines, and the theorems at concrete inputs.
use luadch.Common.{
  ℕ, ◌≤◌, List, [], ◌∷◌, Bool, true, false, some, length, ◌≡◌, refl, ◌↔◌, arith, All,
}
use luadch.Utf8.{
  utf8_to_wc, utf8_bytes, sanitize_utf8, sanitize_loop, validate_utf8, validate_loop, wc_to_utf8,
  read_rest, check_code_point, sequence_length, is_invalid_code_point,
}
use luadch.Utf8.Forms.{Form, IsForm}
use luadch.Utf8.Sanitize.{write}
use luadch.Utf8.Validate.{validate_utf8_iff, sanitize_utf8_repairs}

-- "a", a stray 0xff, a lead byte with no continuation, "(", and U+20AC.
abbrev dirty : List ℕ
dirty = 0x61 ∷ 0xff ∷ 0xc3 ∷ 0x28 ∷ 0xe2 ∷ 0x82 ∷ 0xac ∷ []

sanitize_dirty : sanitize_utf8 dirty ≡ some (0x61 ∷ 0x5f ∷ 0x5f ∷ 0x28 ∷ 0xe2 ∷ 0x82 ∷ 0xac ∷ [])
unfolding sanitize_utf8 sanitize_loop utf8_to_wc read_rest check_code_point sequence_length
    wc_to_utf8 utf8_bytes is_invalid_code_point
sanitize_dirty = refl

-- Overlong forms of two and three bytes are refused, and a surrogate is.
refused :
    (validate_utf8 (0xc0 ∷ 0x80 ∷ []) ≡ some false)
    × (validate_utf8 (0xe0 ∷ 0x80 ∷ 0x80 ∷ []) ≡ some false)
    × (validate_utf8 (0xed ∷ 0xa0 ∷ 0x80 ∷ []) ≡ some false)
    × (validate_utf8 (0xf0 ∷ 0x82 ∷ 0x82 ∷ 0xac ∷ []) ≡ some true)
unfolding validate_utf8 validate_loop utf8_to_wc read_rest check_code_point sequence_length
    is_invalid_code_point
refused = (refl, refl, refl, refl)

sanitize_utf8_repairs_example :
    (t : List ℕ) × (sanitize_utf8 dirty ≡ some t)
    × (validate_utf8 t ≡ some true)
    × (sanitize_utf8 t ≡ some t)
    × (length t ≤ length dirty)
sanitize_utf8_repairs_example = sanitize_utf8_repairs dirty (omega arith)

validate_utf8_iff_example :
    ((b : Bool) × (validate_utf8 dirty ≡ some b))
    × ((validate_utf8 dirty ≡ some true) ↔ ((fs : List Form) × All IsForm fs × (dirty ≡ write fs)))
validate_utf8_iff_example = validate_utf8_iff dirty (omega arith)
