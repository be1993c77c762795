-- ===== src/Validation/Format.antt =====
-- The string formats (`is_uuid` and `is_url_like` of ext/rustly_core/src/validation/engine.rs).
pub mod Uuid
use rustly_core.Base.{
  ℕ, suc, String, Bool, true, false, not, ◌&&◌, ◌||◌, List, [], ◌∷◌, leb, ◌==◌, if◌then◌else◌,
}
use rustly_core.Base.Lists.{length}
use rustly_core.Base.Text.{codes, encode, codes_start_with}

-- `DASH_POS.contains(&idx)`
abbrev pub is_dash_pos : ℕ → Bool
is_dash_pos i = i == 8 || i == 13 || i == 18 || i == 23

-- `u8::is_ascii_hexdigit`
unfoldable pub is_ascii_hexdigit : ℕ → Bool
is_ascii_hexdigit b =
    leb b'0' b && leb b b'9' || leb b'a' b && leb b b'f' || leb b'A' b && leb b b'F'

-- The loop over the bytes, from the position `idx`.
unfoldable pub uuid_bytes : ℕ → List ℕ → Bool
uuid_bytes idx [] = true
uuid_bytes idx (b ∷ bs) =
    let rest = uuid_bytes (suc idx) bs in
    if is_dash_pos idx
    then if not (b == b'-') then false else rest
    else if not (is_ascii_hexdigit b)
    then false
    else rest

unfoldable pub is_uuid : String → Bool
unfolding uuid_bytes encode
is_uuid value =
    let bytes = encode (codes value) in
    if not (length bytes == 36) then false else uuid_bytes 0 bytes

unfoldable pub is_url_like : String → Bool
is_url_like value =
    codes_start_with (codes value) (codes "http://")
    || codes_start_with (codes value) (codes "https://")
