-- ===== src/Random/Hex.antt =====
-- The hexadecimal form of a digest can be read back.
use prg_buildsh.Prelude.{
  ℕ, ◌+◌, ◌-◌, ◌*◌, ◌/◌, ◌%◌, ◌<◌, ◌≡◌, refl, Bool, true, ◌&&◌, ◌||◌, [], ◌∷◌, arith, ltb, leb,
  if◌then◌else◌, length, Text,
}
use prg_buildsh.Random.{hex_digit, to_hex}

abbrev AreBytes : Text → Type 0
AreBytes [] = Unit
AreBytes (b ∷ s) = (b < 256) × AreBytes s

-- A reader of hexadecimal digits, two for each byte.
abbrev hex_value : ℕ → ℕ
hex_value c = if ltb c b'a' then c - b'0' else c - b'a' + 10

abbrev pub from_hex : Text → Text
from_hex (h ∷ l ∷ s) = (hex_value h * 16 + hex_value l) ∷ from_hex s
from_hex _ = []

abbrev is_hex_digit : ℕ → Bool
is_hex_digit c = (leb b'0' c && leb c b'9') || (leb b'a' c && leb c b'f')

abbrev pub AreHex : Text → Type 0
AreHex [] = Unit
AreHex (c ∷ s) = (is_hex_digit c ≡ true) × AreHex s

hex_value-hex_digit : (n : ℕ) → n < 16 → hex_value (hex_digit n) ≡ n
unfolding hex_digit
hex_value-hex_digit n h = ground arith

hex_digit-is_hex : (n : ℕ) → n < 16 → is_hex_digit (hex_digit n) ≡ true
unfolding hex_digit
hex_digit-is_hex n h = ground arith

byte_from_hex :
    (b : ℕ)
    → b < 256
    → hex_value (hex_digit (b / 16 % 16)) * 16 + hex_value (hex_digit (b % 16)) ≡ b
byte_from_hex b h =
    rw (hex_value-hex_digit (b / 16 % 16) (omega arith), hex_value-hex_digit (b % 16) (omega arith))
      (omega arith)

-- The hexadecimal form of a digest of bytes has two digits for each byte, all of them among 0-9
-- and a-f, and a reader of hexadecimal gets the digest back from it.
pub to_hex_readable :
    (s : Text)
    → AreBytes s
    → (length (to_hex s) ≡ 2 * length s) × AreHex (to_hex s) × (from_hex (to_hex s) ≡ s)
unfolding to_hex
to_hex_readable [] h = (refl, tt, refl)
to_hex_readable (b ∷ s) h =
    let ih = to_hex_readable s h.1 in
    (
      omega (arith, ih.0),
      (
        hex_digit-is_hex (b / 16 % 16) (omega arith),
        (hex_digit-is_hex (b % 16) (omega arith), ih.1),
      ),
      rw (byte_from_hex b h.0, ih.2) refl,
    )
