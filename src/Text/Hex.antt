-- ===== src/Text/Hex.antt =====
-- `hex.EncodeToString` and `hex.DecodeString` of encoding/hex: two digits for a byte, the higher first.
use rosetta_thought.Prelude.{
  ℕ, ◌+◌, ◌-◌, ◌*◌, ◌/◌, ◌%◌, ◌<◌, ◌≡◌, refl, ◌&&◌, Option, none, some, List, [], ◌∷◌, arith, ltb,
  leb, if◌then◌else◌, All,
}

abbrev pub Bytes : Type 0
Bytes = List ℕ

abbrev pub IsBytes : Bytes → Type 0
IsBytes = All (λ b. b < 256)

unfoldable pub hex_digit : ℕ → ℕ
hex_digit d = if ltb d 10 then b'0' + d else b'a' + (d - 10)

unfoldable pub encode_to_string : Bytes → List ℕ
unfolding hex_digit
encode_to_string [] = []
encode_to_string (b ∷ bs) = hex_digit (b / 16) ∷ hex_digit (b % 16) ∷ encode_to_string bs

-- Both cases of the letters are read.
unfoldable pub from_hex_char : ℕ → Option ℕ
from_hex_char c =
    if leb b'0' c && leb c b'9'
    then some (c - b'0')
    else if leb b'a' c && leb c b'f'
    then some (c - b'a' + 10)
    else if leb b'A' c && leb c b'F'
    then some (c - b'A' + 10)
    else none

abbrev byte_of : Option ℕ → Option ℕ → Option Bytes → Option Bytes
byte_of (some high) (some low) (some bs) = some ((high * 16 + low) ∷ bs)
byte_of _ _ _ = none

-- `none`: an odd length, or a character that is not a hexadecimal digit.
unfoldable pub decode_string : List ℕ → Option Bytes
unfolding from_hex_char
decode_string [] = some []
decode_string (c ∷ []) = none
decode_string (c ∷ d ∷ s) = byte_of (from_hex_char c) (from_hex_char d) (decode_string s)

from_hex_char-hex_digit : (d : ℕ) → d < 16 → from_hex_char (hex_digit d) ≡ some d
unfolding from_hex_char hex_digit
from_hex_char-hex_digit d h = ground arith

-- Bytes that are printed in hexadecimal are read back.
pub decode_string-encode_to_string :
    (bs : Bytes) → IsBytes bs → decode_string (encode_to_string bs) ≡ some bs
unfolding decode_string encode_to_string
decode_string-encode_to_string [] h = refl
decode_string-encode_to_string (b ∷ bs) h =
    rw
      (
        from_hex_char-hex_digit (b / 16) (omega (arith, h.0)),
        from_hex_char-hex_digit (b % 16) (omega arith),
        decode_string-encode_to_string bs h.1,
      )
      (ground arith)
