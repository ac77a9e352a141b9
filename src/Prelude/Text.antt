-- ===== src/Prelude/Text.antt =====
-- Bytes in hexadecimal, as net.HardwareAddr prints them.
use Prim.Native.Nat.{ℕ, zero, suc, ◌/◌, ◌%◌}
use Prim.Native.String.{String, ◌++◌ as str_append}
use text.Mathlib.TextLemmas.{append-eq-nil_iff}
use text.Mathlib.TextEquality.{eq_iff as str_eq_iff}
use native.Mathlib.Omega.{arith}
use mathlib.Core.Logic.{◌≢◌}
use mathlib.Core.List.{List, [], ◌∷◌}

unfoldable pub digit_at : ℕ → List String → String
digit_at i [] = ""
digit_at zero (d ∷ ds) = d
digit_at (suc i) (d ∷ ds) = digit_at i ds

abbrev pub hex_digits : List String
hex_digits =
    "0" ∷ "1" ∷ "2" ∷ "3" ∷ "4" ∷ "5" ∷ "6" ∷ "7" ∷ "8" ∷ "9" ∷ "a" ∷ "b" ∷ "c" ∷ "d" ∷ "e" ∷ "f"
    ∷ []

pub hex_byte : ℕ → String
unfolding digit_at
hex_byte n = str_append (digit_at (n / 16) hex_digits) (digit_at (n % 16) hex_digits)

-- `HardwareAddr.String`: the bytes with colons between them.
unfoldable pub mac_string : List ℕ → String
unfolding hex_byte
mac_string [] = ""
mac_string (b ∷ []) = hex_byte b
mac_string (b ∷ bs) = str_append (hex_byte b) (str_append ":" (mac_string bs))

append-ne-nil : (s : String) → str_append "52" s ≢ ""
append-ne-nil s e = ground (arith, append-eq-nil_iff {p = "52"} {q = s}, str_eq_iff "52" "")

pub mac_string-ne-nil : (b : ℕ) (bs : List ℕ) → mac_string (0x52 ∷ b ∷ bs) ≢ ""
unfolding mac_string
mac_string-ne-nil b bs = append-ne-nil (str_append ":" (mac_string (b ∷ bs)))
