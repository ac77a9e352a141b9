-- ===== src/Webhook/Cidr.antt =====
-- `ValidateCIDR` and `ValidateMAC`. Parsing an address is Go's package net: an argument.
use native.Mathlib.Nat.{pow-suc, pow-le-pow_right}
use native.Mathlib.Decide.{dec_le, ℕ_discrete}
use virtink.Prelude.{
  ℕ, zero, suc, ◌+◌, ◌-◌, ◌%◌, ◌^◌, ◌≤◌, ◌≡◌, ◌≢◌, refl, ◌↔◌, Bool, true, false, not, if◌then◌else◌,
  String, str_eq, str_eq_iff, Option, none, some, [], ◌∷◌, ◌++◌, arith,
}
use virtink.Prelude.Int.{ℤ, pos, wrap64, wrap64-id, ltb_ℤ}
use virtink.Field.{FieldPath, FieldError, ErrorType, ErrorList, when, when-eq-nil}

-- net.ParseMAC: is the text an address? net.ParseCIDR: the prefix length and the number of bits of
-- the subnet's mask, where the text is an address with a prefix.
pub record Net : Type 0 where
  pub parse_mac : String → Bool
  pub parse_cidr : String → Option (ℕ × ℕ)

-- `1 << h` on int, which has 64 bits
unfoldable pub shl_one : ℕ → ℤ
shl_one h = wrap64 (pos (2 ^ h))

abbrev pub error_at : ErrorType → FieldPath → FieldError
error_at t p = record { error_type = t; path = p }

-- The second part of `ValidateCIDR`; a text that does not parse has no subnet, and is reported twice.
unfoldable pub check_subnet : Option (ℕ × ℕ) → ℕ → FieldPath → ErrorList
check_subnet none capacity p = error_at ErrorType.invalid p ∷ error_at ErrorType.invalid p ∷ []
check_subnet (some (ones, bits)) capacity p =
    when (ltb_ℤ (shl_one (bits - ones)) (pos capacity)) (error_at ErrorType.invalid p)

unfoldable pub validate_cidr : Net → String → ℕ → FieldPath → ErrorList
validate_cidr net cidr capacity p =
    if str_eq cidr ""
    then error_at ErrorType.required p ∷ []
    else check_subnet (net.parse_cidr cidr) capacity p

unfoldable pub validate_mac : Net → String → FieldPath → ErrorList
validate_mac net mac p =
    when (str_eq mac "") (error_at ErrorType.required p)
    ++ when (not (net.parse_mac mac)) (error_at ErrorType.invalid p)

two_pow-mod : (k : ℕ) → 2 ^ (k + 64) % 2 ^ 64 ≡ 0
two_pow-mod zero = refl
two_pow-mod (suc k) =
    let e : suc k + 64 ≡ suc (k + 64) = omega arith in
    rw e (omega (arith, pow-suc 2 (k + 64), two_pow-mod k))

-- Every shift that fits the word is exact, the one into the sign bit is negative, and a larger one
-- gives zero.
shl_one_small : (h : ℕ) → h ≤ 62 → shl_one h ≡ pos (2 ^ h)
unfolding shl_one
shl_one_small h fits =
    wrap64-id (pos (2 ^ h)) (omega (arith, pow-le-pow_right {n = 2} (omega arith) fits))
      (omega arith)

shl_one_large : (k : ℕ) → shl_one (k + 64) ≡ pos 0
unfolding shl_one wrap64
shl_one_large k = rw two_pow-mod refl

four-le-pow : (h : ℕ) → (4 ≤ 2 ^ h) ↔ (2 ≤ h)
four-le-pow zero = (λ h. omega arith, λ h. omega arith)
four-le-pow (suc zero) = (λ h. omega arith, λ h. omega arith)
four-le-pow (suc (suc h)) = (
  λ _. omega arith,
  λ _.
      omega (arith, pow-le-pow_right {n = 2} (omega arith) {i = 2} {j = suc (suc h)} (omega arith)),
)

shl_one-lt_four : (h : ℕ) → (ltb_ℤ (shl_one h) (pos 4) ≡ false) ↔ ((2 ≤ h) × (h ≤ 62))
shl_one-lt_four h = elim (dec_le h 62) [
  | yes small ↦ rw (shl_one_small h small) (ground (arith, four-le-pow h))
  | no big ↦ elim (ℕ_discrete h 63) [
    | yes e ↦ rw e (unfold shl_one wrap64 in ground arith)
    | no ne ↦ let e : h ≡ h - 64 + 64 = omega arith in rw e (rw shl_one_large (ground arith))
  ]
]

-- A subnet with at least 2 and at most 62 host bits.
abbrev pub RoomForFour : Option (ℕ × ℕ) → Type 0
RoomForFour none = ⊥
RoomForFour (some (ones, bits)) = (2 ≤ bits - ones) × (bits - ones ≤ 62)

check_subnet-nil_iff :
    (r : Option (ℕ × ℕ)) (p : FieldPath) → (check_subnet r 4 p ≡ []) ↔ RoomForFour r
unfolding check_subnet
check_subnet-nil_iff none p = ground arith
check_subnet-nil_iff (some (ones, bits)) p =
    let test = ltb_ℤ (shl_one (bits - ones)) (pos 4) in
    let none_iff = when-eq-nil test (error_at ErrorType.invalid p) in
    let room = shl_one-lt_four (bits - ones) in
    (λ h. room.0 (none_iff.0 h), λ h. none_iff.1 (room.1 h))

-- A CIDR text is accepted for four addresses exactly when it is not empty, it parses, and its subnet
-- has at least 2 and at most 62 host bits: a larger subnet is refused too, since the number of its
-- addresses does not fit an int.
pub validate_cidr-nil_iff :
    (net : Net) (cidr : String) (p : FieldPath)
    → (validate_cidr net cidr 4 p ≡ []) ↔ ((cidr ≢ "") × RoomForFour (net.parse_cidr cidr))
unfolding validate_cidr
validate_cidr-nil_iff net cidr p =
    ground (arith, str_eq_iff cidr "", check_subnet-nil_iff (net.parse_cidr cidr) p)

pub validate_mac-nil_iff :
    (net : Net) (mac : String) (p : FieldPath)
    → (validate_mac net mac p ≡ []) ↔ ((mac ≢ "") × (net.parse_mac mac ≡ true))
unfolding validate_mac
validate_mac-nil_iff net mac p = ground (arith, str_eq_iff mac "")
