-- ===== src/Hex.antt =====
-- Python's `bytes.hex` and `bytes.fromhex`.
use Prim.Native.Char.{Char, code}
use mathlib.Core.Path.{subst}
use langgraph_temporal.Prelude.{
  ℕ, ◌+◌, ◌-◌, ◌*◌, ◌/◌, ◌%◌, ◌<◌, String, ◌≡◌, refl, arith, Bool, ◌||◌, ◌&&◌, List, [], ◌∷◌, leb,
  eqb, if◌then◌else◌, or_default, zero, suc, false, Bool-cases, inl, inr,
}
use langgraph_temporal.Prelude.Lists.{get_elem?}
use langgraph_temporal.Prelude.Result.{Result, ok, err, value_error, ◌>>=◌}
use langgraph_temporal.Codec.{Bytes}

-- The sixteen digits.
abbrev hex_digits : List Char
hex_digits =
    "0" ∷ "1" ∷ "2" ∷ "3" ∷ "4" ∷ "5" ∷ "6" ∷ "7" ∷ "8" ∷ "9" ∷ "a" ∷ "b" ∷ "c" ∷ "d" ∷ "e" ∷ "f"
    ∷ []

unfoldable pub digit_char : ℕ → Char
digit_char n = or_default (get_elem? hex_digits n) "0"

-- `data.hex()`: two digits for each byte.
unfoldable pub hex : Bytes → String
unfolding digit_char
hex [] = ""
hex (b ∷ bs) = String.◌∷◌ (digit_char (b / 16)) (String.◌∷◌ (digit_char (b % 16)) (hex bs))

-- The value of a digit; digits above 9 are of either case.
unfoldable pub nibble : Char → Result ℕ
nibble c =
    let n = code c in
    if leb 48 n && leb n 57
    then ok (n - 48)
    else if leb 97 n && leb n 102
    then ok (n - 87)
    else if leb 65 n && leb n 70
    then ok (n - 55)
    else err (value_error "non-hexadecimal number found")

-- ASCII whitespace, which may stand between bytes.
unfoldable pub is_space : Char → Bool
is_space c = let n = code c in eqb n 32 || (leb 9 n && leb n 13)

-- `bytes.fromhex(s)`
unfoldable pub from_hex : String → Result Bytes
unfolding nibble is_space
from_hex String.[] = ok []
from_hex (String.◌∷◌ c String.[]) =
    if is_space c then ok [] else err (value_error "non-hexadecimal number found")
from_hex (String.◌∷◌ c (String.◌∷◌ d s)) =
    let skipped = from_hex (String.◌∷◌ d s) in
    let rest = from_hex s in
    if is_space c
    then skipped
    else (nibble c >>= λ high. nibble d >>= λ low. rest >>= λ bs. ok ((high * 16 + low) ∷ bs))

-- Numbers that are bytes.
abbrev pub AreBytes : Bytes → Type 0
AreBytes [] = Unit
AreBytes (b ∷ bs) = (b < 256) × AreBytes bs

-- A property of all numbers below one, to be proved by computing.
abbrev Below : (ℕ → Type 0) → ℕ → Type 0
Below P zero = Unit
Below P (suc n) = P n × Below P n

below_at : (P : ℕ → Type 0) (n m : ℕ) → Below P n → m < n → P m
below_at P zero m b h = absurd (omega arith)
below_at P (suc n) m (p, b) h = elim (Bool-cases (eqb n m)) [
  | inl same ↦ subst P (ground (arith, same)) p
  | inr differ ↦ below_at P n m b (ground (arith, differ))
]

abbrev IsDigit : ℕ → Type 0
IsDigit n = (nibble (digit_char n) ≡ ok n) × (is_space (digit_char n) ≡ false)

digits : Below IsDigit 16
unfolding nibble digit_char is_space
digits = (
  (refl, refl),
  (
    (refl, refl),
    (
      (refl, refl),
      (
        (refl, refl),
        (
          (refl, refl),
          (
            (refl, refl),
            (
              (refl, refl),
              (
                (refl, refl),
                (
                  (refl, refl),
                  (
                    (refl, refl),
                    (
                      (refl, refl),
                      (
                        (refl, refl),
                        ((refl, refl), ((refl, refl), ((refl, refl), ((refl, refl), tt)))),
                      ),
                    ),
                  ),
                ),
              ),
            ),
          ),
        ),
      ),
    ),
  ),
)

digit_char_lem : (n : ℕ) → n < 16 → IsDigit n
digit_char_lem n h = below_at IsDigit 16 n digits h

pub from_hex-hex : (bs : Bytes) → AreBytes bs → from_hex (hex bs) ≡ ok bs
unfolding from_hex hex
from_hex-hex [] h = refl
from_hex-hex (b ∷ bs) (h, hs) = ground (
  arith,
  digit_char_lem (b / 16) (omega arith),
  digit_char_lem (b % 16) (omega arith),
  from_hex-hex bs hs,
)
