-- ===== src/Rpc/Port.antt =====
-- libqrexec/exec.c: `validate_port`.
pub mod Range
use qubes_core_qrexec.Prelude.{
  is_digit, ◌-◌, ◌/◌, ◌<◌, Bool, true, false, ◌&&◌, [], ◌∷◌, ltb, ◌==◌, if◌then◌else◌, length,
  Bytes, codes, within,
}

abbrev pub all_digits : Bytes → Bool
all_digits [] = true
all_digits (c ∷ s) = is_digit c && all_digits s

-- `memcmp(a, b, n) <= 0` on two blocks of one length.
abbrev pub memcmp_le : Bytes → Bytes → Bool
memcmp_le [] b = true
memcmp_le (x ∷ a) [] = true
memcmp_le (x ∷ a) (y ∷ b) = if x == y then memcmp_le a b else ltb x y

abbrev pub max_port : Bytes
max_port = codes "65535"

unfoldable pub validate_port : Bytes → Bool
validate_port [] = false
validate_port (c ∷ s) =
    if within b'1' b'9' c
    then if all_digits s
      then if ltb (length max_port) (length (c ∷ s))
        then false
        else if ltb (length (c ∷ s)) (length max_port)
        then true
        else memcmp_le (c ∷ s) max_port
      else false
    else false
