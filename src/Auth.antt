-- ===== src/Auth.antt =====
-- terminal/src/net/Auth.h: the shared-token gate.
pub mod Compare
use qt_s5p6818_face_tracking.Base.{
  ℕ, ◌+◌, ◌%◌, Bool, List, [], ◌∷◌, Bytes, Option, none, some, length, get_or, bit_or, bit_xor,
  ◌==◌, if◌then◌else◌,
}
use qt_s5p6818_face_tracking.Json.{get_string}

abbrev pub token_key : Bytes
token_key = b't' ∷ b'o' ∷ b'k' ∷ b'e' ∷ b'n' ∷ []

-- The byte of `got` that round `i` looks at: 0 if there is none.
got_byte : Bytes → ℕ → ℕ
got_byte [] i = 0
got_byte (g ∷ gs) i = get_or (g ∷ gs) (i % length (g ∷ gs)) 0

-- The rounds from `i` on, over the rest of `expected`; no round is skipped.
diff_rounds : Bytes → ℕ → ℕ → Bytes → ℕ
unfolding got_byte
diff_rounds got i diff [] = diff
diff_rounds got i diff (e ∷ es) =
    diff_rounds got (i + 1) (bit_or diff (bit_xor e (got_byte got i))) es

unfoldable pub constant_time_equal : Bytes → Bytes → Bool
unfolding diff_rounds
constant_time_equal expected got =
    diff_rounds got 0 (if length expected == length got then 0 else 1) expected == 0

abbrev pub or_empty : Option Bytes → Bytes
or_empty none = []
or_empty (some s) = s

-- The token stays empty if the text has none.
unfoldable pub hello_authorized : Bytes → Bytes → Bool
hello_authorized expected hello_body =
    constant_time_equal expected (or_empty (get_string hello_body token_key))
