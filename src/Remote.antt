-- ===== src/Remote.antt =====
-- From the PC client to the gimbal's queue: what pc-client/src/net/TcpClient.cpp sends for a command,
-- and what terminal/src/net/ClientSession.cpp makes of the bytes. The two programs share the
-- protocol only, so this is where they are put together.
pub mod Wording
pub mod Delivery
pub mod Steering
pub mod Download
use qt_s5p6818_face_tracking.Base.{
  Bool, true, false, ◌&&◌, ◌||◌, not, List, [], ◌∷◌, ◌++◌, Bytes, ℕ, ltb, ◌==◌, if◌then◌else◌, All,
  ◌≡◌, ◌≤◌, ◌<◌, length, Option, some,
}
use qt_s5p6818_face_tracking.Base.Text.{codes, to_string}
use qt_s5p6818_face_tracking.Client.{
  Client, Qt, JsonValue, text, int, number, flag, send_servo_step, send_servo_abs, send_mode,
}
use qt_s5p6818_face_tracking.Core.Commands.{Command, servo_step, servo_abs, set_mode}

-- What the user may ask of the gimbal.
pub data Intent (R : Type 0) : Type 0 where
  step_by aim_at : R → R → Intent R
  track : Bool → Intent R

-- The command that it means; the fields that a mode does not use are 0.0.
abbrev pub command_of : {R : Type 0} → R → Intent R → Command R
command_of zero (step_by pan tilt) = record {
  type = servo_step;
  pan = pan;
  tilt = tilt;
  auto_track = true;
}
command_of zero (aim_at pan tilt) = record {
  type = servo_abs;
  pan = pan;
  tilt = tilt;
  auto_track = true;
}
command_of zero (track on) = record { type = set_mode; pan = zero; tilt = zero; auto_track = on }

module _ {R Image Cert : Type 0} (qt : Qt R Image Cert) where
  -- The client's call for it.
  abbrev pub request : Client Image Cert → Intent R → Client Image Cert
  request c (step_by pan tilt) = send_servo_step qt c pan tilt
  request c (aim_at pan tilt) = send_servo_abs qt c pan tilt
  request c (track on) = send_mode qt c on

  abbrev pub requests : Client Image Cert → List (Intent R) → Client Image Cert
  requests c [] = c
  requests c (i ∷ is) = requests (request c i) is

-- Text that JSON writes as it is.
abbrev pub is_plain : Bytes → Bool
is_plain [] = true
is_plain (b ∷ bs) =
    ltb 0x1f b && (ltb b 0x7f && (not (b == 0x22) && (not (b == 0x5c) && is_plain bs)))

-- The order of keys.
abbrev pub is_before : Bytes → Bytes → Bool
is_before s [] = false
is_before [] (d ∷ t) = true
is_before (c ∷ s) (d ∷ t) = let rest = is_before s t in if c == d then rest else ltb c d

module _ {R : Type 0} (print : R → Bytes) where
  abbrev pub value : JsonValue R → Bytes
  value (text s) = 0x22 ∷ (s ++ 0x22 ∷ [])
  value (int n) = to_string n
  value (number r) = print r
  value (flag true) = codes "true"
  value (flag false) = codes "false"

  abbrev pub members : List (Bytes × JsonValue R) → Bytes
  members [] = []
  members ((k, v) ∷ []) = 0x22 ∷ (k ++ (codes "\":" ++ value v))
  members ((k, v) ∷ f ∷ fs) =
      (0x22 ∷ (k ++ (codes "\":" ++ value v))) ++ (codes "," ++ members (f ∷ fs))

  abbrev pub is_plain_value : JsonValue R → Bool
  is_plain_value (text s) = is_plain s
  is_plain_value v = true

  -- Plain keys and texts, the keys in order.
  abbrev pub is_simple : List (Bytes × JsonValue R) → Bool
  is_simple [] = true
  is_simple ((k, v) ∷ []) = is_plain k && is_plain_value v
  is_simple ((k, v) ∷ (l, w) ∷ fs) =
      is_plain k && (is_plain_value v && (is_before k l && is_simple ((l, w) ∷ fs)))

  -- What Qt documents of QJsonDocument::Compact: no blanks, and the members in the order of the keys.
  abbrev pub IsCompact : (List (Bytes × JsonValue R) → Bytes) → Type 0
  IsCompact to_json =
      (fields : List (Bytes × JsonValue R))
      → is_simple fields ≡ true
      → to_json fields ≡ codes "{" ++ (members fields ++ codes "}")

-- The bytes of a printed number.
abbrev pub is_numeral : ℕ → Bool
is_numeral b =
    if ltb 0x2f b && ltb b 0x3a then true else b == b'-' || (b == b'+' || (b == b'.' || b == b'e'))

-- A number that is printed in a few bytes, which strtod reads back before a comma or a brace.
pub record IsPrinted {R : Type 0} (print : R → Bytes) (strtod : Bytes → Option R) (r : R)
    : Type 0 where
  pub numeral : All (λ b. is_numeral b ≡ true) (print r)
  pub not_empty : 0 < length (print r)
  pub short : length (print r) ≤ 32
  pub before_comma : (rest : Bytes) → strtod (print r ++ b',' ∷ rest) ≡ some r
  pub before_brace : (rest : Bytes) → strtod (print r ++ b'}' ∷ rest) ≡ some r

module _ {R : Type 0} (print : R → Bytes) (strtod : Bytes → Option R) where
  -- An intent whose numbers are printed so.
  abbrev pub IsSendable : Intent R → Type 0
  IsSendable (step_by pan tilt) = IsPrinted print strtod pan × IsPrinted print strtod tilt
  IsSendable (aim_at pan tilt) = IsPrinted print strtod pan × IsPrinted print strtod tilt
  IsSendable (track on) = Unit
