-- ===== src/Remote/Wording.antt =====
-- terminal/src/net/MiniJson.h on the bodies that pc-client/src/net/TcpClient.cpp writes for commands.
use qt_s5p6818_face_tracking.Base.{
  ◌≡◌, refl, Bool, true, false, ◌||◌, [], ◌∷◌, ◌++◌, Bytes, Option, some, length, All, ◌==◌, ◌<◌,
  arith, inl, inr, ◌⊎◌, equal, if◌then◌else◌,
}
use qt_s5p6818_face_tracking.Base.Text.{codes, find, starts_with}
use qt_s5p6818_face_tracking.Json.{
  quote, needle_of, skip_blank, value_pos, get_number, get_bool, get_string, unquote,
}
use qt_s5p6818_face_tracking.Remote.{step_by, aim_at, track, command_of, is_numeral, IsPrinted}
use qt_s5p6818_face_tracking.Session.Dispatch.{servo_command, mode_command}

-- A key is not found inside a number.
find-numeral :
    (key digits rest : Bytes)
    → All (λ b. is_numeral b ≡ true) digits
    → find (needle_of key) (digits ++ rest) ≡ find (needle_of key) rest
unfolding find starts_with
find-numeral key [] rest h = refl
find-numeral key (b ∷ digits) rest h =
    let e : (quote == b) ≡ false = ground (arith, h.0) in rw e (find-numeral key digits rest h.1)

skip_blank-numeral :
    (digits rest : Bytes)
    → All (λ b. is_numeral b ≡ true) digits
    → 0 < length digits
    → skip_blank (digits ++ rest) ≡ digits ++ rest
unfolding skip_blank
skip_blank-numeral [] rest h k = absurd (omega arith)
skip_blank-numeral (b ∷ digits) rest h k =
    let e : (b == b' ' || b == b'\t') ≡ false = ground (arith, h.0) in rw e refl

-- The body of a SERVO_CMD.
abbrev pub servo_body : Bytes → Bytes → Bytes → Bytes
servo_body mode pan tilt =
    codes "{\"mode\":\""
    ++ (mode ++ (codes "\",\"pan\":" ++ (pan ++ (codes ",\"tilt\":" ++ (tilt ++ codes "}")))))

abbrev from_pan : Bytes → Bytes → Bytes
from_pan pan tilt = pan ++ (codes ",\"tilt\":" ++ (tilt ++ codes "}"))

pan_pos :
    (mode : Bytes) (pan tilt : Bytes)
    → (mode ≡ codes "step") ⊎ (mode ≡ codes "abs")
    → value_pos (servo_body mode pan tilt) (codes "pan") ≡ some (skip_blank (from_pan pan tilt))
unfolding value_pos
pan_pos mode pan tilt (inl e) = rw e refl
pan_pos mode pan tilt (inr e) = rw e refl

tilt_pos :
    (mode : Bytes) (pan tilt : Bytes)
    → (mode ≡ codes "step") ⊎ (mode ≡ codes "abs")
    → All (λ b. is_numeral b ≡ true) pan
    → value_pos (servo_body mode pan tilt) (codes "tilt") ≡ some (skip_blank (tilt ++ codes "}"))
unfolding value_pos
tilt_pos mode pan tilt (inl e) h =
    rw (e, find-numeral (codes "tilt") pan (codes ",\"tilt\":" ++ (tilt ++ codes "}")) h) refl
tilt_pos mode pan tilt (inr e) h =
    rw (e, find-numeral (codes "tilt") pan (codes ",\"tilt\":" ++ (tilt ++ codes "}")) h) refl

mode_text :
    (mode : Bytes) (pan tilt : Bytes)
    → (mode ≡ codes "step") ⊎ (mode ≡ codes "abs")
    → get_string (servo_body mode pan tilt) (codes "mode") ≡ some mode
unfolding get_string value_pos unquote
mode_text mode pan tilt (inl e) = rw e refl
mode_text mode pan tilt (inr e) = rw e refl

module _ {R : Type 0} (print : R → Bytes) (strtod : Bytes → Option R) (zero : R) where
  pan_number :
      (mode : Bytes) (pan tilt : R)
      → (mode ≡ codes "step") ⊎ (mode ≡ codes "abs")
      → IsPrinted print strtod pan
      → get_number strtod (servo_body mode (print pan) (print tilt)) (codes "pan") ≡ some pan
  unfolding get_number
  pan_number mode pan tilt m p =
      rw
        (
          pan_pos mode (print pan) (print tilt) m,
          skip_blank-numeral (print pan) (codes ",\"tilt\":" ++ (print tilt ++ codes "}")) p.numeral
              p.not_empty,
        )
        (p.before_comma (codes "\"tilt\":" ++ (print tilt ++ codes "}")))

  tilt_number :
      (mode : Bytes) (pan tilt : R)
      → (mode ≡ codes "step") ⊎ (mode ≡ codes "abs")
      → IsPrinted print strtod pan
      → IsPrinted print strtod tilt
      → get_number strtod (servo_body mode (print pan) (print tilt)) (codes "tilt") ≡ some tilt
  unfolding get_number
  tilt_number mode pan tilt m p t =
      rw
        (
          tilt_pos mode (print pan) (print tilt) m p.numeral,
          skip_blank-numeral (print tilt) (codes "}") t.numeral t.not_empty,
        )
        (t.before_brace [])

  -- The bodies that the client writes are read as the commands that they mean.
  pub servo_command-step :
      (pan tilt : R)
      → IsPrinted print strtod pan
      → IsPrinted print strtod tilt
      → servo_command strtod zero (servo_body (codes "step") (print pan) (print tilt))
        ≡ command_of zero (step_by pan tilt)
  unfolding servo_command equal
  servo_command-step pan tilt p t =
      rw
        (
          mode_text (codes "step") (print pan) (print tilt) (inl refl),
          pan_number (codes "step") pan tilt (inl refl) p,
          tilt_number (codes "step") pan tilt (inl refl) p t,
        )
        refl

  pub servo_command-abs :
      (pan tilt : R)
      → IsPrinted print strtod pan
      → IsPrinted print strtod tilt
      → servo_command strtod zero (servo_body (codes "abs") (print pan) (print tilt))
        ≡ command_of zero (aim_at pan tilt)
  unfolding servo_command equal
  servo_command-abs pan tilt p t =
      rw
        (
          mode_text (codes "abs") (print pan) (print tilt) (inr refl),
          pan_number (codes "abs") pan tilt (inr refl) p,
          tilt_number (codes "abs") pan tilt (inr refl) p t,
        )
        refl

-- The body of a MODE_CMD.
abbrev pub mode_body : Bool → Bytes
mode_body on =
    codes "{\"autoTrack\":" ++ ((if on then codes "true" else codes "false") ++ codes "}")

pub mode_command-track :
    {R : Type 0} (zero : R) (on : Bool)
    → mode_command zero (mode_body on) ≡ command_of zero (track on)
unfolding mode_command get_bool value_pos equal
mode_command-track zero true = refl
mode_command-track zero false = refl
