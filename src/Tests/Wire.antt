-- ===== src/Tests/Wire.antt =====
-- Runs of the message format and of the framing loop.
use mathlib.Core.List.{flatten}
use qt_s5p6818_face_tracking.Base.{◌≡◌, refl, true, ◌↔◌, [], ◌∷◌, ◌++◌, some, drop, arith}
use qt_s5p6818_face_tracking.Auth.{constant_time_equal}
use qt_s5p6818_face_tracking.Auth.Compare.{constant_time_equal_iff}
use qt_s5p6818_face_tracking.Json.{escape, get_string, needle_of, colon, quote}
use qt_s5p6818_face_tracking.Json.Strings.{get_string-escape}
use qt_s5p6818_face_tracking.Protocol.{
  hello, mode_cmd, type_code, build_message, decode_header, magic_word, header_size, put_u16,
  put_u32,
}
use qt_s5p6818_face_tracking.Protocol.RoundTrip.{decode_header-build_message}
use qt_s5p6818_face_tracking.Stream.{waiting, resume, resume_all}
use qt_s5p6818_face_tracking.Stream.Chunks.{resume_all-flatten}
use qt_s5p6818_face_tracking.Stream.Messages.{resume_all-wire, deliver}
use qt_s5p6818_face_tracking.Tests.Samples.{mode_bytes, token, longer_token, keep, ignore}

mode_bytes_test : build_message mode_cmd [] 0 ≡ mode_bytes
unfolding build_message put_u16 put_u32 type_code
mode_bytes_test = refl

decode_header-build_message_example :
    (decode_header (build_message hello (65 ∷ []) 1 ++ 9 ∷ [])
      ≡ some (record { magic = magic_word; type = type_code hello; flags = 1; length = 1 }))
    × (drop header_size (build_message hello (65 ∷ []) 1 ++ 9 ∷ []) ≡ 65 ∷ 9 ∷ [])
decode_header-build_message_example =
    decode_header-build_message hello (65 ∷ []) 1 (9 ∷ []) (omega arith) (omega arith)

-- A message cut in two reads.
resume_all-wire_example :
    resume_all 100 ignore keep (waiting [] []) ((83 ∷ 69 ∷ []) ∷ drop 2 mode_bytes ∷ [])
    ≡ deliver 100 ignore keep [] ((mode_cmd, []) ∷ [])
resume_all-wire_example =
    resume_all-wire 100 ignore keep [] ((mode_cmd, []) ∷ []) (83 ∷ 69 ∷ []) (drop 2 mode_bytes ∷ [])
      (omega arith) (omega arith, tt)
      (unfold build_message put_u16 put_u32 type_code flatten in refl)

resume_all-flatten_example :
    resume_all 100 ignore keep (waiting [] []) ((83 ∷ 69 ∷ []) ∷ drop 2 mode_bytes ∷ [])
    ≡ resume 100 ignore keep (waiting [] []) mode_bytes
unfolding flatten
resume_all-flatten_example =
    resume_all-flatten 100 ignore keep (waiting [] []) (83 ∷ 69 ∷ []) (drop 2 mode_bytes ∷ [])

constant_time_equal_iff_example :
    (constant_time_equal token longer_token ≡ true) ↔ (token ≡ longer_token)
constant_time_equal_iff_example =
    constant_time_equal_iff token longer_token (omega arith, tt) (omega arith, (omega arith, tt))

-- A string with a quote and a line feed.
get_string-escape_example :
    get_string
      (b'{' ∷ (needle_of token ++ colon ∷ quote ∷ (escape (34 ∷ 10 ∷ []) ++ quote ∷ [])))
      token
    ≡ some (34 ∷ 10 ∷ [])
get_string-escape_example = get_string-escape token (34 ∷ 10 ∷ []) []
