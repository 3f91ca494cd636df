-- ===== src/Session/Gate.antt =====
-- The token gate of terminal/src/net/ClientSession.cpp: what a client without the token can do.
use mathlib.Core.List.{flatten}
use qt_s5p6818_face_tracking.Auth.{token_key, hello_authorized}
use qt_s5p6818_face_tracking.Auth.Compare.{constant_time_equal_iff}
use qt_s5p6818_face_tracking.Base.{
  ℕ, ◌≡◌, ◌≢◌, ◌⊎◌, inl, inr, sym, ◌∙◌, ap, true, false, List, [], ◌∷◌, ◌++◌, Bytes, Option, some,
  length, ◌==◌, ==_iff, AreBytes, Bool-cases, Option-cases,
}
use qt_s5p6818_face_tracking.Files.{FileSystem, FileManager}
use qt_s5p6818_face_tracking.Json.{get_string}
use qt_s5p6818_face_tracking.Json.Bounds.{get_string-AreBytes}
use qt_s5p6818_face_tracking.Protocol.{hello, type_code}
use qt_s5p6818_face_tracking.Session.{Session}
use qt_s5p6818_face_tracking.Session.Dispatch.{Moment, max_message, refuse, on_message}
use qt_s5p6818_face_tracking.Stream.{message, scan, ended, waiting, drain_all, resume, resume_all}
use qt_s5p6818_face_tracking.Stream.Chunks.{
  Scan-cases, scan-AreBytes, drain_need_more, drain_refused, drain_stop, resume_all-flatten,
}

-- A HELLO is accepted exactly when it carries the token, if there is one to carry.
pub hello_authorized-token :
    (token body : Bytes)
    → AreBytes token
    → AreBytes body
    → token ≢ []
    → hello_authorized token body ≡ true
    → get_string body token_key ≡ some token
unfolding hello_authorized
hello_authorized-token token body ht hb ne h = elim (Option-cases (get_string body token_key)) [
  | inl e ↦ absurd (ne ((constant_time_equal_iff token [] ht tt).0 (rw e at h)))
  | inr (s, e) ↦
      e
      ∙ ap some (
          sym (
            (constant_time_equal_iff token s ht (get_string-AreBytes body token_key hb e)).0
              (rw e at h)))
]

module _ {R D Image : Type 0} (fs : FileSystem D Image) (m : FileManager)
    (strtod : Bytes → Option R) (zero : R) (moments : ℕ → Moment Image) where
  on_message-cases :
      (s : Session R D) (t : ℕ) (payload : Bytes)
      → s.authed ≡ false
      → (on_message fs m strtod zero moments s t payload ≡ (s, false))
        ⊎ ((t ≡ type_code hello) × (hello_authorized s.auth_token payload ≡ true))
  unfolding on_message
  on_message-cases s t payload h = elim (Bool-cases (t == type_code hello)) [
    | inr e ↦ inl (rw (h, e))
    | inl e ↦ elim (Bool-cases (hello_authorized s.auth_token payload)) [
      | inl f ↦ inr ((==_iff _ _).0 e, f)
      | inr f ↦ inl (rw (h, e, f))
    ]
  ]

  pub drain-gate :
      (s : Session R D) (bs : Bytes)
      → s.authed ≡ false
      → AreBytes s.auth_token
      → AreBytes bs
      → s.auth_token ≢ []
      → (drain_all max_message refuse (on_message fs m strtod zero moments) s bs ≡ waiting s bs)
        ⊎ (drain_all max_message refuse (on_message fs m strtod zero moments) s bs ≡ ended s)
        ⊎ ((body : Bytes) × (rest : Bytes) × (scan max_message bs
              ≡ message (type_code hello) body rest)
            × (get_string body token_key ≡ some s.auth_token))
  unfolding drain_all
  drain-gate s bs h ht hb ne = elim (Scan-cases (scan max_message bs)) [
    | inl e ↦ inl (drain_need_more max_message refuse _ (length bs) s bs e)
    | inr (inl (why, e)) ↦ inr (inl (drain_refused max_message refuse _ (length bs) s bs why e))
    | inr (inr (t, payload, rest, e)) ↦ elim (on_message-cases s t payload h) [
      | inl q ↦ inr (
          inl (
            drain_stop max_message refuse (on_message fs m strtod zero moments) (length bs) s bs e
              (ap (λ r. r.1) q)
            ∙ ap (λ r. ended r.0) q))
      | inr (q, a) ↦ inr (
          inr (
            payload,
            rest,
            e ∙ ap (λ x. message x payload rest) q,
            hello_authorized-token s.auth_token payload ht (scan-AreBytes max_message bs hb e) ne a,
          ))
    ]
  ]

  -- Whatever a client sends, in whatever pieces, to a session that asks for a token and has not
  -- got it: the session is unchanged and waits for more or drops the client, unless the first
  -- message of the stream is a HELLO that carries the token.
  pub gate_holds :
      (s : Session R D) (q : Bytes) (qs : List Bytes)
      → s.authed ≡ false
      → AreBytes s.auth_token
      → AreBytes (q ++ flatten qs)
      → s.auth_token ≢ []
      → let r =
          resume_all max_message refuse
            (on_message fs m strtod zero moments)
            (waiting s [])
            (q ∷ qs) in
        (r ≡ waiting s (q ++ flatten qs))
        ⊎ (r ≡ ended s)
        ⊎ ((body : Bytes) × (rest : Bytes) × (scan max_message (q ++ flatten qs)
              ≡ message (type_code hello) body rest)
            × (get_string body token_key ≡ some s.auth_token))
  unfolding resume
  gate_holds s q qs h ht hb ne =
      rw
        (resume_all-flatten max_message refuse (on_message fs m strtod zero moments) (waiting s [])
          q qs)
        (drain-gate s (q ++ flatten qs) h ht hb ne)
