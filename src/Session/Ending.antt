-- ===== src/Session/Ending.antt =====
-- terminal/src/net/ClientSession.cpp: what ends the loop of a session.
use qt_s5p6818_face_tracking.Base.{
  ℕ, ◌≡◌, refl, ap, subst, sym, ◌∙◌, ◌⊎◌, inl, inr, Bool, true, false, not, ◌&&◌, List, [], ◌∷◌,
  ◌++◌, Bytes, Option, if_lem,
}
use qt_s5p6818_face_tracking.Files.{FileSystem, FileManager}
use qt_s5p6818_face_tracking.Session.{Session}
use qt_s5p6818_face_tracking.Session.Dispatch.{Moment, eof, failed, other, read_and_dispatch}
use qt_s5p6818_face_tracking.Session.Run.{
  Polled, poll_failed, hung_up, readable, Tick, Loop, Outcome, running, closed, after_poll, pass,
  run_loop, run, is_late, after_read,
}

-- A pass that no session survives: it is told to stop, or the socket is at its end or broken.
abbrev pub IsLast : {Image : Type 0} → Tick Image → Type 0
IsLast t =
    (t.stop ≡ true)
    ⊎ (t.polled ≡ hung_up)
    ⊎ (t.polled ≡ poll_failed)
    ⊎ (t.polled ≡ readable eof)
    ⊎ (t.polled ≡ readable (failed other))

module _ {R D Image : Type 0} (fs : FileSystem D Image) (m : FileManager)
    (strtod : Bytes → Option R) (zero : R) (moments : ℕ → Moment Image)
    (stream_fps start_ms : ℕ) where
  abbrev IsClosed : Outcome R D → Type 0
  IsClosed o = (s : Session R D) × (o ≡ closed s)

  polled_as :
      (l : Loop R D) (t : Tick Image) (p : Polled)
      → t.polled ≡ p
      → IsClosed (after_poll fs m strtod zero moments stream_fps start_ms l t p)
      → IsClosed (after_poll fs m strtod zero moments stream_fps start_ms l t t.polled)
  polled_as l t p e h =
      subst (λ q. IsClosed (after_poll fs m strtod zero moments stream_fps start_ms l t q)) (sym e)
        h

  polled_last :
      (l : Loop R D) (t : Tick Image)
      → IsLast t
      → t.stop ≡ false
      → IsClosed (after_poll fs m strtod zero moments stream_fps start_ms l t t.polled)
  unfolding after_poll read_and_dispatch after_read
  polled_last l t (inl e) f = absurd (cc (sym e ∙ f))
  polled_last l t (inr (inl e)) f = polled_as l t hung_up e (l.session, refl)
  polled_last l t (inr (inr (inl e))) f = polled_as l t poll_failed e (l.session, refl)
  polled_last l t (inr (inr (inr (inl e)))) f = polled_as l t (readable eof) e (l.session, refl)
  polled_last l t (inr (inr (inr (inr e)))) f =
      polled_as l t (readable (failed other)) e (l.session, refl)

  pass-last :
      (l : Loop R D) (t : Tick Image)
      → IsLast t
      → IsClosed (pass fs m strtod zero moments stream_fps start_ms l t)
  unfolding pass
  pass-last l t h =
      if_lem IsClosed t.stop (closed l.session) _ (λ e. (l.session, refl))
        (λ e.
          if_lem IsClosed (not l.session.authed && is_late start_ms t.auth_ms) (closed l.session) _
            (λ f. (l.session, refl)) (λ f. polled_last l t h e))

  loop_closes :
      (o : Outcome R D) (ts : List (Tick Image)) (t : Tick Image)
      → IsLast t
      → (s' : Session R D) × ((us : List (Tick Image))
          → run_loop fs m strtod zero moments stream_fps start_ms o (ts ++ t ∷ us) ≡ closed s')
  unfolding run_loop
  loop_closes (closed s) ts t h = (s, λ us. refl)
  loop_closes (running l) [] t h =
      let (s', e) = pass-last l t h in
      (s', λ us. ap (λ o. run_loop fs m strtod zero moments stream_fps start_ms o us) e)
  loop_closes (running l) (u ∷ ts) t h =
      loop_closes (pass fs m strtod zero moments stream_fps start_ms l u) ts t h

  -- A pass in which the session is told to stop, or poll reports a hang-up or an error, or the
  -- read finds the end or an error that is not to be retried, closes the session at the latest,
  -- whatever came before and whatever comes behind.
  pub run_closes :
      (s : Session R D) (handshake : Bool) (ts : List (Tick Image)) (t : Tick Image)
      → IsLast t
      → (s' : Session R D) × ((us : List (Tick Image))
          → run fs m strtod zero moments stream_fps start_ms s handshake (ts ++ t ∷ us) ≡ closed s')
  unfolding run
  run_closes s true ts t h = loop_closes _ ts t h
  run_closes s false ts t h = (s, λ us. refl)
