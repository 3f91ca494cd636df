-- ===== src/Sockets.antt =====
-- terminal/src/net/SocketUtil.h, IByteStream.h and TlsConn.cpp: whole writes and reads on a raw
-- socket or a TLS session. What each system call or OpenSSL call gives is an argument, in order.
pub mod Tls
pub mod Reads
pub mod Raw
use qt_s5p6818_face_tracking.Base.{
  ℕ, zero, suc, ◌-◌, ◌≡◌, refl, sym, ap, ◌∙◌, Bool, ◌&&◌, ◌||◌, not, List, [], ◌∷◌, ◌++◌, Bytes,
  length, take, drop, take-append-drop, append_assoc, append-nil, ltb, ◌==◌, if◌then◌else◌,
}
use qt_s5p6818_face_tracking.Session.Dispatch.{
  Received, Errno, bytes, eof, failed, eagain, is_retry,
}

-- What one `send` or `SSL_write` gives.
pub data Written : Type 0 where
  wrote : ℕ → Written
  interrupted : Written
  broken : Written

-- The two results of the loop, or that the calls given do not come to its end.
pub data Finish : Type 0 where
  all_sent lost blocked : Finish

-- The loop over `off`: `done` is what is written, `rest` what is not.
unfoldable pub send_all : List Written → Bytes → Bytes → Bytes × Finish
send_all ws done [] = (done, all_sent)
send_all [] done (b ∷ rest) = (done, blocked)
send_all (wrote zero ∷ ws) done (b ∷ rest) = (done, lost)
send_all (wrote (suc n) ∷ ws) done (b ∷ rest) =
    send_all ws (done ++ take (suc n) (b ∷ rest)) (drop (suc n) (b ∷ rest))
send_all (interrupted ∷ ws) done (b ∷ rest) = send_all ws done (b ∷ rest)
send_all (broken ∷ ws) done (b ∷ rest) = (done, lost)

-- `TlsByteStream::writeAll`: the same loop, on a session that there is.
unfoldable pub tls_write_all : Bool → List Written → Bytes → Bytes × Finish
tls_write_all ssl ws payload = if not ssl then ([], lost) else send_all ws [] payload

-- What one `SSL_read` gives: a byte of data at least, or a failure by its `SSL_get_error`.
pub data SslRead : Type 0 where
  got : Bytes → SslRead
  want close_notify ssl_error : SslRead
  syscall : Errno → SslRead

first_failure : SslRead → Received
first_failure (got b) = bytes b
first_failure want = failed eagain
first_failure close_notify = eof
first_failure ssl_error = eof
first_failure (syscall e) = if is_retry e then failed eagain else eof

-- The reads of what OpenSSL still holds, each as the answer to the size that it is called with; the
-- flag is `SSL_pending(...) > 0`.
unfoldable pub drain_pending : ℕ → Bytes → List (Bool × (ℕ → SslRead)) → Bytes
drain_pending room acc [] = acc
drain_pending room acc ((pending, ssl_read) ∷ rs) =
    if ltb (length acc) room && pending
    then elim (ssl_read (room - length acc)) [ got b ↦ drain_pending room (acc ++ b) rs | _ ↦ acc ]
    else acc

after_first : ℕ → SslRead → List (Bool × (ℕ → SslRead)) → Received
unfolding first_failure
after_first room (got b) rs = bytes (drain_pending room b rs)
after_first room r rs = first_failure r

unfoldable pub tls_read : Bool → ℕ → (ℕ → SslRead) → List (Bool × (ℕ → SslRead)) → Received
unfolding after_first
tls_read ssl room ssl_read rs =
    if not ssl || room == 0 then failed eagain else after_first room (ssl_read room) rs

send_all-append :
    (ws : List Written) (done rest : Bytes)
    → ((unsent : Bytes) × ((send_all ws done rest).0 ++ unsent ≡ done ++ rest))
      × ((send_all ws done rest).1 ≡ all_sent → (send_all ws done rest).0 ≡ done ++ rest)
unfolding send_all
send_all-append [] done [] = (([], refl), λ e. sym (append-nil done))
send_all-append (w ∷ ws) done [] = (([], refl), λ e. sym (append-nil done))
send_all-append [] done (b ∷ rest) = ((b ∷ rest, refl), λ e. absurd (cc e))
send_all-append (wrote zero ∷ ws) done (b ∷ rest) = ((b ∷ rest, refl), λ e. absurd (cc e))
send_all-append (wrote (suc n) ∷ ws) done (b ∷ rest) =
    let (p, q) = send_all-append ws (done ++ take (suc n) (b ∷ rest)) (drop (suc n) (b ∷ rest)) in
    let whole =
      append_assoc done (take (suc n) (b ∷ rest)) (drop (suc n) (b ∷ rest))
      ∙ ap (λ x. done ++ x) (take-append-drop (suc n) (b ∷ rest)) in
    ((p.0, p.1 ∙ whole), λ e. q e ∙ whole)
send_all-append (interrupted ∷ ws) done (b ∷ rest) = send_all-append ws done (b ∷ rest)
send_all-append (broken ∷ ws) done (b ∷ rest) = ((b ∷ rest, refl), λ e. absurd (cc e))

-- However the kernel splits and interrupts a write, what is written is a front of the data, and
-- it is all of the data when the loop returns true.
pub send_all-prefix :
    (ws : List Written) (payload : Bytes)
    → ((unsent : Bytes) × ((send_all ws [] payload).0 ++ unsent ≡ payload))
      × ((send_all ws [] payload).1 ≡ all_sent → (send_all ws [] payload).0 ≡ payload)
send_all-prefix ws payload = send_all-append ws [] payload
