-- ===== src/Sockets/Reads.antt =====
-- terminal/src/net/TlsConn.cpp: what a read of a TLS session takes of what OpenSSL holds.
use mathlib.Core.List.{flatten}
use qt_s5p6818_face_tracking.Base.{
  ℕ, ◌-◌, ◌≤◌, ◌<◌, ◌≡◌, ◌≢◌, refl, sym, ap, ◌∙◌, ◌⊎◌, inl, inr, Bool, true, false, Bool-cases,
  List, [], ◌∷◌, ◌++◌, Bytes, length, length-append, append_assoc, append-nil, ltb, ltb→ge, All,
  arith,
}
use qt_s5p6818_face_tracking.Session.Dispatch.{bytes}
use qt_s5p6818_face_tracking.Sockets.{
  SslRead, got, want, close_notify, ssl_error, syscall, drain_pending, tls_read,
}

-- What `SSL_read` documents: it gives no more bytes than the size that it is called with.
abbrev pub HonoursSize : (ℕ → SslRead) → Type 0
HonoursSize ssl_read = (n : ℕ) (b : Bytes) → ssl_read n ≡ got b → length b ≤ n

-- Reads of pending data, each called with the room that those before it have left.
abbrev pub AreTaken : ℕ → Bytes → List (Bool × (ℕ → SslRead)) → List Bytes → Type 0
AreTaken room acc [] [] = Unit
AreTaken room acc [] (b ∷ bs) = ⊥
AreTaken room acc ((pending, ssl_read) ∷ rs) [] = ⊥
AreTaken room acc ((pending, ssl_read) ∷ rs) (b ∷ bs) =
    (pending ≡ true) × (ssl_read (room - length acc) ≡ got b) × AreTaken room (acc ++ b) rs bs

-- Why the loop stops: the buffer is full, nothing is pending, or the read gives no data.
abbrev pub Stops : ℕ → Bytes → List (Bool × (ℕ → SslRead)) → Type 0
Stops room acc [] = Unit
Stops room acc ((pending, ssl_read) ∷ rs) =
    (room ≤ length acc) ⊎ (pending ≡ false) ⊎ ((b : Bytes) → ssl_read (room - length acc) ≢ got b)

-- The bytes of a read: all of the reads up to the one at which the loop stops, within the room.
pub record Drains (room : ℕ) (acc out : Bytes) (rs : List (Bool × (ℕ → SslRead))) : Type 0 where
  pub front : List (Bool × (ℕ → SslRead))
  pub rest : List (Bool × (ℕ → SslRead))
  pub pieces : List Bytes
  pub parts : rs ≡ front ++ rest
  pub taken : AreTaken room acc front pieces
  pub whole : out ≡ acc ++ flatten pieces
  pub fits : length out ≤ room
  pub stops : Stops room out rest

ends_now :
    (room : ℕ) (acc : Bytes) (rs : List (Bool × (ℕ → SslRead)))
    → length acc ≤ room
    → Stops room acc rs
    → Drains room acc acc rs
unfolding flatten
ends_now room acc rs h s = record {
  front = [];
  rest = rs;
  pieces = [];
  parts = refl;
  taken = tt;
  whole = sym (append-nil acc);
  fits = h;
  stops = s;
}

SslRead-cases : (r : SslRead) → ((b : Bytes) × (r ≡ got b)) ⊎ ((b : Bytes) → r ≢ got b)
SslRead-cases (got b) = inl (b, refl)
SslRead-cases want = inr (λ b e. cc)
SslRead-cases close_notify = inr (λ b e. cc)
SslRead-cases ssl_error = inr (λ b e. cc)
SslRead-cases (syscall x) = inr (λ b e. cc)

no_data :
    (r : SslRead) (acc : Bytes) (more : Bytes → Bytes)
    → ((b : Bytes) → r ≢ got b)
    → elim r [ got b ↦ more b | _ ↦ acc ] ≡ acc
no_data (got b) acc more h = absurd (h b refl)
no_data want acc more h = refl
no_data close_notify acc more h = refl
no_data ssl_error acc more h = refl
no_data (syscall x) acc more h = refl

drain_pending-Drains :
    (room : ℕ) (acc : Bytes) (rs : List (Bool × (ℕ → SslRead)))
    → length acc ≤ room
    → All (λ (r : Bool × (ℕ → SslRead)). HonoursSize r.1) rs
    → Drains room acc (drain_pending room acc rs) rs
unfolding drain_pending flatten
drain_pending-Drains room acc [] h v = ends_now room acc [] h tt
drain_pending-Drains room acc ((false, ssl_read) ∷ rs) h v =
    elim (Bool-cases (ltb (length acc) room)) [
      | inl e ↦ rw e (ends_now room acc _ h (inr (inl refl)))
      | inr e ↦ rw e (ends_now room acc _ h (inr (inl refl)))
    ]
drain_pending-Drains room acc ((true, ssl_read) ∷ rs) h v =
    elim (Bool-cases (ltb (length acc) room)) [
      | inr e ↦ rw e (ends_now room acc _ h (inl (ltb→ge _ _ e)))
      | inl e ↦ elim (SslRead-cases (ssl_read (room - length acc))) [
        | inr f ↦
            rw
              (
                e,
                no_data (ssl_read (room - length acc)) acc (λ b. drain_pending room (acc ++ b) rs)
                    f,
              )
              (ends_now room acc _ h (inr (inr f)))
        | inl (b, f) ↦
            let inside : length (acc ++ b) ≤ room =
              omega (arith, length-append acc b, v.0 _ b f, h) in
            let d = drain_pending-Drains room (acc ++ b) rs inside v.1 in
            rw (e, f)
              (record {
                front = (true, ssl_read) ∷ d.front;
                rest = d.rest;
                pieces = b ∷ d.pieces;
                parts = ap (◌∷◌ (true, ssl_read)) d.parts;
                taken = (refl, f, d.taken);
                whole = d.whole ∙ append_assoc acc b (flatten d.pieces);
                fits = d.fits;
                stops = d.stops;
              })
      ]
    ]

-- On a session and with room for a byte, when `SSL_read` gives no more bytes than the size it is
-- called with: a read that begins with data gives the data of that and of the reads behind it, in
-- order, each called with the room left; the data fits the buffer; and the read stops only where
-- the buffer is full, nothing is pending, a read gives no data or no answer is left.
pub tls_read-Drains :
    (room : ℕ) (ssl_read : ℕ → SslRead) (first : Bytes) (rs : List (Bool × (ℕ → SslRead)))
    → 0 < room
    → ssl_read room ≡ got first
    → HonoursSize ssl_read
    → All (λ (r : Bool × (ℕ → SslRead)). HonoursSize r.1) rs
    → (out : Bytes) × (tls_read true room ssl_read rs ≡ bytes out) × Drains room first out rs
unfolding tls_read
tls_read-Drains room ssl_read first rs p e h v = (
  drain_pending room first rs,
  rw e (ground arith),
  drain_pending-Drains room first rs (h room first e) v,
)
