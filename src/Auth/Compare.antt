-- ===== src/Auth/Compare.antt =====
-- What the comparison of terminal/src/net/Auth.h decides.
use native.Mathlib.Nat.{zero-mod, mod-eq_of_lt}
use qt_s5p6818_face_tracking.Base.{
  ℕ, zero, suc, ◌+◌, Bool-cases, append_assoc, length-append, ◌%◌, ◌<◌, ◌≡◌, ◌≢◌, ◌↔◌, inl, inr,
  refl, sym, ◌∙◌, ap, ap₂, true, [], ◌∷◌, ◌++◌, Bytes, length, get_or, drop, AreBytes, bit_or,
  bit_xor, ◌==◌, ==_iff, arith,
}
use qt_s5p6818_face_tracking.Base.Bits.{bit_xor-lt, bit_xor_zero_iff, bit_or-lt, bit_or_zero_iff}
use qt_s5p6818_face_tracking.Auth.{got_byte, diff_rounds, constant_time_equal}

get_or-lt : (xs : Bytes) (i : ℕ) → AreBytes xs → get_or xs i 0 < 256
get_or-lt [] i h = omega arith
get_or-lt (x ∷ xs) zero h = h.0
get_or-lt (x ∷ xs) (suc i) h = get_or-lt xs i h.1

got_byte-lt : (got : Bytes) (i : ℕ) → AreBytes got → got_byte got i < 256
unfolding got_byte
got_byte-lt [] i h = omega arith
got_byte-lt (g ∷ gs) i h = get_or-lt (g ∷ gs) (i % length (g ∷ gs)) h

get_or-middle : (pre : Bytes) (g : ℕ) (gs : Bytes) → get_or (pre ++ g ∷ gs) (length pre) 0 ≡ g
get_or-middle [] g gs = refl
get_or-middle (x ∷ pre) g gs = get_or-middle pre g gs

got_byte-middle : (pre : Bytes) (g : ℕ) (gs : Bytes) → got_byte (pre ++ g ∷ gs) (length pre) ≡ g
unfolding got_byte
got_byte-middle [] g gs = rw (zero-mod (suc (length gs)))
got_byte-middle (x ∷ pre) g gs =
    rw
      (mod-eq_of_lt {n = suc (length pre)} {m = suc (length (pre ++ g ∷ gs))}
        (omega (arith, length-append pre (g ∷ gs))))
      (get_or-middle pre g gs)

-- A difference once found is never lost.
diff_rounds-ne-zero :
    (got : Bytes) (i d : ℕ) (es : Bytes)
    → AreBytes got
    → AreBytes es
    → d < 256
    → d ≢ 0
    → diff_rounds got i d es ≢ 0
unfolding diff_rounds
diff_rounds-ne-zero got i d [] bg be h ne = ne
diff_rounds-ne-zero got i d (e ∷ es) bg be h ne =
    let x = bit_xor-lt e (got_byte got i) be.0 (got_byte-lt got i bg) in
    diff_rounds-ne-zero got (i + 1) (bit_or d (bit_xor e (got_byte got i))) es bg be.1
      (bit_or-lt d _ h x) (λ z. ne ((bit_or_zero_iff d _ h x).0 z).0)

-- Against a text of the same length the rounds leave 0 exactly when each byte agrees.
diff_rounds_iff :
    (got pre gs es : Bytes) (i : ℕ)
    → got ≡ pre ++ gs
    → i ≡ length pre
    → AreBytes got
    → AreBytes es
    → AreBytes gs
    → length es ≡ length gs
    → (diff_rounds got i 0 es ≡ 0) ↔ (es ≡ gs)
unfolding diff_rounds
diff_rounds_iff got pre [] [] i p q bg be bs h = (λ _. refl, λ _. refl)
diff_rounds_iff got pre (g ∷ gs) [] i p q bg be bs h = absurd (omega arith)
diff_rounds_iff got pre [] (e ∷ es) i p q bg be bs h = absurd (omega arith)
diff_rounds_iff got pre (g ∷ gs) (e ∷ es) i p q bg be bs h =
    let here : got_byte got i ≡ g = rw (p, q) (got_byte-middle pre g gs) in
    let later : (diff_rounds got (i + 1) 0 es ≡ 0) ↔ (es ≡ gs) =
      diff_rounds_iff got (pre ++ g ∷ []) gs es (i + 1) (p ∙ sym (append_assoc pre (g ∷ []) gs))
        (omega (arith, length-append pre (g ∷ []))) bg be.1 bs.1 (omega arith) in
    let x = bit_xor-lt e g be.0 bs.0 in
    let z = bit_or_zero_iff 0 (bit_xor e g) (omega arith) x in
    rw here (elim (Bool-cases (bit_or 0 (bit_xor e g) == 0)) [
      | inl same ↦
          let s = (==_iff _ _).0 same in
          let a = (bit_xor_zero_iff e g be.0 bs.0).0 (z.0 s).1 in
          rw s (λ t. ap₂ ◌∷◌ a (later.0 t), λ t. later.1 (ground (arith, ap (drop 1) t)))
      | inr differ ↦ (
        λ t. absurd (
            diff_rounds-ne-zero got (i + 1) _ es bg be.1 (bit_or-lt 0 _ (omega arith) x)
              (ground arith) t),
        λ t. absurd (
            ground
              (arith, z.1 (refl, (bit_xor_zero_iff e g be.0 bs.0).1 (ap (λ l. get_or l 0 0) t)))),
      )
    ])

-- On bytes, the comparison that looks at every byte of the expected token accepts exactly the
-- equal string.
pub constant_time_equal_iff :
    (expected got : Bytes)
    → AreBytes expected
    → AreBytes got
    → (constant_time_equal expected got ≡ true) ↔ (expected ≡ got)
unfolding constant_time_equal
constant_time_equal_iff e g be bg = elim (Bool-cases (length e == length g)) [
  | inl same ↦ rw same (
      let d = diff_rounds_iff g [] g e 0 refl refl bg be bg ((==_iff _ _).0 same) in
      (λ t. d.0 ((==_iff _ _).0 t), λ t. (==_iff _ _).1 (d.1 t)))
  | inr differ ↦ (
    λ t. absurd (diff_rounds-ne-zero g 0 1 e bg be (omega arith) (omega arith) (ground arith)),
    λ t. absurd (ground (arith, ap length t)),
  )
]
