-- ===== src/Websocket/Masks.antt =====
-- The mask of the frames in terminal/src/net/WebSocketProto.h, against RFC 6455.
use qt_s5p6818_face_tracking.Base.{
  ℕ, zero, suc, ◌+◌, ◌%◌, ◌<◌, ◌≤◌, ◌≡◌, refl, ap, ap₂, [], ◌∷◌, ◌++◌, Bytes, bit_xor, length,
  get_or, AreBytes, arith,
}
use qt_s5p6818_face_tracking.Base.Bits.{bit_xor-bit_xor}
use qt_s5p6818_face_tracking.Websocket.{unmask}

pub length-unmask : (mask : Bytes) (k : ℕ) (bs : Bytes) → length (unmask mask k bs) ≡ length bs
unfolding unmask
length-unmask mask k [] = refl
length-unmask mask k (b ∷ bs) = ap suc (length-unmask mask (k + 1) bs)

get_or-lt : (xs : Bytes) (i : ℕ) → AreBytes xs → get_or xs i 0 < 256
get_or-lt [] i h = omega arith
get_or-lt (x ∷ xs) zero h = h.0
get_or-lt (x ∷ xs) (suc i) h = get_or-lt xs i h.1

-- Masking twice by one mask gives the payload back.
pub unmask-unmask :
    (mask : Bytes) (k : ℕ) (bs : Bytes)
    → AreBytes mask
    → AreBytes bs
    → unmask mask k (unmask mask k bs) ≡ bs
unfolding unmask
unmask-unmask mask k [] h b = refl
unmask-unmask mask k (x ∷ bs) h b =
    ap₂ ◌∷◌ (bit_xor-bit_xor x _ b.0 (get_or-lt mask (k % 4) h))
      (unmask-unmask mask (k + 1) bs h b.1)

pub get_or-append : (p q : Bytes) (i : ℕ) → i < length p → get_or (p ++ q) i 0 ≡ get_or p i 0
get_or-append [] q i h = absurd (omega arith)
get_or-append (x ∷ p) q zero h = refl
get_or-append (x ∷ p) q (suc i) h = get_or-append p q i (omega arith)

pub unmask-append :
    (mask q : Bytes) (k : ℕ) (bs : Bytes)
    → 4 ≤ length mask
    → unmask (mask ++ q) k bs ≡ unmask mask k bs
unfolding unmask
unmask-append mask q k [] h = refl
unmask-append mask q k (b ∷ bs) h =
    ap₂ (λ x y. bit_xor b x ∷ y) (get_or-append mask q (k % 4) (omega arith))
      (unmask-append mask q (k + 1) bs h)

-- The payload under a mask by RFC 6455: each byte meets the next byte of the mask, which begins again
-- at its end.
abbrev pub masked_by : Bytes → Bytes → Bytes
masked_by mask [] = []
masked_by [] (b ∷ bs) = b ∷ bs
masked_by (m ∷ ms) (b ∷ bs) = bit_xor b m ∷ masked_by (ms ++ m ∷ []) bs

-- The decoder's count through the mask is the turning mask, from each of its four places on.
unmask-turned :
    (m0 m1 m2 m3 k : ℕ) (bs : Bytes)
    → let mask = m0 ∷ m1 ∷ m2 ∷ m3 ∷ [] in
      (k % 4 ≡ 0 → unmask mask k bs ≡ masked_by mask bs)
      × (k % 4 ≡ 1 → unmask mask k bs ≡ masked_by (m1 ∷ m2 ∷ m3 ∷ m0 ∷ []) bs)
      × (k % 4 ≡ 2 → unmask mask k bs ≡ masked_by (m2 ∷ m3 ∷ m0 ∷ m1 ∷ []) bs)
      × (k % 4 ≡ 3 → unmask mask k bs ≡ masked_by (m3 ∷ m0 ∷ m1 ∷ m2 ∷ []) bs)
unfolding unmask
unmask-turned m0 m1 m2 m3 k [] = (λ e. refl, λ e. refl, λ e. refl, λ e. refl)
unmask-turned m0 m1 m2 m3 k (b ∷ bs) =
    let (t0, t1, t2, t3) = unmask-turned m0 m1 m2 m3 (k + 1) bs in
    (
      λ e. rw e (ap (◌∷◌ (bit_xor b m0)) (t1 (omega (arith, e)))),
      λ e. rw e (ap (◌∷◌ (bit_xor b m1)) (t2 (omega (arith, e)))),
      λ e. rw e (ap (◌∷◌ (bit_xor b m2)) (t3 (omega (arith, e)))),
      λ e. rw e (ap (◌∷◌ (bit_xor b m3)) (t0 (omega (arith, e)))),
    )

pub unmask-masked_by : (mask bs : Bytes) → length mask ≡ 4 → unmask mask 0 bs ≡ masked_by mask bs
unmask-masked_by (m0 ∷ m1 ∷ m2 ∷ m3 ∷ []) bs h = (unmask-turned m0 m1 m2 m3 0 bs).0 refl
unmask-masked_by [] bs h = absurd (omega arith)
unmask-masked_by (m0 ∷ []) bs h = absurd (omega arith)
unmask-masked_by (m0 ∷ m1 ∷ []) bs h = absurd (omega arith)
unmask-masked_by (m0 ∷ m1 ∷ m2 ∷ []) bs h = absurd (omega arith)
unmask-masked_by (m0 ∷ m1 ∷ m2 ∷ m3 ∷ m4 ∷ ms) bs h = absurd (omega arith)
