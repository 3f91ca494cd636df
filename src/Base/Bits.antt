-- ===== src/Base/Bits.antt =====
-- Facts about the bitwise operations on bytes, each over the whole range.
use qt_s5p6818_face_tracking.Base.{
  false, if◌then◌else◌, ℕ, zero, suc, ◌<◌, ◌≡◌, refl, ◌↔◌, Bool, true, not, ◌&&◌, ◌||◌, bit_or,
  bit_xor, arith, ltb, ltb→lt, ◌==◌, ==_iff,
}

-- A test holds of every number under a bound.
unfoldable pub holds_under : (ℕ → Bool) → ℕ → Bool
holds_under test zero = true
holds_under test (suc bound) =
    let rest = holds_under test bound in if test bound then rest else false

pub holds_under_lem :
    (test : ℕ → Bool) (bound i : ℕ) → i < bound → holds_under test bound ≡ true → test i ≡ true
unfolding holds_under
holds_under_lem test zero i below checked = absurd (omega arith)
holds_under_lem test (suc bound) i below checked = ground (arith, holds_under_lem test bound i)

all_pairs : (ℕ → ℕ → Bool) → Bool
unfolding holds_under
all_pairs p = holds_under (λ x. holds_under (p x) 256) 256

all_pairs_lem : (p : ℕ → ℕ → Bool) (x y : ℕ) → all_pairs p ≡ true → x < 256 → y < 256 → p x y ≡ true
unfolding all_pairs
all_pairs_lem p x y h hx hy =
    holds_under_lem (p x) 256 y hy (holds_under_lem (λ a. holds_under (p a) 256) 256 x hx h)

xor_table : all_pairs (λ x m. bit_xor (bit_xor x m) m == x) ≡ true
unfolding all_pairs
xor_table = refl

-- Masking a byte twice by the same byte gives it back.
pub bit_xor-bit_xor : (x m : ℕ) → x < 256 → m < 256 → bit_xor (bit_xor x m) m ≡ x
bit_xor-bit_xor x m hx hm = (==_iff _ x).0 (all_pairs_lem _ x m xor_table hx hm)

xor_bound_table : all_pairs (λ x m. ltb (bit_xor x m) 256) ≡ true
unfolding all_pairs
xor_bound_table = refl

pub bit_xor-lt : (x m : ℕ) → x < 256 → m < 256 → bit_xor x m < 256
bit_xor-lt x m hx hm = ltb→lt _ _ (all_pairs_lem _ x m xor_bound_table hx hm)

xor_zero_table :
    all_pairs (λ x y. (bit_xor x y == 0 && x == y) || not (bit_xor x y == 0 || x == y)) ≡ true
unfolding all_pairs
xor_zero_table = refl

-- The difference of two bytes has no bit exactly when they are equal.
pub bit_xor_zero_iff : (x y : ℕ) → x < 256 → y < 256 → (bit_xor x y ≡ 0) ↔ (x ≡ y)
bit_xor_zero_iff x y hx hy = ground (arith, all_pairs_lem _ x y xor_zero_table hx hy)

or_bound_table : all_pairs (λ x y. ltb (bit_or x y) 256) ≡ true
unfolding all_pairs
or_bound_table = refl

pub bit_or-lt : (x y : ℕ) → x < 256 → y < 256 → bit_or x y < 256
bit_or-lt x y hx hy = ltb→lt _ _ (all_pairs_lem _ x y or_bound_table hx hy)

or_zero_table :
    all_pairs (λ x y.
      (bit_or x y == 0 && (x == 0 && y == 0)) || not (bit_or x y == 0 || (x == 0 && y == 0)))
    ≡ true
unfolding all_pairs
or_zero_table = refl

-- An accumulated difference stays once it is there.
pub bit_or_zero_iff : (x y : ℕ) → x < 256 → y < 256 → (bit_or x y ≡ 0) ↔ ((x ≡ 0) × (y ≡ 0))
bit_or_zero_iff x y hx hy = ground (arith, all_pairs_lem _ x y or_zero_table hx hy)
