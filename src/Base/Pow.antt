-- ===== src/Base/Pow.antt =====
-- Powers of two, and masks of the form `2 ^ k - 1`.
use Prim.Native.Nat.{
  ℕ, zero, suc, ◌+◌, ◌-◌, ◌*◌, ◌/◌, ◌%◌, ◌^◌, ◌≤◌, ◌<◌, min, bit_and, digits, bit_and-bitwise,
}
use mathlib.Core.Path.{◌≡◌, refl, sym, ap, ◌∙◌, ◌≡⟨◌⟩◌, ◌∎}
use dbprimkit.Base.Test.{
  ltb, leb, Bool-cases, ⊎-elim, lt→ltb, ltb→lt, ltb-false, ltb_false→le, leb-ltb,
}
use mathlib.Core.Bool.{not}
use native.Mathlib.Nat.{
  pow-le-pow_right, mul-mod_left, pow-suc, div-add-mod, mod-eq_of_lt, mod-lt, add-mul-mod_self_left,
}
use native.Mathlib.Omega.{arith}

pub pow-two-suc : (k : ℕ) → 2 ^ suc k ≡ 2 * 2 ^ k
pow-two-suc k = omega (arith, pow-suc 2 k)

pub pow-two-pos : (k : ℕ) → 0 < 2 ^ k
pow-two-pos zero = omega arith
pow-two-pos (suc k) = omega (arith, pow-two-suc k, pow-two-pos k)

-- The remainder by `2 * p`, from that of the half and the lowest digit.
mod-double : (p n : ℕ) → 0 < p → n % (2 * p) ≡ n / 2 % p * 2 + n % 2
mod-double p n h =
    n % (2 * p)
    ≡⟨ ap (λ t. t % (2 * p)) split ⟩ (n / 2 % p * 2 + n % 2 + 2 * p * (n / 2 / p)) % (2 * p)
    ≡⟨ add-mul-mod_self_left (n / 2 % p * 2 + n % 2) (2 * p) (n / 2 / p) ⟩
      (n / 2 % p * 2 + n % 2) % (2 * p)
    ≡⟨ mod-eq_of_lt small ⟩ n / 2 % p * 2 + n % 2 ∎
  where
    split : n ≡ n / 2 % p * 2 + n % 2 + 2 * p * (n / 2 / p)
    split = omega (arith, div-add-mod (n / 2) p)

    small : n / 2 % p * 2 + n % 2 < 2 * p
    small = omega (arith, mod-lt (n / 2) h)

-- What `bit_and` stands for, with the fuel of its recursion in sight.
abbrev conj : ℕ → ℕ → ℕ → ℕ
conj fuel a b = digits (λ d. zero) min fuel a b

conj-zero : (fuel b : ℕ) → conj fuel 0 b ≡ 0
conj-zero zero b = refl
conj-zero (suc fuel) b = refl

-- Conjunction with a mask of `k` ones is the remainder, for any fuel that covers the number.
conj_mask : (k fuel a : ℕ) → a ≤ fuel → conj fuel a (2 ^ k - 1) ≡ a % 2 ^ k
conj_mask k fuel zero h = omega (arith, conj-zero fuel (2 ^ k - 1), pow-two-pos k)
conj_mask k zero (suc a) h = absurd (omega arith)
conj_mask zero (suc fuel) (suc a) h = omega (arith, conj_mask zero fuel (suc a / 2) (omega arith))
conj_mask (suc k) (suc fuel) (suc a) h =
    rw
      (
        half,
        low,
        pow-two-suc k,
        mod-double (2 ^ k) (suc a) (pow-two-pos k),
        conj_mask k fuel (suc a / 2) (omega arith),
      )
      (omega arith)
  where
    half : (2 ^ suc k - 1) / 2 ≡ 2 ^ k - 1
    half = omega (arith, pow-two-suc k, pow-two-pos k)

    low : (2 ^ suc k - 1) % 2 ≡ 1
    low = omega (arith, pow-two-suc k, pow-two-pos k)

-- `a & (2^k - 1)` is `a % 2^k`.
pub bit_and-mask : (k a : ℕ) → bit_and a (2 ^ k - 1) ≡ a % 2 ^ k
bit_and-mask k a = bit_and-bitwise a (2 ^ k - 1) ∙ conj_mask k a a (omega arith)

pub pow-lt : (a b : ℕ) → a < b → 2 ^ a < 2 ^ b
pow-lt a b h = omega (
  arith,
  pow-two-suc a,
  pow-two-pos a,
  pow-le-pow_right {n = 2} (omega arith) {i = suc a} {j = b} h,
)

pub pow-le : (a b : ℕ) → a ≤ b → 2 ^ a ≤ 2 ^ b
pow-le a b h = pow-le-pow_right {n = 2} (omega arith) h

-- Powers of two compare as their exponents do.
pub ltb-pow : (a b : ℕ) → ltb (2 ^ a) (2 ^ b) ≡ ltb a b
ltb-pow a b =
    ⊎-elim (Bool-cases (ltb a b)) (λ e. rw (e) (lt→ltb _ _ (pow-lt a b (ltb→lt a b e))))
      (λ e. rw (e) (ltb-false _ _ (pow-le b a (ltb_false→le a b e))))

pub leb-pow : (a b : ℕ) → leb (2 ^ a) (2 ^ b) ≡ leb a b
leb-pow a b = leb-ltb (2 ^ a) (2 ^ b) ∙ ap not (ltb-pow b a) ∙ sym (leb-ltb a b)

pow-add : (d a : ℕ) → 2 ^ (d + a) ≡ 2 ^ d * 2 ^ a
pow-add zero a = ap (λ i. 2 ^ i) {y = a} (omega arith) ∙ omega arith
pow-add (suc d) a =
    ap (λ i. 2 ^ i) {y = suc (d + a)} (omega arith)
    ∙ grind (arith, pow-two-suc (d + a), pow-two-suc d, pow-add d a)

pub pow-mod : (a b : ℕ) → a ≤ b → 2 ^ b % 2 ^ a ≡ 0
pow-mod a b h =
    ap (λ i. 2 ^ i % 2 ^ a) {y = b - a + a} (omega arith)
    ∙ ap (λ n. n % 2 ^ a) (pow-add (b - a) a)
    ∙ mul-mod_left (2 ^ (b - a)) (2 ^ a)
