-- ===== src/Wal/RotNameFacts.antt =====
-- `parse_rot_name` of src/wal/sync.rs undoes `gen_rot_name`.
use dbprimkit.Base.{
  ℕ, zero, suc, ◌+◌, ◌-◌, ◌*◌, ◌/◌, ◌%◌, ◌^◌, ◌≤◌, ◌<◌, ◌≡◌, refl, sym, ap, ◌∙◌, List, [], ◌∷◌,
  ◌++◌, Bool, true, false, none, some, some-injective, none-ne-some, length, drop, replicate,
  get_or, leb, ◌&&◌, if◌then◌else◌, arith, length-append, length-replicate, lt→ltb, ltb-false,
  leb-true, leb→le, ==_gt, ==_refl, dec_lt, Bool-cases, ⊎-elim, and_true, take-append_of_length,
  drop-append_of_length, drop-length-append, drop-add,
}
use native.Mathlib.Nat.{pow-suc, mod-eq_of_lt}
use dbprimkit.Storage.{Name}
use dbprimkit.Wal.RotNames.{
  digits, padded, value, parse_uint, starts_with, gen_rot_name, parse_rot_name,
}

value-snoc :
    (a v d : ℕ) (xs : List ℕ)
    → d < 10
    → value a xs ≡ some v
    → value a (xs ++ ((b'0' + d) ∷ [])) ≡ some (v * 10 + d)
value-snoc a v d [] h e =
    rw (leb-true b'0' (b'0' + d) (omega arith), leb-true (b'0' + d) b'9' (omega arith))
      (ap some (omega (arith, some-injective _ _ e)))
value-snoc a v d (x ∷ xs) h e =
    on (leb b'0' x && leb x b'9') (value-snoc (a * 10 + (x - b'0')) v d xs h) e
  where
    on :
        (b : Bool)
        → (value (a * 10 + (x - b'0')) xs ≡ some v
            → value (a * 10 + (x - b'0')) (xs ++ ((b'0' + d) ∷ [])) ≡ some (v * 10 + d))
        → (if b then value (a * 10 + (x - b'0')) xs else none) ≡ some v
        → (if b then value (a * 10 + (x - b'0')) (xs ++ ((b'0' + d) ∷ [])) else none)
          ≡ some (v * 10 + d)
    on true again e = again e
    on false again e = absurd (none-ne-some _ e)

value-zeros : (j : ℕ) (ds : List ℕ) → value 0 (replicate j b'0' ++ ds) ≡ value 0 ds
value-zeros zero ds = refl
value-zeros (suc j) ds = value-zeros j ds

-- One digit, or the last digit behind the others.
digits-one : (fuel n : ℕ) → n < 10 → digits (suc fuel) n ≡ (b'0' + n) ∷ []
digits-one fuel n h = rw (lt→ltb n 10 h)

digits-more :
    (fuel n : ℕ) → 10 ≤ n → digits (suc fuel) n ≡ digits fuel (n / 10) ++ ((b'0' + n % 10) ∷ [])
digits-more fuel n h = rw (ltb-false n 10 h)

value-digits : (fuel n : ℕ) → 0 < fuel → n < 10 ^ fuel → value 0 (digits fuel n) ≡ some n
value-digits zero n h l = absurd (omega arith)
value-digits (suc fuel) n h l = elim (dec_lt n 10) [
  | yes k ↦ ap (value 0) (digits-one fuel n k) ∙ value-snoc 0 0 n [] k refl ∙ ap some (omega arith)
  | no k ↦
      ap (value 0) (digits-more fuel n (omega arith))
      ∙ value-snoc 0 (n / 10) (n % 10) (digits fuel (n / 10)) (omega arith)
          (value-digits fuel (n / 10) (more_fuel fuel l k) (omega (arith, pow-suc 10 fuel)))
      ∙ ap some (omega arith)
]
  where
    more_fuel : (fuel : ℕ) → n < 10 ^ suc fuel → ¬ (n < 10) → 0 < fuel
    more_fuel zero l k = absurd (k l)
    more_fuel (suc fuel) l k = omega arith

length-digits : (fuel w n : ℕ) → 0 < w → n < 10 ^ w → length (digits fuel n) ≤ w
length-digits zero w n h l = omega arith
length-digits (suc fuel) zero n h l = absurd (omega arith)
length-digits (suc fuel) (suc w) n h l = elim (dec_lt n 10) [
  | yes k ↦ rw (digits-one fuel n k) (omega arith)
  | no k ↦ rw (digits-more fuel n (omega arith)) (
      omega (
        arith,
        length-append (digits fuel (n / 10)) ((b'0' + n % 10) ∷ []),
        length-digits fuel w (n / 10) (more_width w l k) (omega (arith, pow-suc 10 w)),
      ))
]
  where
    more_width : (w : ℕ) → n < 10 ^ suc w → ¬ (n < 10) → 0 < w
    more_width zero l k = absurd (k l)
    more_width (suc w) l k = omega arith

value-padded : (w n : ℕ) → n < 10 ^ 20 → value 0 (padded w n) ≡ some n
unfolding padded
value-padded w n h =
    value-zeros (w - length (digits 20 n)) (digits 20 n) ∙ value-digits 20 n (omega arith) h

length-padded : (w n : ℕ) → 0 < w → n < 10 ^ w → length (padded w n) ≡ w
unfolding padded
length-padded w n h l = omega (
  arith,
  length-append (replicate (w - length (digits 20 n)) b'0') (digits 20 n),
  length-replicate {A = ℕ} (w - length (digits 20 n)) b'0',
  length-digits 20 w n h l,
)

-- What has a value as digits begins without a sign.
parse_uint-value :
    (limit n : ℕ) (bs : List ℕ)
    → 0 < length bs
    → n < limit
    → value 0 bs ≡ some n
    → parse_uint limit bs ≡ some n
unfolding parse_uint
parse_uint-value limit n [] l h e = absurd (omega arith)
parse_uint-value limit n (b ∷ bs) l h e =
    ⊎-elim (Bool-cases (leb b'0' b && leb b b'9'))
      (λ c.
        rw (==_gt b b'+' (omega (arith, leb→le b'0' b ((and_true _ _ c).0))), e, lt→ltb n limit h))
      (λ c.
        absurd (
          none-ne-some n
            (ap (λ t. if t then value (0 * 10 + (b - b'0')) bs else none) (sym c) ∙ e)))

pub parse_uint-padded :
    (limit w n : ℕ)
    → 0 < w
    → n < limit
    → n < 10 ^ w
    → n < 10 ^ 20
    → parse_uint limit (padded w n) ≡ some n
parse_uint-padded limit w n h l k m =
    parse_uint-value limit n (padded w n) (omega (arith, length-padded w n h k)) l
      (value-padded w n m)

pub starts_with-append : (xs ys : Name) → starts_with xs (xs ++ ys) ≡ true
starts_with-append [] ys = refl
starts_with-append (x ∷ xs) ys = rw (==_refl x) (starts_with-append xs ys)

pub starts_with-cancel : (n a b : Name) → starts_with (n ++ a) (n ++ b) ≡ starts_with a b
starts_with-cancel [] a b = refl
starts_with-cancel (x ∷ n) a b = rw (==_refl x) (starts_with-cancel n a b)

get_or-append_length : (xs ys : List ℕ) (y d : ℕ) → get_or (xs ++ (y ∷ ys)) (length xs) d ≡ y
get_or-append_length [] ys y d = refl
get_or-append_length (x ∷ xs) ys y d = get_or-append_length xs ys y d

parse_rot_name-append :
    (prefix a b : Name) (rot_no lsn : ℕ)
    → length a ≡ 10
    → length b ≡ 20
    → parse_uint (2 ^ 32) a ≡ some rot_no
    → parse_uint (2 ^ 64) b ≡ some lsn
    → parse_rot_name prefix (prefix ++ (a ++ (b'.' ∷ b))) ≡ some (rot_no, lsn)
unfolding parse_rot_name
parse_rot_name-append prefix a b rot_no lsn h l e f = rw (
  starts_with-append prefix (a ++ (b'.' ∷ b)),
  drop-length-append prefix (a ++ (b'.' ∷ b)),
  total,
  dot,
  take-append_of_length 10 a (b'.' ∷ b) h,
  e,
  drop-length-append prefix (a ++ (b'.' ∷ b)),
  behind,
  f,
)
  where
    total : length (a ++ (b'.' ∷ b)) ≡ 31
    total = omega (arith, length-append a (b'.' ∷ b))

    dot : get_or (a ++ (b'.' ∷ b)) 10 0 ≡ b'.'
    dot = rw (← h) (get_or-append_length a b b'.' 0)

    behind : drop 11 (a ++ (b'.' ∷ b)) ≡ b
    behind = drop-add 10 1 (a ++ (b'.' ∷ b)) ∙ ap (drop 1) (drop-append_of_length 10 a (b'.' ∷ b) h)

-- The name of a data rotation that `gen_rot_name` makes is parsed to the number of the rotation and to
-- the LSN behind the last flushed one, if the number and that LSN fit 4 and 8 bytes.
pub parse_rot_name-gen_rot_name :
    (prefix : Name) (flush_lsn rot_no : ℕ)
    → rot_no < 2 ^ 32
    → flush_lsn + 1 < 2 ^ 64
    → parse_rot_name prefix (gen_rot_name prefix flush_lsn rot_no) ≡ some (rot_no, flush_lsn + 1)
unfolding gen_rot_name
parse_rot_name-gen_rot_name prefix flush_lsn rot_no h l =
    let ten : rot_no < 10 ^ 10 = omega arith in
    let twenty : flush_lsn + 1 < 10 ^ 20 = omega arith in
    rw (mod-eq_of_lt l) (
      parse_rot_name-append prefix (padded 10 rot_no) (padded 20 (flush_lsn + 1)) rot_no
        (flush_lsn + 1) (length-padded 10 rot_no (omega arith) ten)
        (length-padded 20 (flush_lsn + 1) (omega arith) twenty)
        (parse_uint-padded (2 ^ 32) 10 rot_no (omega arith) h ten (omega arith))
        (parse_uint-padded (2 ^ 64) 20 (flush_lsn + 1) (omega arith) l twenty twenty))
