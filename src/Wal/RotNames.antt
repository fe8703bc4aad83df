-- ===== src/Wal/RotNames.antt =====
-- src/wal/sync.rs: `WalDataRotNameProviderImpl`, the names of the data rotations; src/appender/sync.rs:
-- the plain numbered names of `DefaultRotNameProvider`.
use dbprimkit.Base.{
  ℕ, zero, suc, ◌+◌, ◌-◌, ◌*◌, ◌/◌, ◌%◌, ◌^◌, List, [], ◌∷◌, ◌++◌, Bool, true, false, Option, none,
  some, not, length, take, drop, replicate, get_or, ltb, leb, ◌==◌, ◌&&◌, ◌||◌, if◌then◌else◌,
}
use dbprimkit.Storage.{Name}
use dbprimkit.Appender.{RotNameProvider}

-- The decimal digits of a number, on fuel for so many digits.
abbrev pub digits : ℕ → ℕ → List ℕ
digits zero n = []
digits (suc fuel) n =
    let rest = digits fuel (n / 10) in
    if ltb n 10 then (b'0' + n) ∷ [] else rest ++ ((b'0' + n % 10) ∷ [])

-- `{:0w}`: at least `w` digits. A `u64` has at most 20.
unfoldable pub padded : ℕ → ℕ → List ℕ
padded w n = let ds = digits 20 n in replicate (w - length ds) b'0' ++ ds

-- The value of digits behind those of `n`.
abbrev pub value : ℕ → List ℕ → Option ℕ
value n [] = some n
value n (b ∷ bs) = if leb b'0' b && leb b b'9' then value (n * 10 + (b - b'0')) bs else none

abbrev below : ℕ → Option ℕ → Option ℕ
below limit none = none
below limit (some n) = if ltb n limit then some n else none

abbrev digits_value : List ℕ → Option ℕ
digits_value [] = none
digits_value (b ∷ bs) = value 0 (b ∷ bs)

-- `str::parse` of an unsigned integer: digits, perhaps behind a plus sign, that fit.
unfoldable pub parse_uint : (limit : ℕ) → List ℕ → Option ℕ
parse_uint limit [] = none
parse_uint limit (b ∷ bs) = below limit (if b == b'+' then digits_value bs else value 0 (b ∷ bs))

abbrev pub starts_with : Name → Name → Bool
starts_with [] name = true
starts_with (x ∷ xs) [] = false
starts_with (x ∷ xs) (y ∷ ys) = (x == y) && starts_with xs ys

-- `gen_rot_name`, with what it loads from `flush_lsn`.
unfoldable pub gen_rot_name : (prefix : Name) (flush_lsn rot_no : ℕ) → Name
unfolding padded
gen_rot_name prefix flush_lsn rot_no =
    let next_lsn = (flush_lsn + 1) % 2 ^ 64 in
    prefix ++ (padded 10 rot_no ++ (b'.' ∷ padded 20 next_lsn))

-- `parse_rot_name`.
unfoldable pub parse_rot_name : (prefix name : Name) → Option (ℕ × ℕ)
unfolding parse_uint
parse_rot_name prefix name =
    if not (starts_with prefix name)
    then none
    else (let tail = drop (length prefix) name in
        if not (length tail == 31) || not (get_or tail 10 0 == b'.')
        then none
        else elim (parse_uint (2 ^ 32) (take 10 tail)) [
          | none ↦ none
          | some rot_no ↦ elim (parse_uint (2 ^ 64) (drop 11 tail)) [
            | none ↦ none
            | some next_lsn ↦ some (rot_no, next_lsn)
          ]
        ])

abbrev pub is_some {ℓ} : {A : Type ℓ} → Option A → Bool
is_some none = false
is_some (some _) = true

abbrev pub number {ℓ} : {A B : Type ℓ} → Option (A × B) → Option A
number none = none
number (some (rot_no, _)) = some rot_no

-- `WalDataRotNameProvider`.
unfoldable pub data_rnp : (prefix : Name) (flush_lsn : ℕ) → RotNameProvider
unfolding gen_rot_name parse_rot_name
data_rnp prefix flush_lsn = record {
  gen_rot_name = gen_rot_name prefix flush_lsn;
  accepts = λ name. is_some (parse_rot_name prefix name);
  number_of = λ name. number (parse_rot_name prefix name);
}

-- `DefaultRotNameProvider`.
unfoldable pub default_rnp : (prefix : Name) → RotNameProvider
unfolding padded parse_uint
default_rnp prefix = record {
  gen_rot_name = λ rot_no. prefix ++ padded 10 rot_no;
  accepts = starts_with prefix;
  number_of = λ name. parse_uint (2 ^ 32) (drop (length prefix) name);
}
