-- ===== src/Storage/Names.antt =====
-- The names in a directory of src/io.rs: `==`, `list_files` and its sorting.
use dbprimkit.Error.{ok}
use dbprimkit.Base.{
  Option, some, ◌≢◌, List, ℕ, ◌≡◌, refl, ap, ap₂, [], ◌∷◌, ◌++◌, Bool, true, false, false≢true,
  none, ◌==◌, ==_iff, ==_refl, and_true, if◌then◌else◌,
}
use dbprimkit.Storage.{
  Name, Disk, name_eq, name_le, sorted_in, sort, names_of, list_files, contents, open_append,
  write_all, remove_file, without,
}

pub name_eq_refl : (n : Name) → name_eq n n ≡ true
name_eq_refl [] = refl
name_eq_refl (x ∷ xs) = rw (==_refl x) (name_eq_refl xs)

pub name_eq→≡ : (m n : Name) → name_eq m n ≡ true → m ≡ n
name_eq→≡ [] [] e = refl
name_eq→≡ [] (_ ∷ _) e = absurd (false≢true e)
name_eq→≡ (_ ∷ _) [] e = absurd (false≢true e)
name_eq→≡ (x ∷ xs) (y ∷ ys) e =
    let both = and_true (x == y) (name_eq xs ys) e in
    ap₂ ◌∷◌ ((==_iff x y).0 (both.0)) (name_eq→≡ xs ys (both.1))

-- A property of all names.
abbrev pub AllNames : (Name → Type 0) → List Name → Type 0
AllNames P [] = Unit
AllNames P (n ∷ ns) = P n × AllNames P ns

AllNames-sorted_in :
    (P : Name → Type 0) (n : Name) (ns : List Name)
    → P n
    → AllNames P ns
    → AllNames P (sorted_in n ns)
AllNames-sorted_in P n [] h a = (h, tt)
AllNames-sorted_in P n (m ∷ ms) h (i, a) = on (name_le n m) (AllNames-sorted_in P n ms h a)
  where
    on :
        (b : Bool)
        → AllNames P (sorted_in n ms)
        → AllNames P (if b then n ∷ (m ∷ ms) else m ∷ sorted_in n ms)
    on true _ = (h, (i, a))
    on false r = (i, r)

pub AllNames-sort : (P : Name → Type 0) (ns : List Name) → AllNames P ns → AllNames P (sort ns)
AllNames-sort P [] a = tt
AllNames-sort P (n ∷ ns) (h, a) = AllNames-sorted_in P n (sort ns) h (AllNames-sort P ns a)

-- A property of the names of all files.
abbrev pub AllFiles : (Name → Type 0) → Disk → Type 0
AllFiles P [] = Unit
AllFiles P (f ∷ fs) = P f.name × AllFiles P fs

pub AllFiles-append :
    (P : Name → Type 0) (d e : Disk) → AllFiles P d → AllFiles P e → AllFiles P (d ++ e)
AllFiles-append P [] e a b = b
AllFiles-append P (f ∷ d) e (h, a) b = (h, AllFiles-append P d e a b)

-- What holds of all files that are accepted holds of all names that are listed.
pub AllNames-list_files :
    (P : Name → Type 0) (accepts : Name → Bool) (d : Disk)
    → AllFiles (λ n. accepts n ≡ true → P n) d
    → AllNames P (list_files accepts d)
unfolding list_files
AllNames-list_files P accepts d a = AllNames-sort P (names_of accepts d) (listed d a)
  where
    listed : (d : Disk) → AllFiles (λ n. accepts n ≡ true → P n) d → AllNames P (names_of accepts d)
    listed [] a = tt
    listed (f ∷ d) (h, a) = on (accepts f.name) h (listed d a)
      where
        on :
            (b : Bool)
            → (b ≡ true → P f.name)
            → AllNames P (names_of accepts d)
            → AllNames P (if b then f.name ∷ names_of accepts d else names_of accepts d)
        on true h r = (h refl, r)
        on false h r = r

-- No file has the name.
abbrev pub Absent : Name → Disk → Type 0
Absent n d = AllFiles (λ m. name_eq m n ≡ false) d

pub contents-Absent : (n : Name) (d : Disk) → Absent n d → contents n d ≡ none
contents-Absent n [] a = refl
contents-Absent n (f ∷ d) (h, a) = rw (h) (contents-Absent n d a)

write_all-Absent : (n : Name) (bs : List ℕ) (d : Disk) → Absent n d → write_all n bs d ≡ d
unfolding write_all
write_all-Absent n bs [] a = refl
write_all-Absent n bs (f ∷ d) (h, a) = rw (h) (ap (λ l. f ∷ l) (write_all-Absent n bs d a))

-- A write to a file that stands alone with its name, behind others.
pub write_all_lem :
    (d : Disk) (n : Name) (old bs : List ℕ)
    → Absent n d
    → write_all n bs (d ++ (record { name = n; bytes = old } ∷ []))
      ≡ d ++ (record { name = n; bytes = old ++ bs } ∷ [])
unfolding write_all
write_all_lem [] n old bs a = rw (name_eq_refl n)
write_all_lem (f ∷ d) n old bs (h, a) = rw (h) (ap (λ l. f ∷ l) (write_all_lem d n old bs a))

pub open_append_lem :
    (d : Disk) (n : Name)
    → Absent n d
    → open_append n d ≡ d ++ (record { name = n; bytes = [] } ∷ [])
unfolding open_append
open_append_lem d n a = rw (contents-Absent n d a, open_append)

pub AllFiles-map :
    (P Q : Name → Type 0) (d : Disk) → ((n : Name) → P n → Q n) → AllFiles P d → AllFiles Q d
AllFiles-map P Q [] h a = tt
AllFiles-map P Q (f ∷ d) h (i, a) = (h f.name i, AllFiles-map P Q d h a)

pub remove_file_at :
    (n : Name) (d : Disk) (o : Option (List ℕ))
    → contents n d ≡ o
    → o ≢ none
    → remove_file n d ≡ ok (without n d)
unfolding remove_file
remove_file_at n d none e h = absurd (h refl)
remove_file_at n d (some bs) e h = rw (e, remove_file) refl
