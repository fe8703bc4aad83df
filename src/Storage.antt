-- ===== src/Storage.antt =====
-- src/io.rs: the files of one directory, as `StdFileIoBackend` reads and changes them. Reads and writes
-- of an open file succeed.
pub mod Names
use dbprimkit.Base.{
  ℕ, List, [], ◌∷◌, ◌++◌, Bool, true, false, Option, none, some, length, ltb, ◌==◌, ◌&&◌, ◌||◌,
  if◌then◌else◌,
}
use dbprimkit.Error.{Outcome, ok, err, io_error, not_found}

-- The bytes of a name.
abbrev pub Name : Type 0
Name = List ℕ

pub record File : Type 0 where
  pub name : Name
  pub bytes : List ℕ

-- The files in the order of their creation.
abbrev pub Disk : Type 0
Disk = List File

abbrev pub name_eq : Name → Name → Bool
name_eq [] [] = true
name_eq (x ∷ xs) (y ∷ ys) = (x == y) && name_eq xs ys
name_eq _ _ = false

-- `<=` of strings.
abbrev pub name_le : Name → Name → Bool
name_le [] ys = true
name_le (x ∷ xs) [] = false
name_le (x ∷ xs) (y ∷ ys) = ltb x y || ((x == y) && name_le xs ys)

abbrev pub sorted_in : Name → List Name → List Name
sorted_in n [] = n ∷ []
sorted_in n (m ∷ ms) = if name_le n m then n ∷ (m ∷ ms) else m ∷ sorted_in n ms

-- `sort_unstable`.
abbrev pub sort : List Name → List Name
sort [] = []
sort (n ∷ ns) = sorted_in n (sort ns)

abbrev pub names_of : (Name → Bool) → Disk → List Name
names_of accepts [] = []
names_of accepts (f ∷ disk) =
    let rest = names_of accepts disk in if accepts f.name then f.name ∷ rest else rest

unfoldable pub list_files : (Name → Bool) → Disk → List Name
list_files accepts disk = sort (names_of accepts disk)

-- What a file holds.
abbrev pub contents : Name → Disk → Option (List ℕ)
contents n [] = none
contents n (f ∷ disk) = if name_eq f.name n then some f.bytes else contents n disk

-- `open_writer` with the options `append` and `create`; `write_all` to such a writer.
unfoldable pub open_append : Name → Disk → Disk
open_append n disk = elim (contents n disk) [
  | none ↦ disk ++ (record { name = n; bytes = [] } ∷ [])
  | some _ ↦ disk
]

-- A file that has been removed takes the bytes with it.
unfoldable pub write_all : Name → List ℕ → Disk → Disk
write_all n bs [] = []
write_all n bs (f ∷ disk) =
    (if name_eq f.name n then record f { bytes = f.bytes ++ bs } else f) ∷ write_all n bs disk

abbrev pub without : Name → Disk → Disk
without n [] = []
without n (f ∷ disk) = let rest = without n disk in if name_eq f.name n then rest else f ∷ rest

unfoldable pub remove_file : Name → Disk → Outcome Disk
remove_file n disk = elim (contents n disk) [
  | none ↦ err (io_error not_found)
  | some _ ↦ ok (without n disk)
]

unfoldable pub file_size : Name → Disk → Outcome ℕ
file_size n disk = elim (contents n disk) [
  | none ↦ err (io_error not_found)
  | some bs ↦ ok (length bs)
]
