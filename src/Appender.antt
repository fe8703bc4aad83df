-- ===== src/Appender.antt =====
-- src/appender/sync.rs: an appender that goes on to a new file, a rotation, when one is full.
pub mod Bounded
use dbprimkit.Base.{
  ℕ, ◌+◌, ◌^◌, ◌%◌, List, [], ◌∷◌, Bool, true, false, not, Option, none, some, length, leb, ◌==◌,
  ◌&&◌, if◌then◌else◌,
}
use dbprimkit.Error.{Outcome, ok, err, panic, misc_error, ◌>>=◌}
use dbprimkit.Storage.{Name, Disk, list_files, open_append, write_all, remove_file, file_size}

-- `RotNameProvider`: the names of the rotations by their numbers, and which files are rotations.
pub record RotNameProvider : Type 0 where
  pub gen_rot_name : ℕ → Name
  pub accepts : Name → Bool
  pub number_of : Name → Option ℕ

abbrev pub last_of : List Name → Option Name
last_of [] = none
last_of (n ∷ []) = some n
last_of (_ ∷ (m ∷ ns)) = last_of (m ∷ ns)

pub record DefaultRotator : Type 0 where
  pub latest_rot_name : Option Name
  pub cur_rot_no : ℕ
  pub max_rot : ℕ
  pub rot_size_max : ℕ

-- `writer` is the file that is written to.
pub record RotAppender : Type 0 where
  pub esize : ℕ
  pub rot : DefaultRotator
  pub writer : Name

unfoldable pub needs_new_rot : DefaultRotator → ℕ → Bool
needs_new_rot rot rot_size = leb rot.rot_size_max rot_size

-- `needs_new_rot` of an appender.
unfoldable pub app_needs_new_rot : RotAppender → Bool
unfolding needs_new_rot
app_needs_new_rot app = needs_new_rot app.rot app.esize

module _ (rnp : RotNameProvider) where
  open rnp use {gen_rot_name, accepts, number_of}

  unfoldable pub list_rot_names : Disk → List Name
  list_rot_names disk = list_files accepts disk

  unfoldable pub restore_latest_rot_info : Disk → Outcome (Option (ℕ × Name))
  unfolding list_rot_names
  restore_latest_rot_info disk = elim (last_of (list_rot_names disk)) [
    | none ↦ ok none
    | some name ↦ elim (number_of name) [
      | none ↦ err (misc_error "Failed to restore rotation number")
      | some rot_no ↦ ok (some (rot_no, name))
    ]
  ]

  -- `with_rot_name_resolver`, with its `restore_from_storage`.
  unfoldable pub with_rot_name_resolver : (max_rot rot_size_max : ℕ) → Disk → Outcome DefaultRotator
  unfolding restore_latest_rot_info
  with_rot_name_resolver max_rot rot_size_max disk = do
    info ← restore_latest_rot_info disk
    elim info [
      | none ↦ ok (record {
        latest_rot_name = none;
        cur_rot_no = 0;
        max_rot = max_rot;
        rot_size_max = rot_size_max;
      })
      | some (rot_no, rot_name) ↦ ok (record {
        latest_rot_name = some rot_name;
        cur_rot_no = rot_no;
        max_rot = max_rot;
        rot_size_max = rot_size_max;
      })
    ]

  -- The latest rotation, with its size, or a first one.
  unfoldable pub init_appending : DefaultRotator → Disk → Outcome (Name × ℕ × DefaultRotator × Disk)
  init_appending rot disk = elim rot.latest_rot_name [
    | some name ↦ do
      esize ← file_size name disk
      ok (name, esize, record rot { latest_rot_name = none }, open_append name disk)
    | none ↦ let name = gen_rot_name rot.cur_rot_no in ok (name, 0, rot, open_append name disk)
  ]

  -- The oldest rotation goes if there are as many as may be.
  unfoldable pub drop_oldest : DefaultRotator → Disk → Outcome Disk
  unfolding list_rot_names
  drop_oldest rot disk =
      let rot_names = list_rot_names disk in
      if not (rot.max_rot == 0) && leb rot.max_rot (length rot_names)
      then (elim rot_names [ [] ↦ panic | name ∷ _ ↦ remove_file name disk ])
      else ok disk

  unfoldable pub new_rot : DefaultRotator → Disk → Outcome (Name × DefaultRotator × Disk)
  unfolding drop_oldest
  new_rot rot disk = do
    disk ← drop_oldest rot disk
    let next_no = (rot.cur_rot_no + 1) % 2 ^ 32
    let rot_name = gen_rot_name next_no
    ok (rot_name, record rot { cur_rot_no = next_no }, open_append rot_name disk)

  -- `RotAppender::new`.
  unfoldable pub open_appender : DefaultRotator → Disk → Outcome (RotAppender × Disk)
  unfolding init_appending
  open_appender rot disk = do
    (name, esize, rot, disk) ← init_appending rot disk
    ok (record { esize = esize; rot = rot; writer = name }, disk)

  -- The result also says whether there is a new rotation.
  unfoldable pub append :
      List ℕ → (rotatable : Bool) → RotAppender → Disk → Outcome (Bool × RotAppender × Disk)
  unfolding new_rot needs_new_rot
  append payload rotatable app disk =
      let disk = write_all app.writer payload disk in
      let esize = app.esize + length payload in
      if rotatable && needs_new_rot app.rot esize
      then (do
        (writer, rot, disk) ← new_rot app.rot disk
        ok (true, record { esize = 0; rot = rot; writer = writer }, disk))
      else ok (false, record app { esize = esize }, disk)
