-- ===== src/Appender/Bounded.antt =====
-- How many rotations `RotAppender::append` of src/appender/sync.rs leaves.
use dbprimkit.Base.{
  ℕ, suc, ◌+◌, ◌%◌, ◌^◌, ◌≤◌, ◌<◌, ◌≡◌, ◌≢◌, refl, sym, ap, ◌∙◌, List, [], ◌∷◌, ◌++◌, Bool, true,
  false, ◌&&◌, Option, none, some, none-ne-some, length, leb, if◌then◌else◌, Bool-cases, ⊎-elim,
  leb→le, ==_gt, arith,
}
use dbprimkit.Error.{ok, panic}
use dbprimkit.Storage.{
  Name, File, Disk, name_eq, name_le, sorted_in, sort, names_of, list_files, contents, without,
  remove_file, open_append, write_all,
}
use dbprimkit.Storage.Names.{
  AllNames, AllFiles, AllFiles-map, AllNames-list_files, name_eq→≡, name_eq_refl, remove_file_at,
}
use dbprimkit.Appender.{
  RotNameProvider, DefaultRotator, RotAppender, needs_new_rot, list_rot_names, drop_oldest, new_rot,
  append,
}

length-sorted_in : (n : Name) (ns : List Name) → length (sorted_in n ns) ≡ suc (length ns)
length-sorted_in n [] = refl
length-sorted_in n (m ∷ ms) =
    ⊎-elim (Bool-cases (name_le n m)) (λ e. rw e refl) (λ e. rw e (ap suc (length-sorted_in n ms)))

length-sort : (ns : List Name) → length (sort ns) ≡ length ns
length-sort [] = refl
length-sort (n ∷ ns) = length-sorted_in n (sort ns) ∙ ap suc (length-sort ns)

module _ (accepts : Name → Bool) where
  -- How many files of a directory are accepted.
  abbrev count : Disk → ℕ
  count d = length (names_of accepts d)

  length-list_files : (d : Disk) → length (list_files accepts d) ≡ count d
  unfolding list_files
  length-list_files d = length-sort (names_of accepts d)

  names_of-write_all :
      (n : Name) (bs : List ℕ) (d : Disk) → names_of accepts (write_all n bs d) ≡ names_of accepts d
  unfolding write_all
  names_of-write_all n bs [] = refl
  names_of-write_all n bs (f ∷ d) =
      ⊎-elim (Bool-cases (name_eq f.name n)) (λ e. rw (e, names_of-write_all n bs d) refl)
        (λ e. rw (e, names_of-write_all n bs d) refl)

  count-append : (d : Disk) (f : File) → count (d ++ (f ∷ [])) ≤ suc (count d)
  count-append [] f =
      ⊎-elim (Bool-cases (accepts f.name)) (λ e. rw e (omega arith)) (λ e. rw e (omega arith))
  count-append (g ∷ d) f =
      ⊎-elim (Bool-cases (accepts g.name)) (λ e. rw e (omega (arith, count-append d f)))
        (λ e. rw e (count-append d f))

  count-open_append : (n : Name) (d : Disk) → count (open_append n d) ≤ suc (count d)
  unfolding open_append
  count-open_append n d = on (contents n d)
    where
      on :
          (o : Option (List ℕ))
          → count (elim o [ none ↦ d ++ (record { name = n; bytes = [] } ∷ []) | some _ ↦ d ])
            ≤ suc (count d)
      on none = count-append d _
      on (some _) = omega arith

  count-without_le : (n : Name) (d : Disk) → count (without n d) ≤ count d
  count-without_le n [] = omega arith
  count-without_le n (f ∷ d) =
      ⊎-elim (Bool-cases (accepts f.name))
        (λ a.
          ⊎-elim (Bool-cases (name_eq f.name n))
            (λ e. rw (a, e) (omega (arith, count-without_le n d)))
            (λ e. rw (a, e, a) (omega (arith, count-without_le n d))))
        (λ a.
          ⊎-elim (Bool-cases (name_eq f.name n)) (λ e. rw (a, e) (count-without_le n d))
            (λ e. rw (a, e, a) (count-without_le n d)))

  count-without :
      (n : Name) (d : Disk) → accepts n ≡ true → contents n d ≢ none → count (without n d) < count d
  count-without n [] a h = absurd (h refl)
  count-without n (f ∷ d) a h =
      ⊎-elim (Bool-cases (name_eq f.name n))
        (λ e. rw (e, ap accepts (name_eq→≡ f.name n e) ∙ a) (omega (arith, count-without_le n d)))
        (λ e.
          let rest =
            count-without n d a
              (λ g. h (ap (λ b. if b then some f.bytes else contents n d) e ∙ g)) in
          ⊎-elim (Bool-cases (accepts f.name)) (λ b. rw (e, b) (omega (arith, rest)))
            (λ b. rw (e, b) rest))

-- Every file is there.
there : (d : Disk) → AllFiles (λ n. contents n d ≢ none) d
there [] = tt
there (f ∷ d) = (
  λ e.
      none-ne-some f.bytes
        (sym e ∙ ap (λ b. if b then some f.bytes else contents f.name d) (name_eq_refl f.name)),
  AllFiles-map (λ n. contents n d ≢ none) (λ n. contents n (f ∷ d) ≢ none) d
      (λ n h.
        ⊎-elim (Bool-cases (name_eq f.name n)) (λ e. rw e (λ g. none-ne-some f.bytes (sym g)))
          (λ e. rw e h))
      (there d),
)

listed :
    (accepts : Name → Bool) (d : Disk)
    → AllNames (λ n. (accepts n ≡ true) × (contents n d ≢ none)) (list_files accepts d)
listed accepts d = AllNames-list_files _ accepts d (
    AllFiles-map (λ n. contents n d ≢ none)
      (λ n. accepts n ≡ true → (accepts n ≡ true) × (contents n d ≢ none)) d (λ n h a. (a, h))
      (there d))

module _ (rnp : RotNameProvider) where
  open rnp use {accepts}

  rot_count : (disk : Disk) → length (list_rot_names rnp disk) ≡ count accepts disk
  unfolding list_rot_names
  rot_count disk = length-list_files accepts disk

  drop_oldest_lem :
      (rot : DefaultRotator) (disk : Disk)
      → 0 < rot.max_rot
      → length (list_rot_names rnp disk) ≤ rot.max_rot
      → (disk' : Disk) × (drop_oldest rnp rot disk ≡ ok disk') × (count accepts disk' < rot.max_rot)
  unfolding drop_oldest list_rot_names
  drop_oldest_lem rot disk limit few =
      ⊎-elim (Bool-cases (leb rot.max_rot (length (list_files accepts disk))))
        (λ e.
          rw (==_gt rot.max_rot 0 limit, e)
            (oldest (list_files accepts disk) (listed accepts disk) (leb→le _ _ e)
              (omega (arith, few, rot_count disk))))
        (λ e. (disk, rw (==_gt rot.max_rot 0 limit, e) refl, ground (arith, rot_count disk)))
    where
      oldest :
          (names : List Name)
          → AllNames (λ n. (accepts n ≡ true) × (contents n disk ≢ none)) names
          → rot.max_rot ≤ length names
          → count accepts disk ≤ rot.max_rot
          → (disk' : Disk) × ((elim names [ [] ↦ panic | name ∷ _ ↦ remove_file name disk ])
              ≡ ok disk')
            × (count accepts disk' < rot.max_rot)
      oldest [] a l few = absurd (omega (arith, l, limit))
      oldest (name ∷ names) ((a, h), _) l few = (
        without name disk,
        remove_file_at name disk _ refl h,
        omega (arith, count-without accepts name disk a h, few),
      )

  -- An appender with a limit on the rotations, of which there are not more, appends without an error, and
  -- there are not more of them then either, whether it has gone on to a new one or not. The limit stays.
  pub append-bounded :
      (payload : List ℕ) (rotatable : Bool) (app : RotAppender) (disk : Disk)
      → 0 < app.rot.max_rot
      → length (list_rot_names rnp disk) ≤ app.rot.max_rot
      → (renewed : Bool) × (app' : RotAppender) × (disk' : Disk) × (append rnp payload rotatable app
            disk
          ≡ ok (renewed, app', disk'))
        × (length (list_rot_names rnp disk') ≤ app.rot.max_rot)
        × (app'.rot.max_rot ≡ app.rot.max_rot)
  unfolding append new_rot
  append-bounded payload rotatable app disk limit few =
      let disk1 = write_all app.writer payload disk in
      let same : length (list_rot_names rnp disk1) ≡ length (list_rot_names rnp disk) =
        rot_count disk1
        ∙ ap length (names_of-write_all accepts app.writer payload disk)
        ∙ sym (rot_count disk) in
      let (disk2, dropped, fewer) =
        drop_oldest_lem app.rot disk1 limit (omega (arith, same, few)) in
      let next = rnp.gen_rot_name ((app.rot.cur_rot_no + 1) % 2 ^ 32) in
      ⊎-elim (Bool-cases (rotatable && needs_new_rot app.rot (app.esize + length payload)))
        (λ e. (
          true,
          record {
            esize = 0;
            rot = record app.rot { cur_rot_no = (app.rot.cur_rot_no + 1) % 2 ^ 32 };
            writer = next;
          },
          open_append next disk2,
          rw (e, dropped) refl,
          omega (
            arith,
            rot_count (open_append next disk2),
            count-open_append accepts next disk2,
            fewer,
          ),
          refl,
        ))
        (λ e. (
          false,
          record app { esize = app.esize + length payload },
          disk1,
          rw e refl,
          omega (arith, same, few),
          refl,
        ))
