-- ===== src/Wal/Removal.antt =====
-- src/wal/sync.rs: which rotations `remove_no_use_rots` removes.
use mathlib.Core.Path.{subst}
use dbprimkit.Base.{
  true≢false, ℕ, ◌-◌, ◌^◌, ◌<◌, ◌≡◌, ◌≢◌, ◌⊎◌, inl, inr, refl, sym, ap, ◌∙◌, List, [], ◌∷◌, ◌++◌,
  false, none, leb, Bool-cases, ⊎-elim, leb→le, leb-true, arith,
}
use dbprimkit.Error.{ok}
use dbprimkit.Storage.{Name, Disk, contents, without}
use dbprimkit.Storage.Names.{remove_file_at, AllNames, name_eq_refl, name_eq→≡}
use dbprimkit.Storage.{name_eq}
use dbprimkit.Wal.Files.{remove_before}
use dbprimkit.Wal.Chosen.{Ascending, Reaches}

contents-without :
    (m n : Name) (d : Disk) → name_eq n m ≡ false → contents m (without n d) ≡ contents m d
contents-without m n [] h = refl
contents-without m n (f ∷ d) h =
    ⊎-elim (Bool-cases (name_eq f.name n))
      (λ e. rw (e, ap (λ x. name_eq x m) (name_eq→≡ f.name n e) ∙ h) (contents-without m n d h))
      (λ e.
        ⊎-elim (Bool-cases (name_eq f.name m)) (λ g. rw (e, g) refl)
          (λ g. rw (e, g) (contents-without m n d h)))

without-gone : (n : Name) (d : Disk) → contents n (without n d) ≡ none
without-gone n [] = refl
without-gone n (f ∷ d) =
    ⊎-elim (Bool-cases (name_eq f.name n)) (λ e. rw e (without-gone n d))
      (λ e. rw (e, e) (without-gone n d))

name_eq_sym : (m n : Name) → name_eq m n ≡ false → name_eq n m ≡ false
name_eq_sym m n h =
    ⊎-elim (Bool-cases (name_eq n m))
      (λ e.
        absurd
          (true≢false (sym (name_eq_refl m) ∙ ap (λ x. name_eq m x) (sym (name_eq→≡ n m e)) ∙ h)))
      (λ e. e)

-- No two names of the list are the same.
abbrev pub Distinct : List Name → Type 0
Distinct [] = Unit
Distinct (n ∷ ns) = AllNames (λ m. name_eq n m ≡ false) ns × Distinct ns

abbrev pub Present : Disk → List Name → Type 0
Present d ns = AllNames (λ m. contents m d ≢ none) ns

AllNames-map :
    (P Q : Name → Type 0) (ns : List Name)
    → ((m : Name) → P m → Q m)
    → AllNames P ns
    → AllNames Q ns
AllNames-map P Q [] f a = tt
AllNames-map P Q (n ∷ ns) f (h, a) = (f n h, AllNames-map P Q ns f a)

AllNames-front : (P : Name → Type 0) (ns ms : List Name) → AllNames P (ns ++ ms) → AllNames P ns
AllNames-front P [] ms a = tt
AllNames-front P (n ∷ ns) ms (h, a) = (h, AllNames-front P ns ms a)

-- What is left of a list of distinct files after the first has been removed is still there.
Present-without :
    (n : Name) (d : Disk) (ns : List Name)
    → AllNames (λ m. name_eq n m ≡ false) ns
    → Present d ns
    → Present (without n d) ns
Present-without n d [] a h = tt
Present-without n d (m ∷ ns) (e, a) (h, hs) =
    (λ g. h (sym (contents-without m n d e) ∙ g), Present-without n d ns a hs)

module _ (prefix : Name) where
  -- What comes of a list of rotations: those before `chosen` are removed, the name of `chosen` has an LSN
  -- up to `min_lsn`, and no other file is touched.
  pub record Swept (min_lsn : ℕ) (prev : Name) (names : List Name) (disk : Disk) : Type 0 where
    pub next : ℕ
    pub disk' : Disk
    pub before : List Name
    pub chosen : Name
    pub after : List Name
    pub run_lem : remove_before prefix min_lsn prev names disk ≡ ok (next, disk')
    pub split_lem : prev ∷ names ≡ before ++ (chosen ∷ after)
    pub gone : AllNames (λ m. contents m disk' ≡ none) before
    pub kept :
        (m : Name) → AllNames (λ b. name_eq b m ≡ false) before → contents m disk' ≡ contents m disk
    pub needless : ((before ≡ []) × (chosen ≡ prev)) ⊎ Reaches prefix min_lsn chosen
    pub later :
        ((after ≡ []) × (next ≡ 2 ^ 64 - 1)) ⊎ ((min_lsn < next) × Ascending prefix next after)

  stays :
      (min_lsn : ℕ) (prev : Name) (names : List Name) (disk : Disk) (next : ℕ)
      → remove_before prefix min_lsn prev names disk ≡ ok (next, disk)
      → ((names ≡ []) × (next ≡ 2 ^ 64 - 1)) ⊎ ((min_lsn < next) × Ascending prefix next names)
      → Swept min_lsn prev names disk
  stays min_lsn prev names disk next e later = record {
    next = next;
    disk' = disk;
    before = [];
    chosen = prev;
    after = names;
    run_lem = e;
    split_lem = refl;
    gone = tt;
    kept = λ m a. refl;
    needless = inl (refl, refl);
    later = later;
  }

  goes :
      (min_lsn : ℕ) (prev name : Name) (names : List Name) (disk : Disk)
      → Reaches prefix min_lsn name
      → AllNames (λ m. name_eq prev m ≡ false) (name ∷ names)
      → contents prev disk ≢ none
      → Swept min_lsn name names (without prev disk)
      → Swept min_lsn prev (name ∷ names) disk
  unfolding remove_before
  goes min_lsn prev name names disk (rot_no, lsn, e, le) fresh there s =
      let others : AllNames (λ b. name_eq b prev ≡ false) s.before =
        AllNames-map (λ m. name_eq prev m ≡ false) (λ b. name_eq b prev ≡ false) s.before
          (name_eq_sym prev)
          (AllNames-front (λ m. name_eq prev m ≡ false) s.before (s.chosen ∷ s.after)
            (subst (AllNames (λ m. name_eq prev m ≡ false)) s.split_lem fresh)) in
      record {
        next = s.next;
        disk' = s.disk';
        before = prev ∷ s.before;
        chosen = s.chosen;
        after = s.after;
        run_lem =
            rw (remove_before, e, leb-true lsn min_lsn le, remove_file_at prev disk _ refl there)
              s.run_lem;
        split_lem = ap (λ ns. prev ∷ ns) s.split_lem;
        gone = (s.kept prev others ∙ without-gone prev disk, s.gone);
        kept = λ m (h, hs). s.kept m hs ∙ contents-without m prev disk h;
        needless = inr (
            ⊎-elim s.needless
              (λ (_, same). subst (Reaches prefix min_lsn) (sym same) (rot_no, lsn, e, le))
              (λ r. r));
        later = s.later;
      }

  pub swept :
      (min_lsn lo : ℕ) (prev : Name) (names : List Name) (disk : Disk)
      → Ascending prefix lo names
      → Distinct (prev ∷ names)
      → Present disk (prev ∷ names)
      → Swept min_lsn prev names disk
  unfolding remove_before
  swept min_lsn lo prev [] disk a d h =
      stays min_lsn prev [] disk (2 ^ 64 - 1) refl (inl (refl, refl))
  swept min_lsn lo prev (name ∷ names) disk (rot_no, lsn, e, above, rest) (fresh, d) (there, h) =
      ⊎-elim (Bool-cases (leb lsn min_lsn))
        (λ l.
          goes min_lsn prev name names disk (rot_no, lsn, e, leb→le lsn min_lsn l) fresh there
            (swept min_lsn lsn name names (without prev disk) rest d
              (Present-without prev disk (name ∷ names) fresh h)))
        (λ l.
          stays min_lsn prev (name ∷ names) disk lsn (rw (remove_before, e, l) refl)
            (inr (ground arith, (rot_no, lsn, e, omega arith, rest))))
