-- ===== src/Wal/Chosen.antt =====
-- src/wal/sync.rs: the rotation that `get_log_iter` starts from.
use dbprimkit.Base.{
  suc, sym, some-injective, ◌∙◌, ℕ, ◌≤◌, ◌<◌, ◌≡◌, refl, ap, List, [], ◌∷◌, ◌++◌, Option, none,
  some, ltb, Bool-cases, ⊎-elim, ltb-false, ltb→lt, ltb_false→le, leb-true, lt→ltb, arith,
}
use dbprimkit.Error.{ok}
use dbprimkit.Storage.{Name}
use dbprimkit.Wal.RotNames.{parse_rot_name}
use dbprimkit.Wal.Reader.{choose_rot}

-- A rotation with the LSN of the first entry behind those before it, as its name tells it.
module _ (prefix : Name) where
  -- The names, in ascending order of their LSNs, which are not below `lo`.
  abbrev pub Ascending : ℕ → List Name → Type 0
  Ascending lo [] = Unit
  Ascending lo (name ∷ names) =
      (rot_no lsn : ℕ) × (parse_rot_name prefix name ≡ some (rot_no, lsn))
      × (lo ≤ lsn)
      × Ascending lsn names

  -- A name that holds an LSN up to `start`.
  abbrev pub Reaches : ℕ → Name → Type 0
  Reaches start name =
      (rot_no lsn : ℕ) × (parse_rot_name prefix name ≡ some (rot_no, lsn)) × (lsn ≤ start)

  -- What the choice must be among `names`: the last rotation that begins at or before `start`, with all
  -- that stand behind it.
  pub record Chosen (start : ℕ) (last_name : Option Name) (lo : ℕ) (names all : List Name)
      : Type 0 where
    pub chosen : Name
    pub before : List Name
    pub after : List Name
    pub run_lem : choose_rot prefix start lo last_name names ≡ ok (some chosen, after)
    pub split_lem : all ≡ before ++ (chosen ∷ after)
    pub reaches : Reaches start chosen
    pub later : (lo' : ℕ) × (start < lo') × Ascending lo' after

  module _ (start lo : ℕ) (last_name name : Name) (names : List Name) (within : lo ≤ start) where
    -- The rotation begins behind `start`: the one before it is chosen.
    stops :
        (rot_no lsn : ℕ)
        → Reaches start last_name
        → parse_rot_name prefix name ≡ some (rot_no, lsn)
        → start < lsn
        → Ascending lsn names
        → Chosen start (some last_name) lo (name ∷ names) (last_name ∷ (name ∷ names))
    unfolding choose_rot
    stops rot_no lsn r e l rest = record {
      chosen = last_name;
      before = [];
      after = name ∷ names;
      run_lem = rw (choose_rot, e, leb-true lo start within, lt→ltb start lsn l) refl;
      split_lem = refl;
      reaches = r;
      later = (lsn, l, (rot_no, lsn, e, omega arith, rest));
    }

  -- The last rotation, which begins at or before `start`, is chosen.
  ends :
      (start lo : ℕ) (last_name : Option Name) (name : Name)
      → lo ≤ start
      → Reaches start name
      → Chosen start last_name lo (name ∷ []) (name ∷ [])
  unfolding choose_rot
  ends start lo last_name name within (rot_no, lsn, e, l) = record {
    chosen = name;
    before = [];
    after = [];
    run_lem =
        rw (choose_rot, e, leb-true lo start within, ltb-false start lsn l, leb-true lsn start l)
          refl;
    split_lem = refl;
    reaches = (rot_no, lsn, e, l);
    later = (suc start, omega arith, tt);
  }

  -- A rotation that begins at or before `start`, with others behind it, is passed.
  passes :
      (start lo : ℕ) (last_name : Option Name) (name n : Name) (ns : List Name)
      → lo ≤ start
      → (rot_no lsn : ℕ) → parse_rot_name prefix name ≡ some (rot_no, lsn)
      → lsn ≤ start
      → choose_rot prefix start lo last_name (name ∷ (n ∷ ns))
        ≡ choose_rot prefix start lsn (some name) (n ∷ ns)
  unfolding choose_rot
  passes start lo last_name name n ns within rot_no lsn e l =
      rw (choose_rot, e, leb-true lo start within, ltb-false start lsn l, leb-true lsn start l) refl

  behind :
      {start lo : ℕ} {last_name : Option Name} {names all : List Name} (name : Name)
      → Chosen start last_name lo names all
      → {lo' : ℕ} {last_name' : Option Name} {names' : List Name}
      → choose_rot prefix start lo' last_name' names' ≡ choose_rot prefix start lo last_name names
      → Chosen start last_name' lo' names' (name ∷ all)
  behind name c e = record {
    chosen = c.chosen;
    before = name ∷ c.before;
    after = c.after;
    run_lem = e ∙ c.run_lem;
    split_lem = ap (λ ns. name ∷ ns) c.split_lem;
    reaches = c.reaches;
    later = c.later;
  }

  again :
      {start lo : ℕ} {last_name : Option Name} {names all : List Name}
      → Chosen start last_name lo names all
      → {lo' : ℕ} {last_name' : Option Name} {names' : List Name}
      → choose_rot prefix start lo' last_name' names' ≡ choose_rot prefix start lo last_name names
      → Chosen start last_name' lo' names' all
  again c e = record {
    chosen = c.chosen;
    before = c.before;
    after = c.after;
    run_lem = e ∙ c.run_lem;
    split_lem = c.split_lem;
    reaches = c.reaches;
    later = c.later;
  }

  chosen_from :
      (start lo : ℕ) (last_name name : Name) (names : List Name)
      → lo ≤ start
      → Reaches start last_name
      → Ascending lo (name ∷ names)
      → Chosen start (some last_name) lo (name ∷ names) (last_name ∷ (name ∷ names))
  chosen_from start lo last_name name [] within r (rot_no, lsn, e, above, rest) =
      ⊎-elim (Bool-cases (ltb start lsn))
        (λ l. stops start lo last_name name [] within rot_no lsn r e (ltb→lt start lsn l) rest)
        (λ l.
          behind last_name
            (ends start lo (some last_name) name within (rot_no, lsn, e, ltb_false→le start lsn l))
            refl)
  chosen_from start lo last_name name (n ∷ ns) within r (rot_no, lsn, e, above, rest) =
      ⊎-elim (Bool-cases (ltb start lsn))
        (λ l.
          stops start lo last_name name (n ∷ ns) within rot_no lsn r e (ltb→lt start lsn l) rest)
        (λ l.
          let le = ltb_false→le start lsn l in
          behind last_name (chosen_from start lsn name n ns le (rot_no, lsn, e, le) rest)
            (passes start lo (some last_name) name n ns within rot_no lsn e le))

  -- For rotations in ascending order of the LSNs in their names, of which the first begins at or before
  -- `start`, the loop of `get_log_iter` chooses the last one that does: it begins at or before `start`,
  -- all rotations behind it begin later, and they are the ones that the iterator goes on with.
  pub choose_rot-Chosen :
      (start : ℕ) (name : Name) (names : List Name)
      → Ascending 0 (name ∷ names)
      → Reaches start name
      → Chosen start none 0 (name ∷ names) (name ∷ names)
  choose_rot-Chosen start name [] (rot_no, lsn, e, above, rest) r =
      ends start 0 none name (omega arith) r
  choose_rot-Chosen start name (n ∷ ns) (rot_no, lsn, e, above, rest) (rot_no', lsn', e', reached) =
      ⊎-elim (Bool-cases (ltb start lsn))
        (λ l.
          let same : lsn ≡ lsn' = ap (λ q. q.1) (some-injective _ _ (sym e ∙ e')) in
          absurd (omega (arith, same, reached, ltb→lt start lsn l)))
        (λ l.
          let le = ltb_false→le start lsn l in
          again (chosen_from start lsn name n ns le (rot_no, lsn, e, le) rest)
            (passes start 0 none name n ns (omega arith) rot_no lsn e le))
