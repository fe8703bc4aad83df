-- ===== src/Wal/DataDisk.antt =====
-- The rotations of src/wal/sync.rs, one behind the other, and what `append` does to them.
use dbprimkit.Base.{
  ℕ, suc, ◌+◌, ◌-◌, ◌^◌, ◌≤◌, ◌<◌, ◌≡◌, refl, sym, ap, ◌∙◌, List, [], ◌∷◌, ◌++◌, Bool, true, false,
  ◌&&◌, some, some-injective, length, leb-false, arith, append_assoc, append-nil, Bool-cases,
  ⊎-elim, if◌then◌else◌,
}
use native.Mathlib.Nat.{mod-eq_of_lt}
use mathlib.Core.Path.{subst}
use dbprimkit.Error.{ok}
use dbprimkit.Storage.{Name, Disk, name_eq, write_all}
use dbprimkit.Storage.Names.{
  AllFiles, AllFiles-append, AllFiles-map, Absent, name_eq→≡, write_all_lem, open_append_lem,
}
use dbprimkit.Appender.{
  DefaultRotator, RotAppender, append, new_rot, drop_oldest, needs_new_rot, app_needs_new_rot,
}
use dbprimkit.Wal.RotNames.{is_some, data_rnp, gen_rot_name, parse_rot_name}
use dbprimkit.Wal.RotNameFacts.{parse_rot_name-gen_rot_name}

module _ (data_prefix : Name) where
  abbrev pub is_data : Name → Bool
  is_data n = is_some (parse_rot_name data_prefix n)

  -- What the rotations hold, one behind the other.
  abbrev pub stream_of : Disk → List ℕ
  stream_of [] = []
  stream_of (f ∷ d) = let rest = stream_of d in if is_data f.name then f.bytes ++ rest else rest

  stream_of-append : (d e : Disk) → stream_of (d ++ e) ≡ stream_of d ++ stream_of e
  stream_of-append [] e = refl
  stream_of-append (f ∷ d) e = on (is_data f.name) (stream_of-append d e)
    where
      on :
          (b : Bool)
          → stream_of (d ++ e) ≡ stream_of d ++ stream_of e
          → (if b then f.bytes ++ stream_of (d ++ e) else stream_of (d ++ e))
            ≡ (if b then f.bytes ++ stream_of d else stream_of d) ++ stream_of e
      on true h =
          ap (λ l. f.bytes ++ l) h ∙ sym (append_assoc (f.bytes) (stream_of d) (stream_of e))
      on false h = h

  stream_of-one :
      (n : Name) (bs : List ℕ) (r : ℕ × ℕ)
      → parse_rot_name data_prefix n ≡ some r
      → stream_of (record { name = n; bytes = bs } ∷ []) ≡ bs
  stream_of-one n bs r e = rw (e) (append-nil bs)

  -- A rotation is not newer than the current one, and does not begin with the first entry of all.
  abbrev pub Older : ℕ → Name → Type 0
  Older cur n = (r : ℕ × ℕ) → parse_rot_name data_prefix n ≡ some r → (r.0 ≤ cur) × (0 < r.1)

  -- The writer writes to the newest file.
  pub record GoodDisk (quota : ℕ) (disk : Disk) (app : RotAppender) : Type 0 where
    pub front : Disk
    pub held : List ℕ
    pub writer_no : ℕ × ℕ
    pub disk_lem : disk ≡ front ++ (record { name = app.writer; bytes = held } ∷ [])
    pub alone : Absent app.writer front
    pub parse_lem : parse_rot_name data_prefix app.writer ≡ some writer_no
    pub older : AllFiles (Older app.rot.cur_rot_no) front
    pub writer_older : Older app.rot.cur_rot_no app.writer
    pub no_max : app.rot.max_rot ≡ 0
    pub sized : 0 < app.rot.rot_size_max
    pub numbered : app.rot.cur_rot_no + quota < 2 ^ 32

  -- A newer name is new.
  fresh_name :
      (cur : ℕ) (name n : Name) (lsn : ℕ)
      → parse_rot_name data_prefix name ≡ some (cur + 1, lsn)
      → Older cur n
      → name_eq n name ≡ false
  fresh_name cur name n lsn e o =
      ⊎-elim (Bool-cases (name_eq n name))
        (λ q.
          let same = name_eq→≡ n name q in
          absurd (omega (arith, (o (cur + 1, lsn) (ap (parse_rot_name data_prefix) same ∙ e)).0)))
        (λ q. q)

  -- Behind a write: with the bytes in the newest file.
  wrote :
      (quota : ℕ) (disk : Disk) (app : RotAppender) (buf : List ℕ) (g : GoodDisk quota disk app)
      → write_all app.writer buf disk
        ≡ g.front ++ (record { name = app.writer; bytes = g.held ++ buf } ∷ [])
  wrote quota disk app buf g =
      ap (write_all app.writer buf) g.disk_lem ∙ write_all_lem g.front app.writer g.held buf g.alone

  wrote_stream :
      (quota : ℕ) (disk : Disk) (app : RotAppender) (buf : List ℕ) (g : GoodDisk quota disk app)
      → stream_of (write_all app.writer buf disk) ≡ stream_of disk ++ buf
  wrote_stream quota disk app buf g =
      ap stream_of (wrote quota disk app buf g)
      ∙ stream_of-append g.front _
      ∙ ap (λ l. stream_of g.front ++ l) (stream_of-one app.writer _ g.writer_no g.parse_lem)
      ∙ sym (append_assoc (stream_of g.front) g.held buf)
      ∙ ap (λ l. l ++ buf)
          (ap (λ l. stream_of g.front ++ l)
              (sym (stream_of-one app.writer g.held g.writer_no g.parse_lem))
            ∙ sym (stream_of-append g.front _)
            ∙ ap stream_of (sym g.disk_lem))

  abbrev next_name : (last : ℕ) → DefaultRotator → Name
  next_name last rot = gen_rot_name data_prefix last (rot.cur_rot_no + 1)

  new_rot_lem :
      (last : ℕ) (rot : DefaultRotator) (disk : Disk)
      → rot.max_rot ≡ 0
      → rot.cur_rot_no + 1 < 2 ^ 32
      → Absent (next_name last rot) disk
      → new_rot (data_rnp data_prefix last) rot disk
        ≡ ok (
          next_name last rot,
          record rot { cur_rot_no = rot.cur_rot_no + 1 },
          disk ++ (record { name = next_name last rot; bytes = [] } ∷ []),
        )
  unfolding new_rot drop_oldest data_rnp
  new_rot_lem last rot disk m l a =
      rw (m, mod-eq_of_lt l, open_append_lem disk (next_name last rot) a)

  -- What `append` ends in.
  pub record Appended (quota last : ℕ) (buf : List ℕ) (rotatable : Bool) (disk : Disk)
      (app : RotAppender) : Type 0 where
    pub renewed : Bool
    pub app' : RotAppender
    pub disk' : Disk
    pub append_lem :
        append (data_rnp data_prefix last) buf rotatable app disk ≡ ok (renewed, app', disk')
    pub good : GoodDisk quota disk' app'
    pub stream_lem : stream_of disk' ≡ stream_of disk ++ buf
    pub rotated : rotatable ≡ true → app_needs_new_rot app' ≡ false

  module _ (quota last : ℕ) (buf : List ℕ) (rotatable : Bool) (disk : Disk) (app : RotAppender)
      (g : GoodDisk (suc quota) disk app) (last_fits : last < 2 ^ 64 - 1) where
    abbrev full : Bool
    full = rotatable && needs_new_rot app.rot (app.esize + length buf)

    not_full : full ≡ false → Appended quota last buf rotatable disk app
    unfolding append app_needs_new_rot
    not_full e = record {
      renewed = false;
      app' = record app { esize = app.esize + length buf };
      disk' = write_all app.writer buf disk;
      append_lem = rw (e);
      good = record {
        front = g.front;
        held = g.held ++ buf;
        writer_no = g.writer_no;
        disk_lem = wrote (suc quota) disk app buf g;
        alone = g.alone;
        parse_lem = g.parse_lem;
        older = g.older;
        writer_older = g.writer_older;
        no_max = g.no_max;
        sized = g.sized;
        numbered = omega (arith, g.numbered);
      };
      stream_lem = wrote_stream (suc quota) disk app buf g;
      rotated = λ r. ap (λ b. b && needs_new_rot app.rot (app.esize + length buf)) (sym r) ∙ e;
    }

    is_full : full ≡ true → Appended quota last buf rotatable disk app
    unfolding append app_needs_new_rot
    is_full e =
        let next = next_name last app.rot in
        let written = write_all app.writer buf disk in
        let parsed =
          parse_rot_name-gen_rot_name data_prefix last (app.rot.cur_rot_no + 1)
            (omega (arith, g.numbered)) (omega (arith, last_fits)) in
        let old_files : AllFiles (Older app.rot.cur_rot_no) written =
          subst (AllFiles (Older app.rot.cur_rot_no)) (sym (wrote (suc quota) disk app buf g))
            (AllFiles-append (Older app.rot.cur_rot_no) g.front _ g.older (g.writer_older, tt)) in
        let new : Absent next written =
          AllFiles-map (Older app.rot.cur_rot_no) (λ n. name_eq n next ≡ false) written
            (λ n. fresh_name app.rot.cur_rot_no next n (last + 1) parsed) old_files in
        record {
          renewed = true;
          app' = record {
            esize = 0;
            rot = record app.rot { cur_rot_no = app.rot.cur_rot_no + 1 };
            writer = next;
          };
          disk' = written ++ (record { name = next; bytes = [] } ∷ []);
          append_lem =
              rw (e, new_rot_lem last app.rot written g.no_max (omega (arith, g.numbered)) new);
          good = record {
            front = written;
            held = [];
            writer_no = (app.rot.cur_rot_no + 1, last + 1);
            disk_lem = refl;
            alone = new;
            parse_lem = parsed;
            older =
                AllFiles-map (Older app.rot.cur_rot_no) (Older (app.rot.cur_rot_no + 1)) written
                  (λ n o r q. (omega (arith, (o r q).0), (o r q).1)) old_files;
            writer_older = λ r q.
                let same = some-injective _ _ (sym parsed ∙ q) in
                (omega (arith, ap (λ r. r.0) same), omega (arith, ap (λ r. r.1) same));
            no_max = g.no_max;
            sized = g.sized;
            numbered = omega (arith, g.numbered);
          };
          stream_lem =
              stream_of-append written _
              ∙ ap (λ l. stream_of written ++ l)
                  (stream_of-one next [] (app.rot.cur_rot_no + 1, last + 1) parsed)
              ∙ append-nil (stream_of written)
              ∙ wrote_stream (suc quota) disk app buf g;
          rotated = λ _. leb-false app.rot.rot_size_max 0 g.sized;
        }

    pub append_ends : Appended quota last buf rotatable disk app
    append_ends = ⊎-elim (Bool-cases full) is_full not_full
