-- ===== src/Wal/DataSink.antt =====
-- The rotations of src/wal/sync.rs take what `flush_data_blocks` writes, one behind the other.
use dbprimkit.Base.{
  ℕ, suc, ◌-◌, ◌^◌, ◌≤◌, ◌<◌, ◌≡◌, refl, sym, List, [], ◌∷◌, ◌++◌, Bool, true, false, false≢true,
  ◌&&◌, Option, none, some, ltb, ltb-false, leb-false, arith, if◌then◌else◌,
}
use mathlib.Core.Path.{subst}
use dbprimkit.Error.{Outcome, ok}
use dbprimkit.Storage.{Name, Disk, list_files}
use dbprimkit.Storage.Names.{AllNames, AllFiles, AllFiles-append, AllFiles-map, AllNames-list_files}
use dbprimkit.Appender.{RotAppender, append, app_needs_new_rot, list_rot_names}
use dbprimkit.Wal.Platform.{Platform}
use dbprimkit.Wal.Packing.{Sink}
use dbprimkit.Wal.RotNames.{is_some, data_rnp, parse_rot_name}
use dbprimkit.Wal.Files.{Files, remove_before, remove_no_use_rots, flush_data_blocks}
use dbprimkit.Wal.DataDisk.{is_data, stream_of, Older, GoodDisk, Appended, append_ends}

module _ (data_prefix : Name) where
  -- With no entry dropped, no rotation goes.
  remove_none :
      (m : ℕ) (prev : Name) (names : List Name) (disk : Disk)
      → m ≡ 0
      → AllNames (λ n. (r : ℕ × ℕ) × (parse_rot_name data_prefix n ≡ some r) × (0 < r.1)) names
      → (next : ℕ) × (remove_before data_prefix m prev names disk ≡ ok (next, disk))
  unfolding remove_before
  remove_none m prev [] disk z a = (_, refl)
  remove_none m prev (n ∷ names) disk z ((r, e, l), a) =
      (r.1, rw (e, remove_before, leb-false (r.1) m (omega arith)))

  pub remove_no_use_rots_none :
      (m cur : ℕ) (disk : Disk)
      → m ≡ 0
      → AllFiles (Older data_prefix cur) disk
      → (next : ℕ) × (remove_no_use_rots data_prefix m disk ≡ ok (next, disk))
  unfolding remove_no_use_rots list_rot_names data_rnp
  remove_no_use_rots_none m cur disk z a = on (list_files (is_data data_prefix) disk) (
      AllNames-list_files _ (is_data data_prefix) disk (
        AllFiles-map (Older data_prefix cur) _ disk
          (λ n o h. let (r, e) = parsed (parse_rot_name data_prefix n) h in (r, e, (o r e).1)) a))
    where
      parsed : (o : Option (ℕ × ℕ)) → is_some o ≡ true → (r : ℕ × ℕ) × (o ≡ some r)
      parsed none h = absurd (false≢true h)
      parsed (some r) h = (r, refl)

      from_names : List Name → Outcome (ℕ × Disk)
      from_names [] = ok (2 ^ 64 - 1, disk)
      from_names (name ∷ names) = remove_before data_prefix m name names disk

      on :
          (names : List Name)
          → AllNames (λ n. (r : ℕ × ℕ) × (parse_rot_name data_prefix n ≡ some r) × (0 < r.1)) names
          → (next : ℕ) × (from_names names ≡ ok (next, disk))
      on [] a = (_, refl)
      on (n ∷ names) (_, a) = remove_none m n names disk z a

  pub all-Older :
      (quota : ℕ) (disk : Disk) (app : RotAppender)
      → GoodDisk data_prefix quota disk app
      → AllFiles (Older data_prefix app.rot.cur_rot_no) disk
  all-Older quota disk app g =
      subst (AllFiles (Older data_prefix app.rot.cur_rot_no)) (sym g.disk_lem) (
        AllFiles-append (Older data_prefix app.rot.cur_rot_no) g.front _ g.older
          (g.writer_older, tt))

  pub record GoodFiles (quota : ℕ) (files : Files) : Type 0 where
    pub good_disk : GoodDisk data_prefix quota files.disk files.data_app
    pub none_dropped : files.min_lsn ≡ 0

  module _ (mani_prefix : Name) (p : Platform) where
    -- What `flush_data_blocks` ends in.
    pub record Written (quota : ℕ) (rotatable : Bool) (min last max : ℕ) (data_buf : List ℕ)
        (files : Files) : Type 0 where
      pub last_min : ℕ
      pub files' : Files
      pub flush_lem :
          flush_data_blocks data_prefix mani_prefix p rotatable min last max data_buf files
          ≡ ok (last_min, files')
      pub good : GoodFiles quota files'
      pub stream_lem :
          stream_of data_prefix files'.disk ≡ stream_of data_prefix files.disk ++ data_buf
      pub rotated : rotatable ≡ true → app_needs_new_rot files'.data_app ≡ false

    none_to_tell : (b : Bool) (min m : ℕ) → m ≡ 0 → (b && ltb min m) ≡ false
    none_to_tell true min m e = ltb-false min m (omega arith)
    none_to_tell false min m e = refl

    pub written :
        (quota : ℕ) (rotatable : Bool) (min last max : ℕ) (data_buf : List ℕ) (files : Files)
        → GoodFiles (suc quota) files
        → Appended data_prefix quota last data_buf rotatable files.disk files.data_app
        → Written quota rotatable min last max data_buf files
    unfolding flush_data_blocks
    written quota rotatable min last max data_buf files g a = on (a.renewed) a.append_lem
      where
        on :
            (b : Bool)
            → append (data_rnp data_prefix last) data_buf rotatable files.data_app files.disk
              ≡ ok (b, a.app', a.disk')
            → Written quota rotatable min last max data_buf files
        on false e = record {
          last_min = min;
          files' = record files {
            data_app = a.app';
            disk = a.disk';
            flush_lsn = last;
            max_lsn = if rotatable then max else files.max_lsn;
            log_check_cnt = 0;
            adv_lsn_check_cnt = 0;
          };
          flush_lem =
              rw (
                none_to_tell (app_needs_new_rot files.data_app) min files.min_lsn g.none_dropped,
                e,
              );
          good = record { good_disk = a.good; none_dropped = g.none_dropped };
          stream_lem = a.stream_lem;
          rotated = a.rotated;
        }
        on true e =
            let (next, removed) =
              remove_no_use_rots_none files.min_lsn a.app'.rot.cur_rot_no a.disk' g.none_dropped
                (all-Older quota a.disk' a.app' a.good) in
            record {
              last_min = min;
              files' = record files {
                data_app = a.app';
                disk = a.disk';
                flush_lsn = last;
                max_lsn = if rotatable then max else files.max_lsn;
                next_no_use_lsn = next;
                log_check_cnt = 0;
                adv_lsn_check_cnt = 0;
              };
              flush_lem = rw (
                none_to_tell (app_needs_new_rot files.data_app) min files.min_lsn g.none_dropped,
                e,
                removed,
              );
              good = record { good_disk = a.good; none_dropped = g.none_dropped };
              stream_lem = a.stream_lem;
              rotated = a.rotated;
            }

    pub GoodDisk-le :
        (n m : ℕ) (disk : Disk) (app : RotAppender)
        → n ≤ m
        → GoodDisk data_prefix m disk app
        → GoodDisk data_prefix n disk app
    GoodDisk-le n m disk app l g = record {
      front = g.front;
      held = g.held;
      writer_no = g.writer_no;
      disk_lem = g.disk_lem;
      alone = g.alone;
      parse_lem = g.parse_lem;
      older = g.older;
      writer_older = g.writer_older;
      no_max = g.no_max;
      sized = g.sized;
      numbered = omega (arith, g.numbered, l);
    }

    -- The files of a log take what the packing flushes.
    abbrev pub data_sink : Sink
    data_sink = record {
      State = Files;
      IsGood = GoodFiles;
      IsGood_le = λ n m s l g. record {
        good_disk = GoodDisk-le n m s.disk s.data_app l g.good_disk;
        none_dropped = g.none_dropped;
      };
      min_lsn = λ s. s.min_lsn;
      needs_new_rot = λ s. app_needs_new_rot s.data_app;
      flush_data_blocks = flush_data_blocks data_prefix mani_prefix p;
      stream = λ s. stream_of data_prefix s.disk;
      flush_data_blocks_lem = λ quota rotatable min last max data_buf s l g.
          let w = written quota rotatable min last max data_buf s g (
            append_ends data_prefix quota last data_buf rotatable s.disk s.data_app g.good_disk
              l) in
          (w.last_min, w.files', w.flush_lem, w.good, w.stream_lem, w.rotated);
    }
