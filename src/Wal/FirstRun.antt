-- ===== src/Wal/FirstRun.antt =====
-- src/wal/sync.rs: a log in an empty directory, from `WalWriter::new` on.
use dbprimkit.Base.{
  ℕ, ◌+◌, ◌-◌, ◌*◌, ◌^◌, ◌<◌, ◌≡◌, refl, sym, ap, ◌∙◌, List, [], ◌∷◌, ◌++◌, false, none, some,
  some-injective, none-ne-some, length, length-append, arith, append_assoc, leb-false, Bool-cases,
  ⊎-elim,
}
use dbprimkit.Error.{ok}
use dbprimkit.Storage.{Name, Disk, name_eq, list_files, open_append, write_all}
use dbprimkit.Storage.Names.{name_eq→≡, name_eq_refl, open_append_lem}
use dbprimkit.Appender.{
  append, needs_new_rot, open_appender, init_appending, with_rot_name_resolver,
  restore_latest_rot_info, list_rot_names,
}
use dbprimkit.Wal.Platform.{Platform}
use dbprimkit.Wal.Config.{TunableConfig}
use dbprimkit.Wal.RotNames.{default_rnp, data_rnp, padded, gen_rot_name, parse_rot_name}
use dbprimkit.Wal.RotNameFacts.{starts_with-cancel, parse_rot_name-gen_rot_name}
use dbprimkit.Wal.ManiEntry
use dbprimkit.Wal.HeaderFix.{length-copy_at}
use dbprimkit.Wal.Packing.{FlushingControlBlock}
use dbprimkit.Wal.Files.{Files, flush_mani_entry}
use dbprimkit.Wal.DataDisk.{stream_of, GoodDisk}
use dbprimkit.Wal.DataSink.{remove_no_use_rots_none, all-Older}
use dbprimkit.Wal.Restore.{
  mani_prefix, data_prefix, open_writer, begin_task, new_wal_fields, restore_lsn,
  restore_latest_rot,
}

abbrev pub first_mani : Name → Name
first_mani name = mani_prefix name ++ padded 10 0

abbrev pub first_data : Name → Name
first_data name = gen_rot_name (data_prefix name) 0 0

-- The manifest is not taken for a data rotation.
pub parse-first_mani : (name : Name) → parse_rot_name (data_prefix name) (first_mani name) ≡ none
unfolding parse_rot_name
parse-first_mani name = rw (append_assoc, starts_with-cancel) refl

pub parse-first_data :
    (name : Name) → parse_rot_name (data_prefix name) (first_data name) ≡ some (0, 1)
parse-first_data name =
    parse_rot_name-gen_rot_name (data_prefix name) 0 0 (omega arith) (omega arith)

pub mani-not-data : (name : Name) → name_eq (first_mani name) (first_data name) ≡ false
mani-not-data name =
    ⊎-elim (Bool-cases (name_eq (first_mani name) (first_data name)))
      (λ e. absurd (
        none-ne-some (0, 1)
          (sym (parse-first_mani name)
            ∙ ap (parse_rot_name (data_prefix name)) (name_eq→≡ _ _ e)
            ∙ parse-first_data name)))
      (λ e. e)

data-not-mani : (name : Name) → name_eq (first_data name) (first_mani name) ≡ false
data-not-mani name =
    ⊎-elim (Bool-cases (name_eq (first_data name) (first_mani name)))
      (λ e. absurd (
        none-ne-some (0, 1)
          (sym (parse-first_mani name)
            ∙ ap (parse_rot_name (data_prefix name)) (sym (name_eq→≡ _ _ e))
            ∙ parse-first_data name)))
      (λ e. e)

module _ (p : Platform) (name : Name) (config : TunableConfig) where
  abbrev pub two_files : List ℕ → Disk
  two_files bytes =
      record { name = first_mani name; bytes = bytes }
      ∷ record { name = first_data name; bytes = [] }
      ∷ []

  abbrev pub first_files : Files
  first_files = record {
    disk = two_files [];
    mani_app = record {
      esize = 0;
      rot = record {
        latest_rot_name = none;
        cur_rot_no = 0;
        max_rot = 2;
        rot_size_max = 64 * 1024;
      };
      writer = first_mani name;
    };
    data_app = record {
      esize = 0;
      rot = record {
        latest_rot_name = none;
        cur_rot_no = 0;
        max_rot = 0;
        rot_size_max = config.max_data_rot_size;
      };
      writer = first_data name;
    };
    flush_lsn = 0;
    min_lsn = 0;
    max_lsn = 0;
    next_no_use_lsn = 0;
    log_check_cnt = 0;
    adv_lsn_check_cnt = 0;
  }

  pub opened : open_writer p name config [] ≡ ok first_files
  unfolding open_writer restore_lsn restore_latest_rot open_appender init_appending
      with_rot_name_resolver restore_latest_rot_info list_rot_names list_files open_append
      new_wal_fields default_rnp data_rnp padded
  opened =
      ap (λ d. ok (record first_files { disk = d }))
        (open_append_lem (record { name = first_mani name; bytes = [] } ∷ []) (first_data name)
          (mani-not-data name, tt))

  abbrev pub entry : List ℕ
  entry = ManiEntry.encode p [] 0

  pub length-entry : length entry ≡ 16
  unfolding ManiEntry.encode
  length-entry =
      length-copy_at (p.put_ne (p.put_ne [] 8 0) 8 0) (p.to_ne_bytes 4 _) 0
        (omega (arith, p.length-to_ne_bytes 4 _, sixteen))
      ∙ sixteen
    where
      sixteen : length (p.put_ne (p.put_ne [] 8 0) 8 0) ≡ 16
      sixteen = rw (p.put_ne_lem, p.put_ne_lem) (simp (length-append, p.length-to_ne_bytes))

  abbrev pub files_then : ℕ → Files
  files_then next = record first_files {
    disk = two_files entry;
    mani_app = record {
      esize = 0 + length entry;
      rot = record {
        latest_rot_name = none;
        cur_rot_no = 0;
        max_rot = 2;
        rot_size_max = 64 * 1024;
      };
      writer = first_mani name;
    };
    next_no_use_lsn = next;
  }

  first_written : write_all (first_mani name) entry (two_files []) ≡ two_files entry
  unfolding write_all
  first_written = rw (name_eq_refl (first_mani name), data-not-mani name)

  small :
      needs_new_rot (first_files.mani_app.rot) (first_files.mani_app.esize + length entry) ≡ false
  unfolding needs_new_rot
  small = leb-false (64 * 1024) (0 + length entry) (omega (arith, length-entry))

  mani_flushed :
      (next : ℕ)
      → flush_mani_entry
          (data_prefix name)
          (mani_prefix name)
          p
          0
          (record first_files { next_no_use_lsn = next })
        ≡ ok (files_then next)
  unfolding flush_mani_entry append
  mani_flushed next = rw (small, first_written)

  abbrev pub first_fcb : ℕ → FlushingControlBlock Files
  first_fcb next = record {
    app = files_then next;
    data_buf = [];
    last_min_lsn = 0;
    max_flushed_lsn = 0;
    last_filled_lsn = 0;
    block_size = config.block_size;
    block_mask = config.block_size - 1;
    buf_size = config.bulk_flush_size;
  }

  pub good_first :
      (quota : ℕ) (bytes : List ℕ)
      → 0 < config.max_data_rot_size
      → quota < 2 ^ 32
      → GoodDisk (data_prefix name) quota (two_files bytes) (first_files.data_app)
  good_first quota bytes h l = record {
    front = record { name = first_mani name; bytes = bytes } ∷ [];
    held = [];
    writer_no = (0, 1);
    disk_lem = refl;
    alone = (mani-not-data name, tt);
    parse_lem = parse-first_data name;
    older = (λ r e. absurd (none-ne-some r (sym (parse-first_mani name) ∙ e)), tt);
    writer_older = λ r e.
        let same = some-injective _ _ (sym (parse-first_data name) ∙ e) in
        (omega (arith, ap (λ r. r.0) same), omega (arith, ap (λ r. r.1) same));
    no_max = refl;
    sized = h;
    numbered = omega (arith, l);
  }

  pub begun :
      0 < config.max_data_rot_size
      → (next : ℕ) × (begin_task p name config first_files ≡ ok (first_fcb next))
  unfolding begin_task
  begun h =
      let (next, e) = remove_no_use_rots_none (data_prefix name) 0 0 (two_files []) refl (
        all-Older (data_prefix name) 0 (two_files []) (first_files.data_app)
          (good_first 0 [] h (omega arith))) in
      (next, rw (e, mani_flushed next))

  -- No entries are there yet.
  pub first_stream : (bytes : List ℕ) → stream_of (data_prefix name) (two_files bytes) ≡ []
  first_stream bytes = rw (parse-first_mani name, parse-first_data name)
