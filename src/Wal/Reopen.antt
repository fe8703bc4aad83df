-- ===== src/Wal/Reopen.antt =====
-- src/wal/sync.rs: what `restore_lsn` makes of a newest data rotation that is empty.
use dbprimkit.Base.{
  ℕ, ◌*◌, ◌^◌, ◌<◌, ◌≡◌, sym, ap, ◌∙◌, List, [], ◌∷◌, append-nil, pow-two-pos,
  take-append_of_length, Bool, true, false, Option, some, length, take, arith, append_assoc, lt→ltb,
  drop-length-append, ==_gt,
}
use dbprimkit.Error.{ok, err, corrupt_file, ◌>>=◌}
use dbprimkit.Storage.{Name, Disk, list_files, file_size, contents}
use dbprimkit.Storage.Names.{name_eq_refl}
use dbprimkit.Appender.{
  RotNameProvider, with_rot_name_resolver, restore_latest_rot_info, list_rot_names,
}
use dbprimkit.Wal.Platform.{Platform}
use dbprimkit.Wal.ManiEntry
use dbprimkit.Wal.ManiFacts.{mani_decode-encode}
use dbprimkit.Wal.Config.{TunableConfig, from_opt}
use dbprimkit.Wal.ConfigFacts.{IsSane, from_opt-IsSane}
use dbprimkit.Wal.RotNames.{
  default_rnp, data_rnp, starts_with, padded, parse_uint, is_some, number, gen_rot_name,
}
use dbprimkit.Wal.RotNameFacts.{starts_with-append, starts_with-cancel, parse_uint-padded}
use dbprimkit.Wal.Packing.{FlushingControlBlock}
use dbprimkit.Wal.Files.{Files}
use dbprimkit.Wal.Restore.{
  mani_prefix, data_prefix, open_writer, begin_task, new_wal_fields, restore_lsn,
  restore_latest_rot, read_latest_manifest_entry, restore_lsn_from_data,
}
use dbprimkit.Wal.FirstRun.{
  first_mani, first_data, two_files, entry, length-entry, first_fcb, opened, begun,
  parse-first_mani, parse-first_data, mani-not-data,
}

module _ (p : Platform) (name : Name) (config : TunableConfig) where
  abbrev files : Disk
  files = two_files p name config (entry p name config)

  only_mani :
      (accepts : Name → Bool)
      → accepts (first_mani name) ≡ true
      → accepts (first_data name) ≡ false
      → list_files accepts files ≡ first_mani name ∷ []
  unfolding list_files
  only_mani accepts a b = rw (a, b)

  only_data :
      (accepts : Name → Bool)
      → accepts (first_mani name) ≡ false
      → accepts (first_data name) ≡ true
      → list_files accepts files ≡ first_data name ∷ []
  unfolding list_files
  only_data accepts a b = rw (a, b)

  restored :
      (rnp : RotNameProvider) (n : Name) (rot_no : ℕ)
      → list_files rnp.accepts files ≡ n ∷ []
      → rnp.number_of n ≡ some rot_no
      → restore_latest_rot_info rnp files ≡ ok (some (rot_no, n))
  unfolding restore_latest_rot_info list_rot_names
  restored rnp n rot_no e h =
      let e' : list_rot_names rnp files ≡ n ∷ [] = e in rw (e', restore_latest_rot_info, h)

  not_data : starts_with (mani_prefix name) (first_data name) ≡ false
  unfolding gen_rot_name
  not_data =
      ap (starts_with (mani_prefix name)) (append_assoc name _ _) ∙ starts_with-cancel name _ _

  mani_info :
      restore_latest_rot_info (default_rnp (mani_prefix name)) files
      ≡ ok (some (0, first_mani name))
  unfolding default_rnp
  mani_info =
      restored (default_rnp (mani_prefix name)) (first_mani name) 0
        (only_mani _ (starts_with-append (mani_prefix name) (padded 10 0)) not_data)
        (ap (parse_uint (2 ^ 32)) (drop-length-append (mani_prefix name) (padded 10 0))
          ∙ parse_uint-padded (2 ^ 32) 10 0 (omega arith) (omega arith) (omega arith) (omega arith))

  data_info :
      restore_latest_rot_info (data_rnp (data_prefix name) 0) files ≡ ok (some (0, first_data name))
  unfolding data_rnp
  data_info =
      restored (data_rnp (data_prefix name) 0) (first_data name) 0
        (only_data _ (ap is_some (parse-first_mani name)) (ap is_some (parse-first_data name)))
        (ap number (parse-first_data name))

  rotator :
      (rnp : RotNameProvider) (n : Name) (rot_no max size : ℕ)
      → restore_latest_rot_info rnp files ≡ ok (some (rot_no, n))
      → with_rot_name_resolver rnp max size files
        ≡ ok (record {
          latest_rot_name = some n;
          cur_rot_no = rot_no;
          max_rot = max;
          rot_size_max = size;
        })
  unfolding with_rot_name_resolver
  rotator rnp n rot_no max size e = rw (e)

  sized :
      (n : Name) (bytes : List ℕ)
      → contents n files ≡ some bytes
      → file_size n files ≡ ok (length bytes)
  unfolding file_size
  sized n bytes h = rw (h, file_size)

  latest :
      (rnp : RotNameProvider) (n : Name) (rot_no : ℕ) (bytes : List ℕ)
      → restore_latest_rot_info rnp files ≡ ok (some (rot_no, n))
      → contents n files ≡ some bytes
      → restore_latest_rot rnp files ≡ ok (some (bytes, length bytes))
  unfolding restore_latest_rot
  latest rnp n rot_no bytes e h = rw (e, h, sized n bytes h)

  mani_contents : contents (first_mani name) files ≡ some (entry p name config)
  mani_contents = rw (name_eq_refl (first_mani name))

  data_contents : contents (first_data name) files ≡ some []
  data_contents = rw (mani-not-data name, name_eq_refl (first_data name))

  read_one :
      {e : ManiEntry.DiskManiEntry} {rest : List ℕ} (bytes : List ℕ)
      → length bytes ≡ 16
      → ManiEntry.decode p bytes ≡ ok (e, rest)
      → read_latest_manifest_entry p bytes 16 ≡ ok e.min_lsn
  unfolding read_latest_manifest_entry
  read_one bytes l d =
      rw (l, ap (take 16) (sym (append-nil bytes)) ∙ take-append_of_length 16 bytes [] l, d)

  mani_entry :
      read_latest_manifest_entry p (entry p name config) (length (entry p name config)) ≡ ok 0
  mani_entry =
      ap (read_latest_manifest_entry p (entry p name config)) (length-entry p name config)
      ∙ read_one (entry p name config) (length-entry p name config) (
          ap (ManiEntry.decode p) (sym (append-nil (entry p name config)))
          ∙ mani_decode-encode p 0 [] (omega arith))

  not_restored :
      0 < config.block_size
      → restore_lsn p name config.block_size files ≡ err (corrupt_file "The data file is too small")
  unfolding restore_lsn restore_lsn_from_data
  not_restored h = rw (
    latest (default_rnp (mani_prefix name)) (first_mani name) 0 (entry p name config) mani_info
        mani_contents,
    ==_gt (length (entry p name config)) 0 (omega (arith, length-entry p name config)),
    mani_entry,
    latest (data_rnp (data_prefix name) 0) (first_data name) 0 [] data_info data_contents,
    ==_gt (length (entry p name config)) 0 (omega (arith, length-entry p name config)),
    lt→ltb 0 config.block_size h,
  )

  not_opened :
      0 < config.block_size
      → new_wal_fields p name config files ≡ err (corrupt_file "The data file is too small")
  unfolding new_wal_fields
  not_opened h = rw (
    rotator (default_rnp (mani_prefix name)) (first_mani name) 0 2 (64 * 1024) mani_info,
    rotator (data_rnp (data_prefix name) 0) (first_data name) 0 0 config.max_data_rot_size
        data_info,
    not_restored h,
  )

-- A log that was opened for writing in an empty directory, where its rotations may hold a byte, and was
-- left before anything was flushed, cannot be opened again, neither by a writer nor by a reader: the
-- manifest holds an entry then, and the empty data rotation is refused as too small.
pub new_wal_fields-begin_task :
    (p : Platform) (name : Name) (o : Option TunableConfig)
    → 0 < (from_opt o).max_data_rot_size
    → (fcb : FlushingControlBlock Files) × ((open_writer p name (from_opt o) []
          >>= begin_task p name (from_opt o))
        ≡ ok fcb)
      × (new_wal_fields p name (from_opt o) fcb.app.disk
          ≡ err (corrupt_file "The data file is too small"))
unfolding IsSane
new_wal_fields-begin_task p name o sized =
    let (next, started) = begun p name (from_opt o) sized in
    let (k, _, _, _, _, _, b, _) = from_opt-IsSane o in
    (
      first_fcb p name (from_opt o) next,
      rw (opened p name (from_opt o)) started,
      not_opened p name (from_opt o) (omega (arith, b, pow-two-pos k)),
    )
