-- ===== src/Wal/Replay.antt =====
-- src/wal/sync.rs: a log from its first opening to the replay of what was appended.
use dbprimkit.Base.{
  ℕ, zero, suc, pow-two-suc, ◌+◌, ◌-◌, ◌*◌, ◌^◌, ◌≤◌, ◌<◌, ◌≡◌, refl, sym, ap, ◌∙◌, List, [], ◌++◌,
  true, Option, length, arith, pow-le, pow-two-pos, leb-false,
}
use mathlib.Core.Path.{subst}
use native.Mathlib.Nat.{mul_left_comm}
use dbprimkit.Error.{ok, ◌>>=◌}
use dbprimkit.Storage.{Name}
use dbprimkit.Appender.{app_needs_new_rot}
use dbprimkit.Wal.Platform.{Platform}
use dbprimkit.Wal.Config.{TunableConfig, from_opt}
use dbprimkit.Wal.ConfigFacts.{IsSane, from_opt-IsSane}
use dbprimkit.Wal.Packing.{LogEntry, FlushingControlBlock, pack, flush_idle}
use dbprimkit.Wal.Files.{Files}
use dbprimkit.Wal.DataDisk.{stream_of}
use dbprimkit.Wal.DataSink.{data_sink}
use dbprimkit.Wal.Restore.{mani_prefix, data_prefix, open_writer, begin_task}
use dbprimkit.Wal.FirstRun.{first_fcb, good_first, opened, begun, first_stream}
use dbprimkit.Wal.Handled.{flushes_of, Loggable}
use dbprimkit.Wal.Cuts.{open_file}
use dbprimkit.Wal.Drained.{Numbered, collect}
use dbprimkit.Wal.RoundTrip.{IsFresh, reading, collect-pack}

pow_sum : (d k : ℕ) → 2 ^ (d + k) ≡ 2 ^ d * 2 ^ k
pow_sum d zero = ap (λ n. 2 ^ n) {y = d} (omega arith) ∙ omega arith
pow_sum d (suc k) =
    ap (λ n. 2 ^ n) {y = suc (d + k)} (omega arith)
    ∙ pow-two-suc (d + k)
    ∙ ap (λ n. 2 * n) (pow_sum d k)
    ∙ mul_left_comm 2 (2 ^ d) (2 ^ k)
    ∙ ap (λ n. 2 ^ d * n) (sym (pow-two-suc k))

split_pow : (k j : ℕ) → k ≤ j → 2 ^ j ≡ 2 ^ (j - k) * 2 ^ k
split_pow k j h = ap (λ n. 2 ^ n) {y = (j - k) + k} (omega arith) ∙ pow_sum (j - k) k

module _ (p : Platform) (name : Name) (o : Option TunableConfig) where
  abbrev config : TunableConfig
  config = from_opt o

  -- The task of a new log is fresh.
  fresh :
      (quota next : ℕ)
      → 0 < config.max_data_rot_size
      → quota < 2 ^ 32
      → (k m : ℕ) × (52 < 2 ^ k)
        × (config.block_size ≡ 2 ^ k)
        × IsFresh
            (data_sink (data_prefix name) (mani_prefix name) p)
            quota
            k
            m
            (first_fcb p name config next)
  unfolding IsSane app_needs_new_rot
  fresh quota next sized l =
      let (k, j, lo, _, kj, _, b, f) = from_opt-IsSane o in
      (
        k,
        2 ^ (j - k),
        omega (arith, pow-le 12 k lo),
        b,
        record {
          good = record {
            good_disk = good_first p name config quota _ sized l;
            none_dropped = refl;
          };
          last_lem = refl;
          calm = leb-false config.max_data_rot_size 0 sized;
          data_buf_lem = refl;
          block_size_lem = b;
          block_mask_lem = ap (λ n. n - 1) b;
          buf_size_lem = f ∙ split_pow k j kj;
          some_block = pow-two-pos (j - k);
        },
      )

  -- From an empty directory, whatever configuration is asked for, as long as its rotations may hold a
  -- byte: a writer opens, entries that are numbered from 1, with LSNs that fit 8 bytes and payloads that
  -- are not empty and fit 4 bytes, and of which twice the bytes and three for each of them stay below
  -- 2^32 - 1, are packed, and an idle task flushes the rest, all without an error or a panic, while the
  -- minimum LSN stays 0. However the bytes that the data rotations then hold, one behind the other, are cut
  -- into files of whole blocks, an iterator at the first of these files with the others behind it yields
  -- the entries, in order, and then the end.
  pub replay :
      (cuts : List ℕ) (entries : List LogEntry)
      → 0 < config.max_data_rot_size
      → Loggable entries
      → Numbered 1 entries
      → flushes_of entries + 1 < 2 ^ 32
      → (fcb fcb' : FlushingControlBlock Files) × ((open_writer p name config []
            >>= begin_task p name config)
          ≡ ok fcb)
        × ((pack p (data_sink (data_prefix name) (mani_prefix name) p) entries fcb
              >>= flush_idle p (data_sink (data_prefix name) (mani_prefix name) p) true)
            ≡ ok fcb')
        × (let written = stream_of (data_prefix name) fcb'.app.disk in
            collect p open_file
              (suc (suc (length written + length cuts)))
              (suc (length entries))
              (reading 1 config.block_size cuts written)
            ≡ ok entries)
  replay cuts entries sized l ns few =
      let (next, started) = begun p name config sized in
      let (k, m, big, b, f) = fresh (flushes_of entries + 1) next sized few in
      let (fcb', written, ran, grown, read) =
        collect-pack p (data_sink (data_prefix name) (mani_prefix name) p) k m cuts 1 entries
          (first_fcb p name config next) big f l ns in
      (
        first_fcb p name config next,
        fcb',
        rw (opened p name config) started,
        ran,
        subst
            (λ bytes.
              collect p open_file (suc (suc (length bytes + length cuts))) (suc (length entries))
                (reading 1 config.block_size cuts bytes)
              ≡ ok entries)
            (sym (grown ∙ ap (λ l. l ++ written) (first_stream p name config _)))
            (subst
              (λ size.
                collect p open_file (suc (suc (length written + length cuts)))
                  (suc (length entries)) (reading 1 size cuts written)
                ≡ ok entries)
              (sym b) read),
      )
