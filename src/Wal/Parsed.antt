-- ===== src/Wal/Parsed.antt =====
-- `read_next` of src/wal/sync.rs reads the frames of a block.
use dbprimkit.Base.{
  ℕ, zero, suc, not, ◌+◌, ◌^◌, ◌≤◌, ◌<◌, ◌≡◌, refl, sym, ap, ◌∙◌, List, [], ◌∷◌, ◌++◌, Bool, true,
  false, Option, none, some, length, take, drop, replicate, ltb, ◌==◌, if◌then◌else◌, arith,
  append_assoc, append-nil, length-append, length-replicate, ltb_false→le, ◌-◌,
  take-append_of_length, drop-append_of_length, ltb-false, ==_iff, some-injective, none-ne-some,
  ⊎-elim, Bool-cases,
}
use dbprimkit.Error.{Error, Outcome, err, ok}
use dbprimkit.Wal.Platform.{Platform}
use dbprimkit.Wal.Fullness.{Fullness, full, first, middle, last}
use dbprimkit.Wal.LogFacts.{framed, entry_of, decode-framed, length-framed, small}
use dbprimkit.Wal.Packing.{LogEntry}
use dbprimkit.Wal.Reading.{LogIterator, take_in, is_done, read_logs, read_block}
use dbprimkit.Wal.Frames.{
  Frame, Partial, advance, advance_all, behind, and_then, IsClean, Clean, Block, frame_bytes,
  block_bytes, IsWhole,
}

-- The parts that an iterator holds.
abbrev pub partial_of : {Name : Type 0} → LogIterator Name → Partial
partial_of it = record { lsn = it.middle_log_lsn; bufs = it.middle_log_bufs }

-- The iterator after entries have been cached, and with other parts.
abbrev pub gained : {Name : Type 0} → LogIterator Name → List LogEntry → Partial → LogIterator Name
gained it es m = record it {
  cached = it.cached ++ es;
  middle_log_lsn = m.lsn;
  middle_log_bufs = m.bufs;
}

behind-and_then :
    (es : List LogEntry) (o : Option (List LogEntry × Partial))
    (k : Partial → Option (List LogEntry × Partial))
    → and_then (behind es o) k ≡ behind es (and_then o k)
behind-and_then es none k = refl
behind-and_then es (some (fs, m)) k = again (k m)
  where
    again : (o : Option (List LogEntry × Partial)) → behind (es ++ fs) o ≡ behind es (behind fs o)
    again none = refl
    again (some (gs, m)) = ap (λ l. some (l, m)) (append_assoc es fs gs)

pub advance_all-append :
    (fs gs : List Frame) (m : Partial)
    → advance_all (fs ++ gs) m ≡ and_then (advance_all fs m) (advance_all gs)
advance_all-append [] gs m = sym (nothing (advance_all gs m))
  where
    nothing : (o : Option (List LogEntry × Partial)) → behind [] o ≡ o
    nothing none = refl
    nothing (some _) = refl
advance_all-append (f ∷ fs) gs m = on (advance f m) (advance_all-append fs gs)
  where
    on :
        (o : Option (List LogEntry × Partial))
        → ((m : Partial) → advance_all (fs ++ gs) m ≡ and_then (advance_all fs m) (advance_all gs))
        → and_then o (advance_all (fs ++ gs))
          ≡ and_then (and_then o (advance_all fs)) (advance_all gs)
    on none h = refl
    on (some (es, m)) h =
        ap (behind es) (h m) ∙ sym (behind-and_then es (advance_all fs m) (advance_all gs))

-- Where a sequence of frames is read in two steps.
pub record Halves (o : Option (List LogEntry × Partial))
    (k : Partial → Option (List LogEntry × Partial)) (es : List LogEntry) (m : Partial)
    : Type 0 where
  pub early : List LogEntry
  pub between : Partial
  pub late : List LogEntry
  pub early_lem : o ≡ some (early, between)
  pub late_lem : k between ≡ some (late, m)
  pub both : early ++ late ≡ es

pub and_then-Halves :
    (o : Option (List LogEntry × Partial)) (k : Partial → Option (List LogEntry × Partial))
    (es : List LogEntry) (m : Partial)
    → and_then o k ≡ some (es, m)
    → Halves o k es m
and_then-Halves none k es m e = absurd (none-ne-some _ e)
and_then-Halves (some (early, between)) k es m e = on (k between) refl e
  where
    on :
        (o : Option (List LogEntry × Partial))
        → k between ≡ o
        → behind early o ≡ some (es, m)
        → Halves (some (early, between)) k es m
    on none h e = absurd (none-ne-some _ e)
    on (some (late, m')) h e =
        let both = some-injective _ _ e in
        record {
          early = early;
          between = between;
          late = late;
          early_lem = refl;
          late_lem = h ∙ ap (λ r. some (late, r.1)) both;
          both = ap (λ r. r.0) both;
        }

module _ (p : Platform) where
  module _ {Name : Type 0} where
    -- The part of a frame that goes on an entry, if its LSN is that of the entry.
    goes_on :
        (same : Bool) {r x : List LogEntry × Partial} {y z : Outcome (LogIterator Name)}
        → (if same then some x else none) ≡ some r
        → (x ≡ r → y ≡ z)
        → (e : Error) → (if not same then err e else y) ≡ z
    goes_on true e k _ = k (some-injective _ _ e)
    goes_on false {r = r} e k _ = absurd (none-ne-some r e)

    nothing_cached :
        (it : LogIterator Name) (m' : Partial) (es : List LogEntry) (m : Partial)
        → ◌≡◌ {A = List LogEntry × Partial} ([], m') (es, m)
        → ok (record it { middle_log_lsn = m'.lsn; middle_log_bufs = m'.bufs })
          ≡ ok (gained it es m)
    nothing_cached it m' es m e =
        ap (λ c. ok (record it { cached = c; middle_log_lsn = m'.lsn; middle_log_bufs = m'.bufs }))
          (sym (append-nil (it.cached)))
        ∙ ap (λ r. ok (gained it (r.0) (r.1))) e

    take_in_at :
        (lsn : ℕ) (payload : List ℕ) (f : Fullness) (l : ℕ) (bufs : List (List ℕ))
        (it : LogIterator Name) (es : List LogEntry) (m : Partial)
        → advance
            (record { lsn = lsn; payload = payload; fullness = f })
            (record { lsn = l; bufs = bufs })
          ≡ some (es, m)
        → take_in
            (entry_of p lsn payload f)
            (record it { middle_log_lsn = l; middle_log_bufs = bufs })
          ≡ ok (gained it es m)
    unfolding take_in
    take_in_at lsn payload full l bufs it es m e =
        ap (λ r. ok (gained it (r.0) (r.1))) (some-injective _ _ e)
    take_in_at lsn payload first l [] it es m e = nothing_cached it _ es m (some-injective _ _ e)
    take_in_at lsn payload first l (b ∷ bs) it es m e = absurd (none-ne-some _ e)
    take_in_at lsn payload middle l [] it es m e = absurd (none-ne-some _ e)
    take_in_at lsn payload middle l (b ∷ bs) it es m e =
        goes_on (l == lsn) e (nothing_cached it _ es m) _
    take_in_at lsn payload last l [] it es m e = absurd (none-ne-some _ e)
    take_in_at lsn payload last l (b ∷ bs) it es m e =
        goes_on (l == lsn) e (ap λ r. ok (gained it (r.0) (r.1))) _

    take_in-advance :
        (f : Frame) (it : LogIterator Name) (es : List LogEntry) (m : Partial)
        → advance f (partial_of it) ≡ some (es, m)
        → take_in (entry_of p f.lsn f.payload f.fullness) it ≡ ok (gained it es m)
    take_in-advance f it es m e =
        take_in_at f.lsn f.payload f.fullness it.middle_log_lsn it.middle_log_bufs it es m e

  open p use {to_ne_bytes, from_ne_bytes, crc32c}

  zero-append :
      (xs ys : List ℕ)
      → length xs ≡ 4
      → length ys ≡ 4
      → from_ne_bytes (xs ++ ys) ≡ 0
      → ys ≡ replicate 4 0
  zero-append xs ys h k e =
      sym (drop-append_of_length 4 xs ys h)
      ∙ ap (drop 4) (p.from_ne_bytes_zero _ e)
      ∙ ap (λ n. drop 4 (replicate n 0)) {y = 8} (omega (arith, length-append xs ys))

  is_zero : (n : ℕ) → n < 2 ^ 32 → to_ne_bytes 4 n ≡ replicate 4 0 → n ≡ 0
  is_zero n h e =
      sym (p.from_ne_bytes-to_ne_bytes 4 n h)
      ∙ ap from_ne_bytes (e ∙ sym (p.to_ne_bytes-zero 4))
      ∙ p.from_ne_bytes-to_ne_bytes 4 0 (omega arith)

  -- The two fields that `read_next` looks at are not both zero.
  fields-zero :
      (sum n : ℕ) (rest : List ℕ)
      → n < 2 ^ 32
      → 0 < n
      → (from_ne_bytes (take 8 (to_ne_bytes 4 sum ++ (to_ne_bytes 4 n ++ rest))) == 0) ≡ false
  fields-zero sum n rest h k =
      ⊎-elim
        (Bool-cases (from_ne_bytes (take 8 (to_ne_bytes 4 sum ++ (to_ne_bytes 4 n ++ rest))) == 0))
        (λ e.
          let z = is_zero n h (
            zero-append (to_ne_bytes 4 sum) (to_ne_bytes 4 n) (p.length-to_ne_bytes 4 sum)
              (p.length-to_ne_bytes 4 n) (ap from_ne_bytes (sym first_eight) ∙ (==_iff _ 0).0 e)) in
          absurd (omega arith))
        (λ e. e)
    where
      first_eight :
          take 8 (to_ne_bytes 4 sum ++ (to_ne_bytes 4 n ++ rest))
          ≡ to_ne_bytes 4 sum ++ to_ne_bytes 4 n
      first_eight =
          ap (take 8) (sym (append_assoc (to_ne_bytes 4 sum) (to_ne_bytes 4 n) rest))
          ∙ take-append_of_length 8 _ rest (simp (length-append, p.length-to_ne_bytes))

  is_done-framed :
      (lsn : ℕ) (payload rest : List ℕ) (f : Fullness)
      → length payload < 2 ^ 32
      → 0 < length payload
      → is_done p (framed p lsn payload f ++ rest) ≡ false
  is_done-framed lsn payload rest f h k = rw (
    ltb-false (length (framed p lsn payload f ++ rest)) 20
        (omega (arith, length-append (framed p lsn payload f) rest, length-framed p lsn payload f)),
    append_assoc,
    append_assoc,
    small p (length payload) h,
    fields-zero,
  )

  zeros : from_ne_bytes (replicate 8 0) ≡ 0
  zeros =
      ap from_ne_bytes (sym (p.to_ne_bytes-zero 8)) ∙ p.from_ne_bytes-to_ne_bytes 8 0 (omega arith)

  is_done-zeros : (n : ℕ) → is_done p (replicate n 0) ≡ true
  is_done-zeros n =
      ⊎-elim (Bool-cases (ltb n 20)) (λ e. rw (length-replicate, e))
        λ e.
          let long = ltb_false→le n 20 e in
          rw (length-replicate, e)
            (ap (λ k. from_ne_bytes (take 8 (replicate k 0)) == 0) {x = n}
                {y = suc (suc (suc (suc (suc (suc (suc (suc (n - 8))))))))} (omega arith)
              ∙ ap (λ k. k == 0) zeros)

  is_done-frames :
      (f : Frame) (fs : List Frame) (rest : List ℕ)
      → IsClean f
      → is_done p (frame_bytes p (f ∷ fs) ++ rest) ≡ false
  is_done-frames f fs rest (_, h, k) =
      ap (is_done p) (append_assoc (framed p f.lsn f.payload f.fullness) (frame_bytes p fs) rest)
      ∙ is_done-framed f.lsn f.payload (frame_bytes p fs ++ rest) f.fullness h k

  length-frame_bytes : (fs : List Frame) → length fs ≤ length (frame_bytes p fs)
  length-frame_bytes [] = omega arith
  length-frame_bytes (f ∷ fs) = omega (
    arith,
    length-append (framed p f.lsn f.payload f.fullness) (frame_bytes p fs),
    length-framed p f.lsn f.payload f.fullness,
    length-frame_bytes fs,
  )

  module _ {Name : Type 0} where
    gained-gained :
        (it : LogIterator Name) (es fs gs : List LogEntry) (m m' : Partial)
        → es ++ fs ≡ gs
        → gained (gained it es m') fs m ≡ gained it gs m
    gained-gained it es fs gs m m' e =
        ap (λ c. record it { cached = c; middle_log_lsn = m.lsn; middle_log_bufs = m.bufs })
          (append_assoc (it.cached) es fs ∙ ap (λ l. it.cached ++ l) e)

    read_logs_lem :
        (f : Frame) (fs : List Frame) (pad fuel : ℕ) (it : LogIterator Name) (es : List LogEntry)
        (m : Partial)
        → Clean (f ∷ fs)
        → length fs < fuel
        → advance_all (f ∷ fs) (partial_of it) ≡ some (es, m)
        → read_logs p fuel (frame_bytes p (f ∷ fs) ++ replicate pad 0) it ≡ ok (gained it es m)
    unfolding read_logs
    read_logs_lem f fs pad zero it es m c l e = absurd (omega arith)
    read_logs_lem f [] pad (suc fuel) it es m ((hl, hp, _), _) l e =
        let h = and_then-Halves _ _ es m e in
        rw (append_assoc, decode-framed p f.lsn f.payload _ f.fullness hp (omega (arith, hl)))
          (rw (take_in-advance f it (h.early) (h.between) (h.early_lem), is_done-zeros pad)
            (nothing_cached (gained it (h.early) (h.between)) _ (h.late) m
                (some-injective _ _ (h.late_lem))
              ∙ ap ok (gained-gained it (h.early) (h.late) es m (h.between) (h.both))))
    read_logs_lem f (g ∷ fs) pad (suc fuel) it es m ((hl, hp, _), c) l e =
        let h = and_then-Halves _ _ es m e in
        rw (append_assoc, decode-framed p f.lsn f.payload _ f.fullness hp (omega (arith, hl)))
          (rw
            (
              take_in-advance f it (h.early) (h.between) (h.early_lem),
              is_done-frames g fs (replicate pad 0) (c.0),
            )
            (read_logs_lem g fs pad fuel (gained it (h.early) (h.between)) (h.late) m c
                (omega arith) (h.late_lem)
              ∙ ap ok (gained-gained it (h.early) (h.late) es m (h.between) (h.both))))

    -- A block is read to the entries that end in it and the parts that are open after it.
    pub read_block_lem :
        (size : ℕ) (b : Block) (it : LogIterator Name) (es : List LogEntry) (m : Partial)
        → IsWhole p size b
        → advance_all (b.frames) (partial_of it) ≡ some (es, m)
        → read_block p (block_bytes p b) it ≡ ok (gained it es m)
    unfolding read_block
    read_block_lem size b it es m (h, l, c, some_frame) e =
        rw (drop-append_of_length 32 (b.header) (frame_bytes p (b.frames) ++ replicate (b.pad) 0) h)
          (on (b.frames) c some_frame e (length-append (b.header) _)
            (length-append (frame_bytes p (b.frames)) (replicate (b.pad) 0)))
      where
        on :
            (fs : List Frame)
            → Clean fs
            → 0 < length fs
            → advance_all fs (partial_of it) ≡ some (es, m)
            → length (block_bytes p b)
              ≡ length (b.header) + length (frame_bytes p fs ++ replicate (b.pad) 0)
            → length (frame_bytes p fs ++ replicate (b.pad) 0)
              ≡ length (frame_bytes p fs) + length {A = ℕ} (replicate (b.pad) 0)
            → read_logs p (length (block_bytes p b)) (frame_bytes p fs ++ replicate (b.pad) 0) it
              ≡ ok (gained it es m)
        on [] c k e _ _ = absurd (omega arith)
        on (f ∷ fs) c k e a b' =
            read_logs_lem f fs (b.pad) _ it es m c (omega (arith, length-frame_bytes (f ∷ fs))) e
