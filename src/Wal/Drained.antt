-- ===== src/Wal/Drained.antt =====
-- A caller of `LogIterator` of src/wal/sync.rs gets the entries of whole blocks, in order.
use dbprimkit.Base.{
  ℕ, zero, suc, ◌+◌, ◌≤◌, ◌<◌, ◌≡◌, refl, sym, ap, ◌∙◌, List, [], ◌∷◌, ◌++◌, Bool, true, false,
  none, some, length, drop, arith, get_or, ==_refl,
}
use mathlib.Core.List.{cons≢nil}
use mathlib.Core.Path.{subst}
use dbprimkit.Error.{Outcome, ok, panic, ◌>>=◌}
use dbprimkit.Wal.Platform.{Platform}
use dbprimkit.Wal.Packing.{LogEntry}
use dbprimkit.Wal.Reading.{LogIterator, read_next, next}
use dbprimkit.Wal.Frames.{Block}
use dbprimkit.Wal.Refill.{Pending, Refilled, refill, reads}

-- Entries with consecutive LSNs.
abbrev pub Numbered : ℕ → List LogEntry → Type 0
Numbered n [] = Unit
Numbered n (e ∷ es) = (e.lsn ≡ n) × Numbered (n + 1) es

module _ (p : Platform) {Name : Type 0} (open_rot : Name → Outcome (List ℕ)) where
  -- The steps of a caller that takes entries until there are none.
  unfoldable pub collect : (fuel count : ℕ) → LogIterator Name → Outcome (List LogEntry)
  collect fuel zero it = panic
  collect fuel (suc count) it = do
    (entry, it) ← next p open_rot fuel it
    elim entry [ none ↦ ok [] | some e ↦ do es ← collect fuel count it; ok (e ∷ es) ]

  next-cached :
      (fuel : ℕ) (it : LogIterator Name) (e : LogEntry) (es : List LogEntry)
      → it.cached ≡ e ∷ es
      → e.lsn ≡ it.next_lsn
      → next p open_rot (suc fuel) it
        ≡ ok (some e, record it { cached = es; next_lsn = it.next_lsn + 1 })
  unfolding next
  next-cached fuel it e es c h = rw (c, next, h, ==_refl)

  next-refill :
      (fuel : ℕ) (it it' : LogIterator Name) (more : Bool)
      → it.cached ≡ []
      → read_next p open_rot fuel (length it.cached) it ≡ ok (more, it')
      → next p open_rot (suc fuel) it
        ≡ (elim more [ true ↦ next p open_rot fuel it' | false ↦ ok (none, it') ])
  unfolding next
  next-refill fuel it it' more c h = rw (c, next, h)

  -- A call of `next` that yields an entry.
  record Taken (limit fuel : ℕ) (it : LogIterator Name) (e : LogEntry) (es : List LogEntry)
      : Type 0 where
    it' : LogIterator Name
    bs' : List Block
    rots' : List (List Block)
    next_lem : next p open_rot fuel it ≡ ok (some e, it')
    next_lsn_lem : it'.next_lsn ≡ it.next_lsn + 1
    pending' : Pending p open_rot it' bs' rots' es
    limit_lem : length bs' + reads p open_rot rots' ≤ limit

  take_cached :
      (limit fuel : ℕ) (it : LogIterator Name) (bs : List Block) (rots : List (List Block))
      (e : LogEntry) (es : List LogEntry)
      → length bs + reads p open_rot rots ≤ limit
      → 0 < length it.cached
      → e.lsn ≡ it.next_lsn
      → Pending p open_rot it bs rots (e ∷ es)
      → Taken limit (suc fuel) it e es
  take_cached limit fuel it bs rots e es l k n w = on (it.cached) refl k
    where
      on : (c : List LogEntry) → it.cached ≡ c → 0 < length c → Taken limit (suc fuel) it e es
      on [] c k = absurd (omega arith)
      on (x ∷ xs) c k =
          let whole = sym (ap (λ l. l ++ w.late) c) ∙ w.cached_lem in
          let same : x ≡ e = ap (λ l. get_or l 0 x) whole in
          record {
            it' = record it { cached = xs; next_lsn = it.next_lsn + 1 };
            bs' = bs;
            rots' = rots;
            next_lem = next-cached fuel it e xs (c ∙ ap (λ y. y ∷ xs) same) n;
            next_lsn_lem = refl;
            pending' = record {
              late = w.late;
              ended = w.ended;
              size_pos = w.size_pos;
              reader_lem = w.reader_lem;
              whole = w.whole;
              rotations = w.rotations;
              frames_lem = w.frames_lem;
              cached_lem = ap (drop 1) whole;
            };
            limit_lem = l;
          }

  -- What `next` does when nothing is cached, told by what `read_next` ends in.
  take_refilled :
      (limit : ℕ) (it : LogIterator Name) (e : LogEntry) (es : List LogEntry)
      → it.cached ≡ []
      → e.lsn ≡ it.next_lsn
      → Refilled p open_rot (suc limit) 0 it (e ∷ es)
      → Taken limit (suc (suc limit)) it e es
  take_refilled limit it e es c n r = on (r.more) (r.read_next_lem) (r.none_more) (r.some_more)
    where
      on :
          (more : Bool)
          → read_next p open_rot (suc limit) 0 it ≡ ok (more, r.it')
          → (more ≡ false → e ∷ es ≡ [])
          → (more ≡ true → 0 < length r.it'.cached)
          → Taken limit (suc (suc limit)) it e es
      on false q none_more _ = absurd (cons≢nil (none_more refl))
      on true q _ some_more =
          let t =
            take_cached limit limit (r.it') (r.bs') (r.rots') e es (omega (arith, r.fewer))
              (some_more refl) (n ∙ sym (r.next_lsn_lem)) (r.pending') in
          record {
            it' = t.it';
            bs' = t.bs';
            rots' = t.rots';
            next_lem =
                next-refill (suc limit) it (r.it') true c
                  (ap (λ m. read_next p open_rot (suc limit) m it) {y = 0} (ap length c) ∙ q)
                ∙ t.next_lem;
            next_lsn_lem = t.next_lsn_lem ∙ ap (λ m. m + 1) (r.next_lsn_lem);
            pending' = t.pending';
            limit_lem = t.limit_lem;
          }

  taken :
      (limit : ℕ) (it : LogIterator Name) (bs : List Block) (rots : List (List Block))
      (e : LogEntry) (es : List LogEntry)
      → length bs + reads p open_rot rots ≤ limit
      → e.lsn ≡ it.next_lsn
      → Pending p open_rot it bs rots (e ∷ es)
      → Taken limit (suc (suc limit)) it e es
  taken limit it bs rots e es l n w = on (it.cached) refl
    where
      on : (c : List LogEntry) → it.cached ≡ c → Taken limit (suc (suc limit)) it e es
      on [] c =
          take_refilled limit it e es c n
            (refill p open_rot (suc limit) it bs rots (e ∷ es) (omega arith) c w)
      on (x ∷ xs) c =
          take_cached limit (suc limit) it bs rots e es l (omega (arith, ap length c)) n w

  -- Nothing is left.
  finished :
      (limit : ℕ) (it : LogIterator Name) (bs : List Block) (rots : List (List Block))
      → length bs + reads p open_rot rots ≤ limit
      → Pending p open_rot it bs rots []
      → (it' : LogIterator Name) × (next p open_rot (suc (suc limit)) it ≡ ok (none, it'))
  finished limit it bs rots l w =
      let c = no_front (it.cached) (w.late) (w.cached_lem) in
      on c (refill p open_rot (suc limit) it bs rots [] (omega arith) c w)
    where
      no_front : (xs ys : List LogEntry) → xs ++ ys ≡ [] → xs ≡ []
      no_front [] ys e = refl
      no_front (x ∷ xs) ys e = absurd (cons≢nil e)

      at :
          it.cached ≡ []
          → (r : Refilled p open_rot (suc limit) 0 it []) (more : Bool)
          → read_next p open_rot (suc limit) 0 it ≡ ok (more, r.it')
          → (more ≡ true → 0 < length r.it'.cached)
          → (it' : LogIterator Name) × (next p open_rot (suc (suc limit)) it ≡ ok (none, it'))
      at c r true q some_more =
          let none_cached = no_front (r.it'.cached) (r.pending'.late) (r.pending'.cached_lem) in
          absurd (omega (arith, ap length none_cached, some_more refl))
      at c r false q _ = (
        r.it',
        next-refill (suc limit) it (r.it') false c
            (ap (λ m. read_next p open_rot (suc limit) m it) {y = 0} (ap length c) ∙ q),
      )

      on :
          it.cached ≡ []
          → Refilled p open_rot (suc limit) 0 it []
          → (it' : LogIterator Name) × (next p open_rot (suc (suc limit)) it ≡ ok (none, it'))
      on c r = at c r (r.more) (r.read_next_lem) (r.some_more)

  -- A caller gets every entry that ends in the blocks ahead, in order, and then the end.
  pub collect_lem :
      (limit count : ℕ) (it : LogIterator Name) (bs : List Block) (rots : List (List Block))
      (es : List LogEntry)
      → length bs + reads p open_rot rots ≤ limit
      → length es < count
      → Numbered it.next_lsn es
      → Pending p open_rot it bs rots es
      → collect (suc (suc limit)) count it ≡ ok es
  unfolding collect
  collect_lem limit zero it bs rots es l k n w = absurd (omega arith)
  collect_lem limit (suc count) it bs rots [] l k n w =
      let f = finished limit it bs rots l w in rw (f.1)
  collect_lem limit (suc count) it bs rots (e ∷ es) l k (n, ns) w =
      let t = taken limit it bs rots e es l n w in
      rw (
        t.next_lem,
        collect_lem limit count (t.it') (t.bs') (t.rots') es (t.limit_lem) (omega arith)
            (subst (λ m. Numbered m es) (sym (t.next_lsn_lem)) ns) (t.pending'),
      )
