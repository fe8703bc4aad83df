-- ===== src/SkipList/History.antt =====
-- A new map and any number of insertions: what `get` then answers.
use dbprimkit.Base.{
  ℕ, zero, suc, ◌≤◌, ◌≡◌, ◌≢◌, refl, sym, ap, ap₂, ◌∙◌, inl, inr, List, [], ◌∷◌, ◌++◌, Option, none,
  some, arith, min, max, replicate, none-ne-some, Option-cases, ⊎-elim,
}
use dbprimkit.Error.{Outcome, ok, ◌>>=◌}
use dbprimkit.SkipList.{Order, SkipListMap, new, max_allowed}
use dbprimkit.SkipList.Search.{get}
use dbprimkit.SkipList.Update.{insert}
use dbprimkit.SkipList.Model.{Entry, links, lookup, IsRep}
use dbprimkit.SkipList.Find.{Ordering-cases, lookup-skip, lookup-miss, lookup-this}
use dbprimkit.SkipList.Reads.{value_of, reads_lem}
use dbprimkit.SkipList.Prec.{before, from, before-lt, from-lt}
use dbprimkit.SkipList.InPlace.{insert_entry}
use dbprimkit.SkipList.Insert.{new_entry, insert_lem}
use dbprimkit.SkipList.Replace.{
  replace, revalued, replace-other, replace-above, replace-this, replace_lem,
}
use Prim.Native.Nat.{Ordering}
use mathlib.Core.Path.{subst}

lt≢eq : Ordering.lt ≢ Ordering.eq
lt≢eq h = ground arith

gt≢eq : Ordering.gt ≢ Ordering.eq
gt≢eq h = ground arith

module _ {K V : Type 0} (order : Order K) where
  -- The value under `k` after `v` was put under `key`, and before that `o` was under `k`.
  abbrev pub over : K → V → K → Option V → Option V
  over key v k o = elim (order.cmp key k) [ Ordering.eq ↦ some v | _ ↦ o ]

  -- Putting a value under a key above or below changes nothing under `k`.
  over-ne :
      (key : K) (v : V) (k : K) (o : Option V) → order.cmp key k ≢ Ordering.eq → over key v k o ≡ o
  over-ne key v k o n = elim (Ordering-cases (order.cmp key k)) [
    | inl c ↦ rw (c, over)
    | inr (inl c) ↦ absurd (n c)
    | inr (inr c) ↦ rw (c, over)
  ]

  over-eq :
      (key : K) (v : V) (k : K) (o : Option V)
      → order.cmp key k ≡ Ordering.eq
      → over key v k o ≡ some v
  over-eq key v k o c = rw (c, over)

  value-cons :
      (x : Entry K V) (es : List (Entry K V)) (k : K)
      → value_of (lookup order (x ∷ es) k) ≡ over (x.key) (x.value) k (value_of (lookup order es k))
  value-cons x es k = elim (Ordering-cases (order.cmp (x.key) k)) [
    | inl c ↦
        ap value_of (lookup-skip order x es k c)
        ∙ sym (over-ne (x.key) (x.value) k _ (λ z. lt≢eq (sym c ∙ z)))
    | inr (inl c) ↦ ap value_of (lookup-this order x es k c) ∙ sym (over-eq (x.key) (x.value) k _ c)
    | inr (inr c) ↦
        ap value_of (lookup-miss order x es k c)
        ∙ sym (over-ne (x.key) (x.value) k _ (λ z. gt≢eq (sym c ∙ z)))
  ]

  -- The order of two entries with different keys does not count.
  over-swap :
      (a b : K) (v w : V) (k : K) (o : Option V)
      → order.cmp a b ≢ Ordering.eq
      → over a v k (over b w k o) ≡ over b w k (over a v k o)
  over-swap a b v w k o n = elim (Ordering-cases (order.cmp a k)) [
    | inl c ↦ apart-left (λ z. lt≢eq (sym c ∙ z))
    | inr (inl c) ↦ same c
    | inr (inr c) ↦ apart-left (λ z. gt≢eq (sym c ∙ z))
  ]
    where
      apart-left :
          order.cmp a k ≢ Ordering.eq → over a v k (over b w k o) ≡ over b w k (over a v k o)
      apart-left m = over-ne a v k (over b w k o) m ∙ ap (over b w k) (sym (over-ne a v k o m))

      same : order.cmp a k ≡ Ordering.eq → over a v k (over b w k o) ≡ over b w k (over a v k o)
      same c =
          over-eq a v k (over b w k o) c
          ∙ sym (over-eq a v k o c)
          ∙ sym (
              over-ne b w k (over a v k o) (λ z. n (
                subst (λ y. order.cmp a y ≡ Ordering.eq)
                  (order.eq_of-cmp a k c ∙ sym (order.eq_of-cmp b k z)) (order.cmp_refl a))))

  value-insert :
      (e : Entry K V) (es : List (Entry K V)) (k : K)
      → lookup order es (e.key) ≡ none
      → value_of (lookup order (insert_entry order (e.key) e es) k)
        ≡ over (e.key) (e.value) k (value_of (lookup order es k))
  value-insert e [] k l = value-cons e [] k
  value-insert e (x ∷ es) k l = elim (Ordering-cases (order.cmp (x.key) (e.key))) [
    | inl c ↦
        ap (λ t. value_of (lookup order t k))
          (ap₂ (λ a b. a ++ (e ∷ b)) (before-lt order (e.key) x es c)
            (from-lt order (e.key) x es c))
        ∙ value-cons x (insert_entry order (e.key) e es) k
        ∙ ap (over (x.key) (x.value) k)
            (value-insert e es k (sym (lookup-skip order x es (e.key) c) ∙ l))
        ∙ over-swap (x.key) (e.key) (x.value) (e.value) k _ (λ z. lt≢eq (sym c ∙ z))
        ∙ ap (over (e.key) (e.value) k) (sym (value-cons x es k))
    | inr (inl c) ↦ absurd (none-ne-some x (sym l ∙ lookup-this order x es (e.key) c))
    | inr (inr c) ↦ ap (λ t. value_of (lookup order t k)) (in_front c) ∙ value-cons e (x ∷ es) k
  ]
    where
      nothing_before : order.cmp (x.key) (e.key) ≡ Ordering.gt → before order (e.key) (x ∷ es) ≡ []
      nothing_before c = rw (c, before)

      all_from : order.cmp (x.key) (e.key) ≡ Ordering.gt → from order (e.key) (x ∷ es) ≡ x ∷ es
      all_from c = rw (c, from)

      in_front :
          order.cmp (x.key) (e.key) ≡ Ordering.gt
          → insert_entry order (e.key) e (x ∷ es) ≡ e ∷ (x ∷ es)
      in_front c = ap₂ (λ a b. a ++ (e ∷ b)) (nothing_before c) (all_from c)

  over-over : (a : K) (v w : V) (k : K) (o : Option V) → over a v k o ≡ over a v k (over a w k o)
  over-over a v w k o = elim (Ordering-cases (order.cmp a k)) [
    | inl c ↦ ap (over a v k) (sym (over-ne a w k o (λ z. lt≢eq (sym c ∙ z))))
    | inr (inl c) ↦ over-eq a v k o c ∙ sym (over-eq a v k (over a w k o) c)
    | inr (inr c) ↦ ap (over a v k) (sym (over-ne a w k o (λ z. gt≢eq (sym c ∙ z))))
  ]

  value-replace :
      (key : K) (v : V) (es : List (Entry K V)) (e : Entry K V) (k : K)
      → lookup order es key ≡ some e
      → value_of (lookup order (replace order key v es) k)
        ≡ over key v k (value_of (lookup order es k))
  value-replace key v [] e k l = absurd (none-ne-some e l)
  value-replace key v (x ∷ es) e k l = elim (Ordering-cases (order.cmp (x.key) key)) [
    | inl c ↦
        ap (λ t. value_of (lookup order t k)) (replace-other order key v x es c)
        ∙ deeper (λ z. lt≢eq (sym c ∙ z))
            (value-replace key v es e k (sym (lookup-skip order x es key c) ∙ l))
    | inr (inl c) ↦
        ap (λ t. value_of (lookup order t k)) (replace-this order key v x es c)
        ∙ here (order.eq_of-cmp (x.key) key c)
    | inr (inr c) ↦
        ap (λ t. value_of (lookup order t k)) (replace-above order key v x es c)
        ∙ deeper (λ z. gt≢eq (sym c ∙ z))
            (value-replace key v es e k (sym (lookup-miss order x es key c) ∙ l))
  ]
    where
      deeper :
          order.cmp (x.key) key ≢ Ordering.eq
          → value_of (lookup order (replace order key v es) k)
            ≡ over key v k (value_of (lookup order es k))
          → value_of (lookup order (x ∷ replace order key v es) k)
            ≡ over key v k (value_of (lookup order (x ∷ es) k))
      deeper n h =
          value-cons x (replace order key v es) k
          ∙ ap (over (x.key) (x.value) k) h
          ∙ over-swap (x.key) key (x.value) v k _ n
          ∙ ap (over key v k) (sym (value-cons x es k))

      here :
          x.key ≡ key
          → value_of (lookup order (revalued order key v x ∷ es) k)
            ≡ over key v k (value_of (lookup order (x ∷ es) k))
      here q =
          value-cons (revalued order key v x) es k
          ∙ over-over (x.key) v (x.value) k _
          ∙ ap (over (x.key) v k) (sym (value-cons x es k))
          ∙ ap (λ a. over a v k (value_of (lookup order (x ∷ es) k))) q

  -- The map stands for some list, in which `k` has the value `latest k`.
  abbrev Holds : SkipListMap K V → (K → Option V) → Type 0
  Holds m latest =
      (es : List (Entry K V)) × IsRep order m es
      × (m.max_height ≤ max_allowed)
      × ((k : K) → value_of (lookup order es k) ≡ latest k)

  new_lem : (max_height : ℕ) → Holds (new max_height) (λ k. none)
  unfolding new
  new_lem max_height = (
    [],
    record {
      tall = omega arith;
      heads = empty_heads (max 1 (min max_height max_allowed)) 0;
      stored = tt;
      ascending = tt;
      room = omega arith;
      counted = refl;
    },
    omega arith,
    λ k. refl,
  )
    where
      empty_heads : (n l : ℕ) → replicate n none ≡ links {K = K} {V = V} l n []
      empty_heads zero l = refl
      empty_heads (suc n) l = ap (λ xs. none ∷ xs) (empty_heads n (suc l))

  step_lem :
      (m : SkipListMap K V) (latest : K → Option V) (r : ℕ) (key : K) (value : V)
      → Holds m latest
      → (n : SkipListMap K V) × (insert order m r key value ≡ ok (latest key, n))
        × Holds n (λ k. over key value k (latest k))
  step_lem m latest r key value (es, rep, a, h) =
      ⊎-elim (Option-cases (lookup order es key))
        (λ l.
          let (n, s, rep', q) = insert_lem order m es r key value rep a l in
          (
            n,
            s ∙ ap (λ o. ok (o, n)) (ap value_of (sym l) ∙ h key),
            (
              insert_entry order key (new_entry order m r key value) es,
              rep',
              omega (arith, q),
              λ k.
                  value-insert (new_entry order m r key value) es k l ∙ ap (over key value k) (h k),
            ),
          ))
        (λ (e, l).
          let (n, s, rep', q) = replace_lem order key value m es e r rep a l in
          (
            n,
            s ∙ ap (λ o. ok (o, n)) (ap value_of (sym l) ∙ h key),
            (
              replace order key value es,
              rep',
              omega (arith, q),
              λ k. value-replace key value es e k l ∙ ap (over key value k) (h k),
            ),
          ))

  -- Insertions one after another: what the generator draws, the key, and the value.
  unfoldable pub inserts : SkipListMap K V → List (ℕ × K × V) → Outcome (SkipListMap K V)
  inserts m [] = ok m
  inserts m ((r, key, value) ∷ ops) = do (_, n) ← insert order m r key value; inserts n ops

  -- The value that was put under `k` last.
  abbrev pub latest : (K → Option V) → List (ℕ × K × V) → K → Option V
  latest o [] k = o k
  latest o ((r, key, value) ∷ ops) k = latest (λ k. over key value k (o k)) ops k

  inserts-from :
      (m : SkipListMap K V) (o : K → Option V) (ops : List (ℕ × K × V))
      → Holds m o
      → (n : SkipListMap K V) × (inserts m ops ≡ ok n) × Holds n (latest o ops)
  unfolding inserts
  inserts-from m o [] h = (m, refl, h)
  inserts-from m o ((r, key, value) ∷ ops) h =
      let (n, s, h') = step_lem m o r key value h in
      let (n', s', h'') = inserts-from n (λ k. over key value k (o k)) ops h' in
      (n', rw (s) s', h'')

  -- Whatever is put into a new map, in whatever order and with whatever draws of the generator, no
  -- insertion panics, and `get` then answers for every key with the value that was put under it last,
  -- or with `None` if there was none.
  pub get-inserts :
      (max_height : ℕ) (ops : List (ℕ × K × V)) (k : K)
      → (n : SkipListMap K V) × (inserts (new max_height) ops ≡ ok n)
        × (get order n k ≡ ok (latest (λ _. none) ops k))
  get-inserts max_height ops k =
      let (n, s, (es, rep, a, h)) =
        inserts-from (new max_height) (λ _. none) ops (new_lem max_height) in
      (n, s, (reads_lem order n es k rep).1 ∙ ap ok (h k))
