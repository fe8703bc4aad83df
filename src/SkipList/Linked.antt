-- ===== src/SkipList/Linked.antt =====
-- The links of a skip list into which a new node is being linked, from the top level down.
use dbprimkit.Base.{
  ℕ, zero, suc, ◌+◌, ◌≤◌, ◌<◌, ◌≡◌, ◌≢◌, refl, ap, ap₂, ◌∙◌, List, [], ◌∷◌, ◌++◌, some, set, ltb,
  ltb→lt, ltb_false→le, lt→ltb, ltb-false, if◌then◌else◌, arith, Bool-cases, ⊎-elim,
}
use dbprimkit.SkipList.{NodePtr, Addr, link}
use dbprimkit.SkipList.Model.{Entry, first_at, links}
use dbprimkit.SkipList.Prec.{prec}

-- A table of links, from level `l` on.
abbrev pub tab : (ℕ → NodePtr) → ℕ → ℕ → List NodePtr
tab f l zero = []
tab f l (suc n) = f l ∷ tab f (suc l) n

pub tab-ext :
    (f g : ℕ → NodePtr) (l n : ℕ) → ((i : ℕ) → i < l + n → f i ≡ g i) → tab f l n ≡ tab g l n
tab-ext f g l zero h = refl
tab-ext f g l (suc n) h =
    ap₂ (λ x xs. x ∷ xs) (h l (omega arith)) (tab-ext f g (suc l) n (λ i k. h i (omega arith)))

pub set-tab :
    (f g : ℕ → NodePtr) (l n i : ℕ) (v : NodePtr)
    → i < n
    → v ≡ g (l + i)
    → ((j : ℕ) → j ≢ l + i → f j ≡ g j)
    → set (tab f l n) i v ≡ tab g l n
set-tab f g l zero i v h e o = absurd (omega arith)
set-tab f g l (suc n) zero v h e o =
    ap₂ (λ x xs. x ∷ xs) (e ∙ ap g {y = l} (omega arith)) (later l n (suc l) (omega arith))
  where
    later : (b n k : ℕ) → l < k → tab f k n ≡ tab g k n
    later b zero k h = refl
    later b (suc n) k h =
        ap₂ (λ x xs. x ∷ xs) (o k (λ e. omega (arith, e))) (later b n (suc k) (omega arith))
set-tab f g l (suc n) (suc i) v h e o =
    ap₂ (λ x xs. x ∷ xs) (o l (λ e. omega (arith, e)))
      (set-tab f g (suc l) n i v (omega arith) (e ∙ ap g {y = suc l + i} (omega arith))
        (λ j k. o j (λ e. k (omega (arith, e)))))

module _ {K V : Type 0} where
  pub links-eq-tab : (l n : ℕ) (es : List (Entry K V)) → links l n es ≡ tab (λ i. first_at i es) l n
  links-eq-tab l zero es = refl
  links-eq-tab l (suc n) es = ap (λ xs. first_at l es ∷ xs) (links-eq-tab (suc l) n es)

  -- No entry is on the level.
  abbrev pub NoneOn : ℕ → List (Entry K V) → Type 0
  NoneOn k [] = Unit
  NoneOn k (x ∷ xs) = (x.height ≤ k) × NoneOn k xs

  pub first_at-none :
      (k : ℕ) (xs ys : List (Entry K V)) → NoneOn k xs → first_at k (xs ++ ys) ≡ first_at k ys
  first_at-none k [] ys n = refl
  first_at-none k (x ∷ xs) ys (h, n) = rw (ltb-false k (x.height) h) (first_at-none k xs ys n)

  -- Behind an entry on the level, what follows does not count.
  pub first_at-some :
      (k : ℕ) (ys : List (Entry K V)) (a : Entry K V) (zs ws ws' : List (Entry K V))
      → k < a.height
      → first_at k ((ys ++ (a ∷ zs)) ++ ws) ≡ first_at k ((ys ++ (a ∷ zs)) ++ ws')
  first_at-some k [] a zs ws ws' h = rw (lt→ltb k (a.height) h)
  first_at-some k (y ∷ ys) a zs ws ws' h =
      ap (λ p. if ltb k (y.height) then some (y.ptr) else p) (first_at-some k ys a zs ws ws' h)

  -- The link that `prec` gives is the default, or that of the last entry on the level.
  pub data PrecEnd (k : ℕ) (d : Addr) (xs : List (Entry K V)) : Type 0 where
    nowhere : NoneOn k xs → prec k d xs ≡ d → PrecEnd k d xs
    behind :
        (ys : List (Entry K V)) (a : Entry K V) (zs : List (Entry K V))
        → xs ≡ ys ++ (a ∷ zs)
        → k < a.height
        → NoneOn k zs
        → prec k d xs ≡ link (a.ptr) k
        → PrecEnd k d xs

  pub prec-end : (k : ℕ) (d : Addr) (xs : List (Entry K V)) → PrecEnd k d xs
  prec-end k d [] = nowhere tt refl
  prec-end k d (x ∷ xs) =
      ⊎-elim (Bool-cases (ltb k (x.height)))
        (λ t. elim (prec-end k (link (x.ptr) k) xs) [
          | nowhere n e ↦
              behind [] x xs refl (ltb→lt k (x.height) t) n
                (ap (λ c. prec k (if c then link (x.ptr) k else d) xs) t ∙ e)
          | behind ys a zs q h n e ↦
              behind (x ∷ ys) a zs (ap (λ l. x ∷ l) q) h n
                (ap (λ c. prec k (if c then link (x.ptr) k else d) xs) t ∙ e)
        ])
        (λ t. elim (prec-end k d xs) [
          | nowhere n e ↦
              nowhere (ltb_false→le k (x.height) t, n)
                (ap (λ c. prec k (if c then link (x.ptr) k else d) xs) t ∙ e)
          | behind ys a zs q h n e ↦
              behind (x ∷ ys) a zs (ap (λ l. x ∷ l) q) h n
                (ap (λ c. prec k (if c then link (x.ptr) k else d) xs) t ∙ e)
        ])
