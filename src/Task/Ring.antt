-- ===== src/Task/Ring.antt =====
-- The ring that the `next` pointers of task/task.c make.
use yoz_os.Base.{
  ℕ, suc, ◌<◌, ◌≡◌, ◌≢◌, refl, ap, ◌∙◌, inl, inr, arith, ◌==◌, Bool-cases, if◌then◌else◌, true,
  false, some, List, [], ◌∷◌, ◌++◌, mem, length, IsDistinct,
}
use yoz_os.Task.Store.{Task}

-- The pointers lead from `a` over the tasks of the list to `b`.
abbrev pub Seg : (ℕ → Task) → ℕ → List ℕ → ℕ → Type 0
Seg ts a [] b = a ≡ b
Seg ts a (x ∷ xs) b = (a ≡ x) × ((n : ℕ) × ((ts x).next ≡ some n) × Seg ts n xs b)

-- The pointer of `a` leads over the tasks of the list to `b`.
abbrev pub From : (ℕ → Task) → ℕ → List ℕ → ℕ → Type 0
From ts a xs b = (n : ℕ) × ((ts a).next ≡ some n) × Seg ts n xs b

-- The tasks `head` and `rest`, all distinct and at most 18, are a ring in this order.
pub record IsRing (ts : ℕ → Task) (head : ℕ) (rest : List ℕ) : Type 0 where
  pub links : From ts head rest head
  pub distinct : IsDistinct (head ∷ rest)
  pub short : length rest < 18

pub Seg-cong :
    (ts ts' : ℕ → Task) (a : ℕ) (xs : List ℕ) (b : ℕ)
    → ((t : ℕ) → (ts' t).next ≡ (ts t).next)
    → Seg ts a xs b
    → Seg ts' a xs b
Seg-cong ts ts' a [] b same g = g
Seg-cong ts ts' a (x ∷ xs) b same (e, (n, l, g)) =
    (e, (n, same x ∙ l, Seg-cong ts ts' n xs b same g))

pub Seg-cong_mem :
    (ts ts' : ℕ → Task) (a : ℕ) (xs : List ℕ) (b : ℕ)
    → ((t : ℕ) → mem t xs ≡ true → (ts' t).next ≡ (ts t).next)
    → Seg ts a xs b
    → Seg ts' a xs b
Seg-cong_mem ts ts' a [] b same g = g
Seg-cong_mem ts ts' a (x ∷ xs) b same (e, (n, l, g)) =
    (e, (n, same x (ground arith) ∙ l, Seg-cong_mem ts ts' n xs b (λ t m. same t (ground arith)) g))

-- The list without the first task `t`.
abbrev pub erase : ℕ → List ℕ → List ℕ
erase t [] = []
erase t (x ∷ xs) = if x == t then xs else x ∷ erase t xs

pub mem-erase : (u t : ℕ) (xs : List ℕ) → mem u xs ≡ false → mem u (erase t xs) ≡ false
mem-erase u t [] m = refl
mem-erase u t (x ∷ xs) m = ground (arith, mem-erase u t xs)

pub IsDistinct-erase : (t : ℕ) (xs : List ℕ) → IsDistinct xs → IsDistinct (erase t xs)
IsDistinct-erase t [] d = tt
IsDistinct-erase t (x ∷ xs) d = elim (Bool-cases (x == t)) [
  | inl e ↦ rw e d.1
  | inr e ↦ rw e (mem-erase x t xs d.0, IsDistinct-erase t xs d.1)
]

pub length-erase : (t : ℕ) (xs : List ℕ) → length (erase t xs) < suc (length xs)
length-erase t [] = omega arith
length-erase t (x ∷ xs) = elim (Bool-cases (x == t)) [
  | inl e ↦ rw e (omega arith)
  | inr e ↦ rw e (omega (arith, length-erase t xs))
]

pub IsRing-cong :
    (ts ts' : ℕ → Task) (head : ℕ) (rest : List ℕ)
    → ((t : ℕ) → (ts' t).next ≡ (ts t).next)
    → IsRing ts head rest
    → IsRing ts' head rest
IsRing-cong ts ts' head rest same r =
    let (n, l, g) = r.links in
    record {
      links = (n, same head ∙ l, Seg-cong ts ts' n rest head same g);
      distinct = r.distinct;
      short = r.short;
    }

-- The last task of a list, behind `a`.
abbrev pub last_of : ℕ → List ℕ → ℕ
last_of a [] = a
last_of a (x ∷ xs) = last_of x xs

mem-last_of : (x : ℕ) (xs : List ℕ) → mem (last_of x xs) (x ∷ xs) ≡ true
mem-last_of x [] = ground arith
mem-last_of x (y ∷ ys) = ground (arith, mem-last_of y ys)

-- A task that the last one now points to, and that points to `b`, comes at the end of the list.
pub From-append_one :
    (ts ts' : ℕ → Task) (a : ℕ) (xs : List ℕ) (b t : ℕ)
    → IsDistinct (a ∷ xs)
    → mem t (a ∷ xs) ≡ false
    → (ts' (last_of a xs)).next ≡ some t
    → (ts' t).next ≡ some b
    → ((u : ℕ) → u ≢ t → u ≢ last_of a xs → (ts' u).next ≡ (ts u).next)
    → From ts a xs b
    → From ts' a (xs ++ t ∷ []) b
From-append_one ts ts' a [] b t u m l c same f = (t, l, (refl, (b, c, refl)))
From-append_one ts ts' a (x ∷ xs) b t u m l c same (n, e, (h, f)) =
    let keep : (ts' a).next ≡ (ts a).next =
      same a (ground arith) (λ s. ground (arith, mem-last_of x xs)) in
    let here : (ts' a).next ≡ some x = keep ∙ e ∙ ap some h in
    (x, here, (refl, From-append_one ts ts' x xs b t u.1 (ground arith) l c same f))
