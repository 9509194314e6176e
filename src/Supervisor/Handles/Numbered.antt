-- ===== src/Supervisor/Handles/Numbered.antt =====
-- Lists whose entries are numbered, as the reply channels are.
use place_home.Prelude.{
  ℕ, suc, ◌+◌, ◌≤◌, ◌<◌, ◌≡◌, Bool-cases, eqb, inl, inr, length, arith, nat_eq, refl, subst, some,
  List, [], ◌∷◌, ◌++◌,
}
use place_home.Prelude.Map.{lookup}

-- The entries have the numbers from `k` on.
abbrev pub Numbered {ℓ} : {A : Type ℓ} → ℕ → List (ℕ × A) → Type 0
Numbered k [] = Unit
Numbered k ((n, a) ∷ l) = (n ≡ k) × Numbered (suc k) l

pub Numbered-snoc {ℓ} :
    {A : Type ℓ} (k : ℕ) (l : List (ℕ × A)) (a : A)
    → Numbered k l
    → Numbered k (l ++ (k + length l, a) ∷ [])
Numbered-snoc k [] a h = (omega arith, tt)
Numbered-snoc k ((n, b) ∷ l) a (e, h) = (
  e,
  subst (λ i. Numbered (suc k) (l ++ (i, a) ∷ [])) (omega arith) (Numbered-snoc (suc k) l a h),
)

pub number_at {ℓ} :
    {A : Type ℓ} (k n : ℕ) (a : A) (xs ys : List (ℕ × A))
    → Numbered k (xs ++ (n, a) ∷ ys)
    → n ≡ k + length xs
number_at k n a [] ys (e, h) = omega (arith, e)
number_at k n a ((j, b) ∷ xs) ys (e, h) = omega (arith, number_at (suc k) n a xs ys h)

-- An entry of a numbered list is the one that a lookup finds.
pub lookup-Numbered {ℓ} :
    {A : Type ℓ} (k n : ℕ) (a : A) (xs ys : List (ℕ × A))
    → Numbered k (xs ++ (n, a) ∷ ys)
    → lookup n (xs ++ (n, a) ∷ ys) ≡ some a
unfolding lookup
lookup-Numbered k n a [] ys h = ground arith
lookup-Numbered k n a ((j, b) ∷ xs) ys (e, h) =
    ground (arith, e, number_at (suc k) n a xs ys h, lookup-Numbered (suc k) n a xs ys h)

pub lookup_within :
    {A : Type 0} (k n : ℕ) (l : List (ℕ × A))
    → Numbered k l
    → k ≤ n
    → n < k + length l
    → (a : A) × (lookup n l ≡ some a)
unfolding lookup
lookup_within k n [] h a b = absurd (omega (arith, a, b))
lookup_within k n ((j, x) ∷ l) (e, h) a b = elim (Bool-cases (eqb j n)) [
  | inl y ↦ (x, rw y refl)
  | inr y ↦
      let (r, p) = lookup_within (suc k) n l h (ground (arith, e, y, a)) (omega (arith, b)) in
      (r, rw y p)
]
