-- ===== src/Keyboard/Driver/Sets.antt =====
-- The sets of keys: what they contain, and their order.
use original_os_with_rust.Prelude.{
  ℕ, suc, inl, inr, ◌&&◌, ◌≤◌, ◌<◌, ◌≡◌, refl, arith, sym, ◌∙◌, Bool, true, false, not, ◌==◌,
  if◌then◌else◌, List, [], ◌∷◌, subst, Bool-cases, lt→ltb, le→ltb, ≡→==, ≢→==,
}
use original_os_with_rust.Keyboard.Driver.{insert, contains, symmetric_difference, from_bytes}
use native.Mathlib.Decide.{dec_lt, ℕ_discrete}

-- A set of keys in strictly ascending order, from `lo` on.
abbrev pub Ascending : ℕ → List ℕ → Type 0
Ascending lo [] = Unit
Ascending lo (x ∷ xs) = (lo ≤ x) × Ascending (suc x) xs

abbrev pub xor : Bool → Bool → Bool
xor true b = not b
xor false b = b

Ascending-le : (lo lo' : ℕ) (xs : List ℕ) → lo ≤ lo' → Ascending lo' xs → Ascending lo xs
Ascending-le lo lo' [] h a = tt
Ascending-le lo lo' (x ∷ xs) h (first, rest) = (omega (arith, first), rest)

contains-below : (lo k : ℕ) (xs : List ℕ) → Ascending lo xs → k < lo → contains xs k ≡ false
unfolding contains
contains-below lo k [] a h = refl
contains-below lo k (x ∷ xs) (first, rest) h =
    let later = contains-below (suc x) k xs rest (omega (arith, first)) in ground arith

insert-Ascending : (lo a : ℕ) (xs : List ℕ) → lo ≤ a → Ascending lo xs → Ascending lo (insert a xs)
unfolding insert
insert-Ascending lo a [] h asc = (h, tt)
insert-Ascending lo a (x ∷ xs) h (first, rest) = elim (dec_lt a x) [
  | yes less ↦ rw (lt→ltb a x less) (h, (omega (arith, less), rest))
  | no ge ↦ elim (ℕ_discrete a x) [
    | yes e ↦ rw (le→ltb a x (omega (arith, ge)), ≡→== a x e) (first, rest)
    | no ne ↦
        rw (le→ltb a x (omega (arith, ge)), ≢→== a x ne)
          (first, insert-Ascending (suc x) a xs (omega (arith, ge, ne)) rest)
  ]
]

contains-insert :
    (a k : ℕ) (xs : List ℕ) → contains (insert a xs) k ≡ (if a == k then true else contains xs k)
unfolding contains insert
contains-insert a k [] = refl
contains-insert a k (x ∷ xs) = let rest = contains-insert a k xs in ground arith

xor-false : (b : Bool) → xor b false ≡ b
xor-false true = refl
xor-false false = refl

only_left :
    (k x : ℕ) (xs ys zs : List ℕ)
    → (k < suc x → contains ys k ≡ false)
    → contains zs k ≡ xor (contains xs k) (contains ys k)
    → contains (x ∷ zs) k ≡ xor (contains (x ∷ xs) k) (contains ys k)
unfolding contains
only_left k x xs ys zs later ih = elim (ℕ_discrete x k) [
  | yes e ↦ rw (≡→== x k e, later (omega (arith, e))) refl
  | no ne ↦ rw (≢→== x k ne, ih) refl
]

only_right :
    (k y : ℕ) (ys zs : List ℕ) (p : Bool)
    → (k < suc y → p ≡ false)
    → contains zs k ≡ xor p (contains ys k)
    → contains (y ∷ zs) k ≡ xor p (contains (y ∷ ys) k)
unfolding contains
only_right k y ys zs p later ih = elim (ℕ_discrete y k) [
  | yes e ↦ rw (≡→== y k e, later (omega (arith, e))) refl
  | no ne ↦ rw (≢→== y k ne) ih
]

in_both :
    (k x y : ℕ) (xs ys zs : List ℕ)
    → x ≡ y
    → Ascending (suc x) xs
    → Ascending (suc y) ys
    → contains zs k ≡ xor (contains xs k) (contains ys k)
    → contains zs k ≡ xor (contains (x ∷ xs) k) (contains (y ∷ ys) k)
unfolding contains
in_both k x y xs ys zs same asc bsc ih = elim (ℕ_discrete x k) [
  | yes e ↦
      rw
        (
          ih,
          ≡→== x k e,
          ≡→== y k (omega (arith, e, same)),
          contains-below (suc x) k xs asc (omega (arith, e)),
          contains-below (suc y) k ys bsc (omega (arith, e, same)),
        )
        refl
  | no ne ↦ rw (ih, ≢→== x k ne, ≢→== y k (λ e. ne (same ∙ e))) refl
]

pub contains-symmetric :
    (lo k : ℕ) (xs ys : List ℕ)
    → Ascending lo xs
    → Ascending lo ys
    → contains (symmetric_difference xs ys) k ≡ xor (contains xs k) (contains ys k)
unfolding contains symmetric_difference
contains-symmetric lo k [] ys a b = refl
contains-symmetric lo k (x ∷ xs) [] a b = sym (xor-false _)
contains-symmetric lo k (x ∷ xs) (y ∷ ys) (a, asc) (b, bsc) = elim (dec_lt x y) [
  | yes less ↦
      let later = contains-below (suc x) k (y ∷ ys) (less, bsc) in
      let ih = contains-symmetric (suc x) k xs (y ∷ ys) asc (less, bsc) in
      rw (lt→ltb x y less) (only_left k x xs (y ∷ ys) (symmetric_difference xs (y ∷ ys)) later ih)
  | no ge ↦ elim (ℕ_discrete x y) [
    | yes e ↦
        let ih =
          contains-symmetric (suc x) k xs ys asc (subst (λ z. Ascending (suc z) ys) (sym e) bsc) in
        rw (le→ltb x y (omega (arith, ge)), ≡→== x y e)
          (in_both k x y xs ys (symmetric_difference xs ys) e asc bsc ih)
    | no ne ↦
        let later = contains-below (suc y) k (x ∷ xs) (omega (arith, ge, ne), asc) in
        let ih = contains-symmetric (suc y) k (x ∷ xs) ys (omega (arith, ge, ne), asc) bsc in
        rw (le→ltb x y (omega (arith, ge)), ≢→== x y ne)
          (only_right k y ys (symmetric_difference (x ∷ xs) ys) (contains (x ∷ xs) k) later ih)
  ]
]

pub from_bytes-Ascending : (ids : List ℕ) → Ascending 0 (from_bytes ids)
unfolding from_bytes
from_bytes-Ascending [] = tt
from_bytes-Ascending (id ∷ ids) =
    let rest = from_bytes-Ascending ids in
    let added = insert-Ascending 0 id (from_bytes ids) (omega arith) rest in
    elim (Bool-cases (id == 0)) [ inl e ↦ rw e rest | inr e ↦ rw e added ]

pub contains-from_bytes :
    (ids : List ℕ) (k : ℕ) → contains (from_bytes ids) k ≡ (not (k == 0) && contains ids k)
unfolding from_bytes contains
contains-from_bytes [] k = ground arith
contains-from_bytes (id ∷ ids) k =
    let ih = contains-from_bytes ids k in
    let added = contains-insert id k (from_bytes ids) in ground arith
