-- ===== src/Allocator/Chain.antt =====
-- allocator.rs: the chain as a whole, and when its headers are disjoint.
pub mod Alloc
pub mod Grant
pub mod Free
use original_os_with_rust.Prelude.{
  ℕ, ◌+◌, ◌-◌, ◌%◌, ◌≤◌, ◌<◌, ◌≡◌, ◌⊎◌, inl, inr, arith, List, [], ◌∷◌, ◌++◌,
}
use original_os_with_rust.Prelude.{All, ◌^◌, ◌==◌, Bool-cases, if◌then◌else◌, true, false}
use original_os_with_rust.Allocator.{Header}
use original_os_with_rust.Allocator.Provide.{IsHeader, Fits, cut_at}

-- Two regions share no byte.
abbrev pub Apart : Header → Header → Type 0
Apart g h = (g.addr + g.size ≤ h.addr) ⊎ (h.addr + h.size ≤ g.addr)

abbrev pub Disjoint : List Header → Type 0
Disjoint [] = Unit
Disjoint (h ∷ hs) = All (Apart h) hs × Disjoint hs

-- Every header is well formed, and no two regions overlap.
pub record IsChain (hs : List Header) : Type 0 where
  pub headers : All IsHeader hs
  pub disjoint : Disjoint hs

-- `g` is one of the headers.
abbrev pub Has : Header → List Header → Type 0
Has g [] = ⊥
Has g (h ∷ hs) = (g ≡ h) ⊎ Has g hs

-- `g` lies inside `h`.
abbrev pub Within : Header → Header → Type 0
Within h g = (h.addr ≤ g.addr) × (g.addr + g.size ≤ h.addr + h.size)

-- The headers cover the bytes from `lo` to `hi` in order, without gaps.
abbrev pub Tiles : ℕ → ℕ → List Header → Type 0
Tiles lo hi [] = lo ≡ hi
Tiles lo hi (h ∷ hs) = (h.addr ≡ lo) × Tiles (lo + h.size) hi hs

pub All-append {ℓ κ} :
    {A : Type ℓ} (P : A → Type κ) (xs ys : List A) → All P xs → All P ys → All P (xs ++ ys)
All-append P [] ys p q = q
All-append P (x ∷ xs) ys p q = (p.0, All-append P xs ys p.1 q)

pub All-map {ℓ κ ι} :
    {A : Type ℓ} (P : A → Type κ) (Q : A → Type ι) (xs : List A)
    → ((x : A) → P x → Q x)
    → All P xs
    → All Q xs
All-map P Q [] f p = tt
All-map P Q (x ∷ xs) f p = (f x p.0, All-map P Q xs f p.1)

module _ (h : Header) (size a t : ℕ) (v : IsHeader h) (f : Fits h size a t)
    (unit : size % 32 ≡ 0) where
  pub cut-IsHeader : All IsHeader (cut_at h size t)
  unfolding cut_at
  cut-IsHeader = ground arith

  pub cut-Tiles : Tiles h.addr (h.addr + h.size) (cut_at h size t)
  unfolding cut_at
  cut-Tiles = ground arith

  pub cut-Within : All (Within h) (cut_at h size t)
  unfolding cut_at
  cut-Within = ground arith

  pub cut-Disjoint : Disjoint (cut_at h size t)
  unfolding cut_at
  cut-Disjoint = ground arith

pub Disjoint-append :
    (xs ys : List Header)
    → Disjoint xs
    → Disjoint ys
    → All (λ x. All (Apart x) ys) xs
    → Disjoint (xs ++ ys)
Disjoint-append [] ys p q r = q
Disjoint-append (x ∷ xs) ys p q r =
    (All-append (Apart x) xs ys p.0 r.0, Disjoint-append xs ys p.1 q r.1)

-- What is apart from a region is apart from all that lies inside it.
pub Apart-inside :
    (g h : Header) (xs : List Header) → Apart g h → All (Within h) xs → All (Apart g) xs
Apart-inside g h xs away = All-map (Within h) (Apart g) xs (λ x w. omega arith)

pub inside-Apart :
    (h : Header) (xs ys : List Header)
    → All (Within h) xs
    → All (Apart h) ys
    → All (λ x. All (Apart x) ys) xs
inside-Apart h xs ys w p =
    All-map (Within h) (λ x. All (Apart x) ys) xs
      (λ x wx. All-map (Apart h) (Apart x) ys (λ y away. omega arith) p) w

-- In place of one region of a chain may stand disjoint headers inside it.
pub Disjoint-replace :
    (before : List Header) (h : Header) (xs after : List Header)
    → Disjoint (before ++ (h ∷ after))
    → Disjoint xs
    → All (Within h) xs
    → Disjoint (before ++ (xs ++ after))
Disjoint-replace [] h xs after d dx w =
    Disjoint-append xs after dx d.1 (inside-Apart h xs after w d.0)
Disjoint-replace (b ∷ bs) h xs after d dx w =
    (apart_replaced bs d.0, Disjoint-replace bs h xs after d.1 dx w)
  where
    apart_replaced :
        (cs : List Header) → All (Apart b) (cs ++ (h ∷ after)) → All (Apart b) (cs ++ (xs ++ after))
    apart_replaced [] p = All-append (Apart b) xs after (Apart-inside b h xs p.0 w) p.1
    apart_replaced (c ∷ cs) p = (p.0, apart_replaced cs p.1)

pub All-replace {κ} :
    (P : Header → Type κ) (before : List Header) (h : Header) (xs after : List Header)
    → All P (before ++ (h ∷ after))
    → All P xs
    → All P (before ++ (xs ++ after))
All-replace P [] h xs after p q = All-append P xs after q p.1
All-replace P (b ∷ bs) h xs after p q = (p.0, All-replace P bs h xs after p.1 q)

pub All-at {κ} :
    (P : Header → Type κ) (before : List Header) (h : Header) (after : List Header)
    → All P (before ++ (h ∷ after))
    → P h
All-at P [] h after p = p.0
All-at P (b ∷ bs) h after p = All-at P bs h after p.1
