-- ===== src/Base/Lists.antt =====
-- Lists measured by native numbers, Boolean quantifiers and predicates by recursion.
use Prim.Native.Nat.{ℕ, zero, suc, ◌+◌, ◌≤◌}
use Prim.Native.String.{String}
use mathlib.Core.Path.{◌≡◌, refl, sym, ap, subst}
use mathlib.Core.Logic.{inl, inr}
use mathlib.Core.Bool.{Bool, true, false, not, ◌&&◌, ◌||◌}
use mathlib.Core.Option.{Option, none, some}
use mathlib.Core.List.{List, [], ◌∷◌, ◌++◌}
use native.Mathlib.Omega.{arith}
use agent_workflow.Base.Tests.{if◌then◌else◌, str_eq, str_eq_iff, str_eq_refl, Bool-cases}

module _ {ℓ} {A : Type ℓ} where
  abbrev pub length : List A → ℕ
  length [] = 0
  length (x ∷ xs) = suc (length xs)

  abbrev pub filter : (A → Bool) → List A → List A
  filter p [] = []
  filter p (x ∷ xs) = if p x then x ∷ filter p xs else filter p xs

  abbrev pub all : (A → Bool) → List A → Bool
  all p [] = true
  all p (x ∷ xs) = p x && all p xs

  abbrev pub any : (A → Bool) → List A → Bool
  any p [] = false
  any p (x ∷ xs) = p x || any p xs

  abbrev pub take : ℕ → List A → List A
  take zero xs = []
  take (suc n) [] = []
  take (suc n) (x ∷ xs) = x ∷ take n xs

  abbrev pub drop : ℕ → List A → List A
  drop zero xs = xs
  drop (suc n) [] = []
  drop (suc n) (x ∷ xs) = drop n xs

  -- Python's `xs[-1]`.
  abbrev pub last : List A → Option A
  last [] = none
  last (x ∷ []) = some x
  last (x ∷ y ∷ xs) = last (y ∷ xs)

  abbrev pub All {κ} : (A → Type κ) → List A → Type κ
  All P [] = Unit
  All P (x ∷ xs) = P x × All P xs

  pub length-append : (xs ys : List A) → length (xs ++ ys) ≡ length xs + length ys
  length-append [] ys = omega arith
  length-append (x ∷ xs) ys = omega (arith, length-append xs ys)

  pub append_nil : (xs : List A) → xs ++ [] ≡ xs
  append_nil [] = refl
  append_nil (x ∷ xs) = ap (λ t. x ∷ t) (append_nil xs)

  pub append_assoc : (xs : List A) (y : A) (ys : List A) → (xs ++ y ∷ []) ++ ys ≡ xs ++ y ∷ ys
  append_assoc [] y ys = refl
  append_assoc (x ∷ xs) y ys = ap (λ t. x ∷ t) (append_assoc xs y ys)

  pub drop-length : (xs ys : List A) → drop (length xs) (xs ++ ys) ≡ ys
  drop-length [] ys = refl
  drop-length (x ∷ xs) ys = drop-length xs ys

  pub length-take : (n : ℕ) (xs : List A) → length (take n xs) ≤ n
  length-take zero xs = omega arith
  length-take (suc n) [] = omega arith
  length-take (suc n) (x ∷ xs) = omega (arith, length-take n xs)

  pub All-append {κ} : (P : A → Type κ) (xs ys : List A) → All P xs → All P ys → All P (xs ++ ys)
  All-append P [] ys here later = later
  All-append P (x ∷ xs) ys here later = (here.0, All-append P xs ys here.1 later)

  pub All-map {κ μ} :
      (P : A → Type κ) (Q : A → Type μ)
      → ((x : A) → P x → Q x)
      → (xs : List A) → All P xs
      → All Q xs
  All-map P Q f [] h = tt
  All-map P Q f (x ∷ xs) h = (f x h.0, All-map P Q f xs h.1)

  pub all→All : (p : A → Bool) (xs : List A) → all p xs ≡ true → All (λ x. p x ≡ true) xs
  all→All p [] h = tt
  all→All p (x ∷ xs) h = (ground arith, all→All p xs (ground arith))

-- Membership of a text, `name in names`.
unfoldable pub elem : String → List String → Bool
elem s [] = false
elem s (t ∷ ts) = str_eq s t || elem s ts

-- `len(xs) == len(set(xs))`: no text occurs twice.
unfoldable pub distinct : List String → Bool
distinct [] = true
distinct (s ∷ ss) = not (elem s ss) && distinct ss

pub elem_self : (s : String) (ss : List String) → elem s (s ∷ ss) ≡ true
unfolding elem
elem_self s ss = ground (arith, str_eq_refl s)

pub elem-append_right :
    (s : String) (xs ys : List String) → elem s ys ≡ true → elem s (xs ++ ys) ≡ true
unfolding elem
elem-append_right s [] ys h = h
elem-append_right s (x ∷ xs) ys h = ground (arith, elem-append_right s xs ys h)

pub All-elem {κ} :
    (P : String → Type κ) (xs : List String) (s : String) → All P xs → elem s xs ≡ true → P s
unfolding elem
All-elem P [] s h m = absurd (cc)
All-elem P (x ∷ xs) s h m = elim (Bool-cases (str_eq s x)) [
  | inl e ↦ subst P (sym ((str_eq_iff s x).0 e)) h.0
  | inr e ↦ All-elem P xs s h.1 (ground arith)
]

-- What holds of every member holds all along the list.
pub All-of_elem {κ} :
    (P : String → Type κ) (xs : List String) → ((s : String) → elem s xs ≡ true → P s) → All P xs
unfolding elem
All-of_elem P [] h = tt
All-of_elem P (x ∷ xs) h = (h x (elem_self x xs), All-of_elem P xs (λ s m. h s (ground arith)))
