-- ===== src/Base/Results.antt =====
-- Raised errors as values: `Result E A` is a value of `A` or an error of the component's `E`.
use mathlib.Core.Logic.{◌⊎◌, inl, inr}
use mathlib.Core.Path.{◌≡◌, refl, subst}
use mathlib.Core.Bool.{Bool, true, false}
use mathlib.Core.List.{List, [], ◌∷◌, ◌++◌}
use agent_workflow.Base.Lists.{All}

pub data Result {ℓ} (E : Type 0) (A : Type ℓ) : Type ℓ where
  ok : A → Result E A
  err : E → Result E A

infixl 5 ◌>>=◌ ◌>>◌
abbrev pub ◌>>=◌ {ℓ κ} :
    {E : Type 0} {A : Type ℓ} {B : Type κ} → Result E A → (A → Result E B) → Result E B
ok value >>= next = next value
err raised >>= next = err raised

abbrev pub ◌>>◌ {ℓ} : {E : Type 0} {B : Type ℓ} → Result E (Unit {0}) → Result E B → Result E B
m >> k = m >>= λ _. k

-- `if not test: raise e`
abbrev pub require : {E : Type 0} → Bool → E → Result E (Unit {0})
require true raised = ok tt
require false raised = err raised

pub >>=-eq-ok {ℓ κ} :
    {E : Type 0} {A : Type ℓ} {B : Type κ} (action : Result E A) (next : A → Result E B) {last : B}
    → (action >>= next) ≡ ok last
    → (first : A) × (action ≡ ok first) × (next first ≡ ok last)
>>=-eq-ok (ok first) next bound = (first, refl, bound)
>>=-eq-ok (err raised) next bound = cc

pub require-eq-ok {ℓ} :
    {E : Type 0} {B : Type ℓ} (test : Bool) (raised : E) (rest : Result E B) {last : B}
    → (require test raised >> rest) ≡ ok last
    → (test ≡ true) × (rest ≡ ok last)
require-eq-ok true raised rest bound = (refl, bound)
require-eq-ok false raised rest bound = cc

-- A loop over a list that passes a state on and stops at the first error.
unfoldable pub fold_result {ℓ κ} :
    {E : Type 0} {S : Type ℓ} {A : Type κ} → (S → A → Result E S) → S → List A → Result E S
fold_result step s [] = ok s
fold_result step s (x ∷ xs) = step s x >>= λ t. fold_result step t xs

-- An invariant that every successful step keeps holds after the loop.
pub fold_result-inv {ℓ κ μ} :
    {E : Type 0} {S : Type ℓ} {A : Type κ} (step : S → A → Result E S) (P : S → Type μ)
    → ((s : S) (x : A) (t : S) → P s → step s x ≡ ok t → P t)
    → (s : S) (xs : List A) (t : S) → P s
    → fold_result step s xs ≡ ok t
    → P t
unfolding fold_result
fold_result-inv step P keep s [] t p h = subst P (cc) p
fold_result-inv step P keep s (x ∷ xs) t p h =
    let (u, first, rest) = >>=-eq-ok (step s x) (λ t. fold_result step t xs) h in
    fold_result-inv step P keep u xs t (keep s x u p first) rest

-- The same inversions for a chain of steps: the rest of the proof takes the parts as variables.
pub with_ok {ℓ κ μ} :
    {E : Type 0} {A : Type ℓ} {B : Type κ} {C : Type μ} (m : Result E A) (f : A → Result E B)
    {b : B}
    → (m >>= f) ≡ ok b
    → ((a : A) → m ≡ ok a → f a ≡ ok b → C)
    → C
with_ok (ok a) f h k = k a refl h
with_ok (err e) f h k = absurd (cc)

pub with_require {ℓ μ} :
    {E : Type 0} {B : Type ℓ} {C : Type μ} (t : Bool) (e : E) (k : Result E B) {b : B}
    → (require t e >> k) ≡ ok b
    → (t ≡ true → k ≡ ok b → C)
    → C
with_require true e k h c = c refl h
with_require false e k h c = absurd (cc)

pub ok-injective {ℓ} :
    {E : Type 0} {A : Type ℓ} {a b : A} → ◌≡◌ {A = Result E A} (ok a) (ok b) → a ≡ b
ok-injective h = cc

pub require-true : {E : Type 0} (t : Bool) (e : E) {u : Unit {0}} → require t e ≡ ok u → t ≡ true
require-true true e h = refl
require-true false e h = absurd (cc)

pub fold_result-append {ℓ κ} :
    {E : Type 0} {S : Type ℓ} {A : Type κ} (step : S → A → Result E S) (s : S) (xs : List A) (x : A)
    (t u : S)
    → fold_result step s xs ≡ ok t
    → step t x ≡ ok u
    → fold_result step s (xs ++ x ∷ []) ≡ ok u
unfolding fold_result
fold_result-append step s [] x t u h k = let same : s ≡ t = ok-injective h in rw same (rw k)
fold_result-append step s (y ∷ xs) x t u h k =
    with_ok (step s y) (λ v. fold_result step v xs) h
      λ v first rest. rw first (fold_result-append step v xs x t u rest k)

pub Result-cases {ℓ} :
    {E : Type 0} {A : Type ℓ} (m : Result E A) → ((a : A) × (m ≡ ok a)) ⊎ ((e : E) × (m ≡ err e))
Result-cases (ok a) = inl (a, refl)
Result-cases (err e) = inr (e, refl)

-- A loop that succeeds took each of its steps.
pub with_fold_step {ℓ κ μ} :
    {E : Type 0} {S : Type ℓ} {A : Type κ} {C : Type μ} (step : S → A → Result E S) (s : S)
    (xs : List A) (x : A) (ys : List A) {t u : S}
    → fold_result step s xs ≡ ok t
    → fold_result step s (xs ++ x ∷ ys) ≡ ok u
    → ((v : S) → step t x ≡ ok v → C)
    → C
unfolding fold_result
with_fold_step step s [] x ys h k c =
    with_ok (step s x) (λ v. fold_result step v ys) k
      λ v first _. c v (subst (λ z. step z x ≡ ok v) (ok-injective h) first)
with_fold_step step s (y ∷ xs) x ys {u = u} h k c =
    with_ok (step s y) (λ v. fold_result step v xs) h
      λ v first rest.
        with_fold_step step v xs x ys rest
          (subst (λ m. (m >>= λ z. fold_result step z (xs ++ x ∷ ys)) ≡ ok u) first k) c

-- A loop whose steps write at once, so that what is written before an error stays.
module _ {ℓ} {E : Type 0} {S : Type ℓ} where
  abbrev pub kept : S → Result E S → Result E (Unit {0}) × S
  kept s (ok t) = (ok tt, t)
  kept s (err e) = (err e, s)

  abbrev pub then_kept :
      Result E (Unit {0}) × S → (S → Result E (Unit {0}) × S) → Result E (Unit {0}) × S
  then_kept (ok u, s) next = next s
  then_kept (err e, s) next = (err e, s)

  unfoldable pub pass {κ} :
      {A : Type κ} → (S → A → Result E (Unit {0}) × S) → S → List A → Result E (Unit {0}) × S
  pass step s [] = (ok tt, s)
  pass step s (x ∷ xs) = then_kept (step s x) λ t. pass step t xs

  -- What holds before a step that is not taken, and after each that is, holds of what is kept.
  pub kept-holds {μ} :
      (P : S → Type μ) (s : S) (m : Result E S) → P s → ((t : S) → m ≡ ok t → P t) → P (kept s m).1
  kept-holds P s (ok t) before after = after t refl
  kept-holds P s (err e) before after = before

  pub then_kept-holds {μ} :
      (P : S → Type μ) (s : S) (m : Result E S) (next : S → Result E (Unit {0}) × S)
      → P s
      → ((t : S) → m ≡ ok t → P (next t).1)
      → P (then_kept (kept s m) next).1
  then_kept-holds P s (ok t) next before after = after t refl
  then_kept-holds P s (err e) next before after = before

  then_kept-inv {μ} :
      (P : S → Type μ) (m : Result E (Unit {0}) × S) (next : S → Result E (Unit {0}) × S)
      → P m.1
      → ((t : S) → P t → P (next t).1)
      → P (then_kept m next).1
  then_kept-inv P (ok u, t) next p keep = keep t p
  then_kept-inv P (err e, t) next p keep = p

  -- An invariant that every step keeps, also one that raises, holds after the loop.
  pub pass-inv {κ μ ν} :
      {A : Type κ} (step : S → A → Result E (Unit {0}) × S) (P : S → Type μ) (Q : A → Type ν)
      → ((s : S) (x : A) → Q x → P s → P (step s x).1)
      → (s : S) (xs : List A) → All Q xs
      → P s
      → P (pass step s xs).1
  unfolding pass
  pass-inv step P Q keep s [] qs p = p
  pass-inv step P Q keep s (x ∷ xs) (q, qs) p =
      then_kept-inv P (step s x) (λ t. pass step t xs) (keep s x q p)
        λ t. pass-inv step P Q keep t xs qs
