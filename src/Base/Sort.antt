-- ===== src/Base/Sort.antt =====
-- Python's `sorted` on texts: by code points, which is the order of the UTF-8 bytes.
use Prim.Native.Nat.{Ordering}
use Prim.Native.String.{compare}
use agent_workflow.Base.{
  String, ◌≡◌, refl, Bool, true, false, List, [], ◌∷◌, if◌then◌else◌, arith, elem, distinct,
  str_eq_sym, ◌∙◌,
}

unfoldable pub text_le : String → String → Bool
text_le s t = elim (compare s t) [ Ordering.gt ↦ false | _ ↦ true ]

unfoldable pub insert_sorted : String → List String → List String
unfolding text_le
insert_sorted s [] = s ∷ []
insert_sorted s (t ∷ ts) = if text_le s t then s ∷ t ∷ ts else t ∷ insert_sorted s ts

unfoldable pub sorted : List String → List String
unfolding insert_sorted
sorted [] = []
sorted (s ∷ ss) = insert_sorted s (sorted ss)

elem-insert_sorted :
    (x s : String) (ts : List String) → elem x (insert_sorted s ts) ≡ elem x (s ∷ ts)
unfolding insert_sorted elem
elem-insert_sorted x s [] = refl
elem-insert_sorted x s (t ∷ ts) = ground (arith, elem-insert_sorted x s ts)

-- Sorting keeps the members.
pub elem-sorted : (x : String) (ss : List String) → elem x (sorted ss) ≡ elem x ss
unfolding sorted elem
elem-sorted x [] = refl
elem-sorted x (s ∷ ss) = ground (arith, elem-insert_sorted x s (sorted ss), elem-sorted x ss)

-- Sorting keeps members apart.
distinct-insert_sorted :
    (s : String) (ts : List String)
    → elem s ts ≡ false
    → distinct ts ≡ true
    → distinct (insert_sorted s ts) ≡ true
unfolding insert_sorted distinct elem
distinct-insert_sorted s [] h d = refl
distinct-insert_sorted s (t ∷ ts) h d =
    ground (arith, elem-insert_sorted t s ts, distinct-insert_sorted s ts, str_eq_sym s t)

pub distinct-sorted : (ss : List String) → distinct ss ≡ true → distinct (sorted ss) ≡ true
unfolding sorted distinct
distinct-sorted [] h = refl
distinct-sorted (s ∷ ss) h =
    distinct-insert_sorted s (sorted ss) (elem-sorted s ss ∙ ground arith)
      (distinct-sorted ss (ground arith))
