-- ===== src/Prelude/TextOrder.antt =====
-- `compare` on texts is an order: swapped texts compare the other way round, and `gt` is transitive.
use Prim.Native.Nat.{ℕ, zero, suc, Ordering, compare as compare_ℕ}
use Prim.Native.Nat.compare as compare_ℕ
use Prim.Native.String.{String, [], ◌∷◌, then, compare}
use Prim.Native.String.compare
use Prim.Native.Char.{code}
use mathlib.Core.Path.{◌≡◌, refl, sym}
use mathlib.Core.Logic.{◌⊎◌, inl, inr}
use text.Mathlib.TextEquality.{codes_equal}

abbrev pub flip : Ordering → Ordering
flip Ordering.lt = Ordering.gt
flip Ordering.eq = Ordering.eq
flip Ordering.gt = Ordering.lt

flip-then : (o r : Ordering) → flip (then o r) ≡ then (flip o) (flip r)
flip-then Ordering.lt r = refl
flip-then Ordering.eq r = refl
flip-then Ordering.gt r = refl

swap_ℕ : (m n : ℕ) → compare_ℕ n m ≡ flip (compare_ℕ m n)
swap_ℕ zero zero = rw (compare_ℕ.zero-zero) refl
swap_ℕ zero (suc n) = rw (compare_ℕ.zero-suc n, compare_ℕ.suc-zero n) refl
swap_ℕ (suc m) zero = rw (compare_ℕ.zero-suc m, compare_ℕ.suc-zero m) refl
swap_ℕ (suc m) (suc n) = rw (compare_ℕ.suc-suc m n, compare_ℕ.suc-suc n m) (swap_ℕ m n)

pub swap_texts : (s t : String) → compare t s ≡ flip (compare s t)
swap_texts [] [] = rw (compare.nil-nil) refl
swap_texts [] (d ∷ t) = rw (compare.nil-cons d t, compare.cons-nil d t) refl
swap_texts (c ∷ s) [] = rw (compare.nil-cons c s, compare.cons-nil c s) refl
swap_texts (c ∷ s) (d ∷ t) =
    rw
      (
        compare.cons-cons c d s t,
        compare.cons-cons d c t s,
        flip-then (compare_ℕ (code c) (code d)) (compare s t),
        swap_ℕ (code c) (code d),
        swap_texts s t,
      )
      refl

lt_is_not-gt : Ordering.lt ≡ Ordering.gt → ⊥
lt_is_not-gt e = cc

eq_is_not-gt : Ordering.eq ≡ Ordering.gt → ⊥
eq_is_not-gt e = cc

gt-trans_ℕ :
    (m n k : ℕ)
    → compare_ℕ m n ≡ Ordering.gt
    → compare_ℕ n k ≡ Ordering.gt
    → compare_ℕ m k ≡ Ordering.gt
gt-trans_ℕ zero zero k p q = absurd (eq_is_not-gt (rw compare_ℕ.zero-zero at p))
gt-trans_ℕ zero (suc n) k p q = absurd (lt_is_not-gt (rw (compare_ℕ.zero-suc n) at p))
gt-trans_ℕ (suc m) n zero p q = compare_ℕ.suc-zero m
gt-trans_ℕ (suc m) zero (suc k) p q = absurd (lt_is_not-gt (rw (compare_ℕ.zero-suc k) at q))
gt-trans_ℕ (suc m) (suc n) (suc k) p q =
    rw (compare_ℕ.suc-suc m k)
      (gt-trans_ℕ m n k (rw (compare_ℕ.suc-suc m n) at p) (rw (compare_ℕ.suc-suc n k) at q))

-- How `then` comes to `gt`.
then_gt :
    (o r : Ordering)
    → then o r ≡ Ordering.gt
    → (o ≡ Ordering.gt) ⊎ ((o ≡ Ordering.eq) × (r ≡ Ordering.gt))
then_gt Ordering.lt r h = absurd (lt_is_not-gt h)
then_gt Ordering.eq r h = inr (refl, h)
then_gt Ordering.gt r h = inl refl

pub gt-trans_texts :
    (s t u : String)
    → compare s t ≡ Ordering.gt
    → compare t u ≡ Ordering.gt
    → compare s u ≡ Ordering.gt
gt-trans_texts [] [] u p q = absurd (eq_is_not-gt (rw compare.nil-nil at p))
gt-trans_texts [] (d ∷ t) u p q = absurd (lt_is_not-gt (rw (compare.nil-cons d t) at p))
gt-trans_texts (c ∷ s) t [] p q = compare.cons-nil c s
gt-trans_texts (c ∷ s) [] (e ∷ u) p q = absurd (lt_is_not-gt (rw (compare.nil-cons e u) at q))
gt-trans_texts (c ∷ s) (d ∷ t) (e ∷ u) p q =
    rw (compare.cons-cons c e s u)
      (elim (then_gt (compare_ℕ (code c) (code d)) (compare s t)
        (rw (compare.cons-cons c d s t) at p)) [
          | inl first ↦
              elim (then_gt (compare_ℕ (code d) (code e)) (compare t u)
                (rw (compare.cons-cons d e t u) at q)) [
                  | inl first' ↦ rw (gt-trans_ℕ (code c) (code d) (code e) first first') refl
                  | inr (same', later') ↦ rw (sym (codes_equal d e same'), first) refl
                ]
          | inr (same, later) ↦
              elim (then_gt (compare_ℕ (code d) (code e)) (compare t u)
                (rw (compare.cons-cons d e t u) at q)) [
                  | inl first' ↦ rw (codes_equal c d same, first') refl
                  | inr (same', later') ↦
                      rw (codes_equal c d same, same') (gt-trans_texts s t u later later')
                ]
        ])
