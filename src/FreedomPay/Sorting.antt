-- ===== src/FreedomPay/Sorting.antt =====
-- `sort.Strings`, as the signatures use it: it forgets the order in which Go ranges over a map.
use Prim.Native.String.{compare}
use Prim.Native.Nat.{Ordering}
use text.Mathlib.TextEquality.{IsScalar-prop, path_by_compare}
use mathlib.Core.Path.{subst}
use mathlib.Core.List.{Perm, foldr}
use mathlib.Core.List.Perm
use chaospay.Prelude.{String, ◌≡◌, refl, sym, ap, ◌∙◌, List, [], ◌∷◌, inl, inr, ◌⊎◌}
use chaospay.Prelude.TextOrder.{flip, swap_texts, gt-trans_texts}
use chaospay.FreedomPay.{insert_text, sort_texts}

abbrev After : String → String → Type 0
After s t = compare s t ≡ Ordering.gt

abbrev NotAfter : String → String → Type 0
NotAfter s t = (compare s t ≡ Ordering.lt) ⊎ (compare s t ≡ Ordering.eq)

Ordering-cases : (o : Ordering) → (o ≡ Ordering.gt) ⊎ ((o ≡ Ordering.lt) ⊎ (o ≡ Ordering.eq))
Ordering-cases Ordering.lt = inr (inl refl)
Ordering-cases Ordering.eq = inr (inr refl)
Ordering-cases Ordering.gt = inl refl

After-cases : (s t : String) → After s t ⊎ NotAfter s t
After-cases s t = Ordering-cases (compare s t)

After-swap : (s t : String) → After s t → NotAfter t s
After-swap s t h = inl (swap_texts s t ∙ ap flip h)

-- The two tests agree on what stands between.
After-NotAfter : (a b t : String) → After a t → NotAfter b t → After a b
After-NotAfter a b t h (inl less) = gt-trans_texts a t b h (swap_texts b t ∙ ap flip less)
After-NotAfter a b t h (inr same) = subst (After a) (sym (path_by_compare b t same)) h

insert-After :
    (s t : String) (ts : List String) → After s t → insert_text s (t ∷ ts) ≡ t ∷ insert_text s ts
unfolding insert_text
insert-After s t ts h = rw (h, insert_text) refl

insert-NotAfter :
    (s t : String) (ts : List String) → NotAfter s t → insert_text s (t ∷ ts) ≡ s ∷ t ∷ ts
unfolding insert_text
insert-NotAfter s t ts (inl less) = rw (less, insert_text) refl
insert-NotAfter s t ts (inr same) = rw (same, insert_text) refl

level_texts : (a b : String) → NotAfter a b → NotAfter b a → a ≡ b
level_texts a b (inr same) h = path_by_compare a b same
level_texts a b (inl less) h = absurd (clash h (swap_texts a b ∙ ap flip less))
  where
    clash : NotAfter b a → compare b a ≡ Ordering.gt → ⊥
    clash (inl e) above = cc
    clash (inr e) above = cc

-- Two texts that go in front of the same list.
insert-front :
    (a b : String) (ts : List String)
    → insert_text a ts ≡ a ∷ ts
    → insert_text b ts ≡ b ∷ ts
    → NotAfter a b
    → insert_text a (b ∷ ts) ≡ insert_text b (a ∷ ts)
insert-front a b ts ha hb below = elim (After-cases b a) [
  | inl above ↦ insert-NotAfter a b ts below ∙ sym (insert-After b a ts above ∙ ap (◌∷◌ a) hb)
  | inr level ↦
      subst (λ x. insert_text a (x ∷ ts) ≡ insert_text x (a ∷ ts)) (level_texts a b below level)
        refl
]

insert-heads :
    (a b : String) (ts : List String)
    → insert_text a ts ≡ a ∷ ts
    → insert_text b ts ≡ b ∷ ts
    → insert_text a (b ∷ ts) ≡ insert_text b (a ∷ ts)
insert-heads a b ts ha hb = elim (After-cases a b) [
  | inl above ↦ sym (insert-front b a ts hb ha (After-swap a b above))
  | inr below ↦ insert-front a b ts ha hb below
]

-- One text belongs behind the head, the other in front of it.
insert-apart :
    (a b t : String) (ts : List String)
    → After a t
    → NotAfter b t
    → insert_text a (insert_text b (t ∷ ts)) ≡ insert_text b (insert_text a (t ∷ ts))
insert-apart a b t ts above below =
    rw (insert-NotAfter b t ts below, insert-After a t ts above)
      (insert-After a b (t ∷ ts) (After-NotAfter a b t above below)
        ∙ ap (◌∷◌ b) (insert-After a t ts above)
        ∙ sym (insert-NotAfter b t (insert_text a ts) below))

insert-swap :
    (a b : String) (ts : List String)
    → insert_text a (insert_text b ts) ≡ insert_text b (insert_text a ts)
unfolding insert_text
insert-swap a b [] = insert-heads a b [] refl refl
insert-swap a b (t ∷ ts) = elim (After-cases a t) [
  | inl above ↦ elim (After-cases b t) [
    | inl above' ↦
        rw (insert-After b t ts above', insert-After a t ts above)
          (insert-After a t (insert_text b ts) above
            ∙ ap (◌∷◌ t) (insert-swap a b ts)
            ∙ sym (insert-After b t (insert_text a ts) above'))
    | inr below' ↦ insert-apart a b t ts above below'
  ]
  | inr below ↦ elim (After-cases b t) [
    | inl above' ↦ sym (insert-apart b a t ts above' below)
    | inr below' ↦
        rw (insert-NotAfter a t ts below, insert-NotAfter b t ts below')
          (insert-heads a b (t ∷ ts) (insert-NotAfter a t ts below) (insert-NotAfter b t ts below'))
  ]
]

sort-foldr : (l : List String) → sort_texts l ≡ foldr insert_text [] l
unfolding sort_texts
sort-foldr [] = refl
sort-foldr (x ∷ xs) = ap (insert_text x) (sort-foldr xs)

texts_set : IsSet (List String)
texts_set = hlevel (IsScalar-prop)

-- Sorting answers the same for the same texts in another order.
pub sort_texts-Perm : {xs ys : List String} → Perm xs ys → sort_texts xs ≡ sort_texts ys
sort_texts-Perm {xs} {ys} p =
    sort-foldr xs ∙ Perm.foldr-eq texts_set insert_text insert-swap p [] ∙ sym (sort-foldr ys)
