-- ===== src/Kaspi/Order.antt =====
-- `List` of internal/infrastructure/memstore/kaspi.go: in what order the panel sees the payments.
use native.Mathlib.Bridge.{le_prop}
use mathlib.Core.List.{Mem, Perm, Pairwise, Pairwise-singleton, forall_mem-cons}
use mathlib.Core.List.Perm
use chaospay.Prelude.{◌≤◌, List, [], ◌∷◌, inl, inr, arith, ltb, Bool-cases}
use chaospay.Prelude.Assoc.{values}
use chaospay.Kaspi.{Payment, KaspiRepo, list, insert_largest, sort_largest}

module _ {F : Type 0} where
  abbrev pub NotOlder : Payment F → Payment F → Type 0
  NotOlder a b = b.payment_id ≤ a.payment_id

  abbrev pub NewestFirst : List (Payment F) → Type 0
  NewestFirst = Pairwise NotOlder

  insert_largest-perm : (x : Payment F) (l : List (Payment F)) → Perm (insert_largest x l) (x ∷ l)
  unfolding insert_largest
  insert_largest-perm x [] = Perm.rfl
  insert_largest-perm x (y ∷ ys) = elim (Bool-cases (ltb x.payment_id y.payment_id)) [
    | inl newer ↦ rw newer (Perm.trans (Perm.cons y (insert_largest-perm x ys)) (Perm.swap x y ys))
    | inr older ↦ rw older Perm.rfl
  ]

  -- What `Pairwise.cons` asks of a new head.
  abbrev First : Payment F → List (Payment F) → Type 0
  First a l = (b : Payment F) → Mem b l → NotOlder a b

  First-cons : (a b : Payment F) {l : List (Payment F)} → NotOlder a b → First a l → First a (b ∷ l)
  First-cons a b newer rest = (forall_mem-cons (λ z. le_prop)).1 (newer, rest)

  First-newer :
      (a b : Payment F) {l : List (Payment F)} → NotOlder a b → First b l → First a (b ∷ l)
  First-newer a b newer rest = First-cons a b newer λ z m. omega (arith, newer, rest z m)

  insert_largest-NewestFirst :
      (x : Payment F) {l : List (Payment F)} → NewestFirst l → NewestFirst (insert_largest x l)
  unfolding insert_largest
  insert_largest-NewestFirst x Pairwise.nil = Pairwise-singleton _ x
  insert_largest-NewestFirst x (Pairwise.cons {a = y} {l = ys} below s) =
      elim (Bool-cases (ltb x.payment_id y.payment_id)) [
        | inl newer ↦
            let all : First y (x ∷ ys) = First-cons y x (ground (arith, newer)) below in
            rw newer (
              Pairwise.cons {a = y} (λ z m. all z ((Perm.mem_iff (insert_largest-perm x ys)).0 m))
                (insert_largest-NewestFirst x s))
        | inr older ↦
            let all : First x (y ∷ ys) = First-newer x y (ground (arith, older)) below in
            rw older (Pairwise.cons {a = x} all (Pairwise.cons {a = y} below s))
      ]

  sort_largest-perm : (l : List (Payment F)) → Perm (sort_largest l) l
  unfolding sort_largest
  sort_largest-perm [] = Perm.rfl
  sort_largest-perm (x ∷ xs) =
      Perm.trans (insert_largest-perm x (sort_largest xs)) (Perm.cons x (sort_largest-perm xs))

  sort_largest-NewestFirst : (l : List (Payment F)) → NewestFirst (sort_largest l)
  unfolding sort_largest
  sort_largest-NewestFirst [] = Pairwise.nil
  sort_largest-NewestFirst (x ∷ xs) = insert_largest-NewestFirst x (sort_largest-NewestFirst xs)

  -- Whatever order Go ranges over the map in, the list holds each stored payment once, and a payment
  -- comes before those with smaller numbers.
  pub list-NewestFirst :
      (order : List (Payment F) → List (Payment F)) (r : KaspiRepo F)
      → ((l : List (Payment F)) → Perm (order l) l)
      → Perm (list order r) (values r.store) × NewestFirst (list order r)
  unfolding list
  list-NewestFirst order r rearranges = (
    Perm.trans (sort_largest-perm (order (values r.store))) (rearranges (values r.store)),
    sort_largest-NewestFirst (order (values r.store)),
  )
