-- ===== src/Kaspi.antt =====
-- internal/domain/kaspi/kaspi.go, internal/infrastructure/memstore/kaspi.go and
-- internal/application/kaspi/service.go: payments by a link, whose status the gateway polls. The service
-- passes its calls on to the store. The program only copies amounts (`float64`), so their type is a
-- parameter; a payment's number is a positive Go `int`. Go's order of ranging over the map is an argument.
pub mod Ledger
pub mod Order
mod Tests
use chaospay.Prelude.{
  ℕ, ◌+◌, String, Bool, true, false, ◌||◌, Option, none, some, List, [], ◌∷◌, ltb, if◌then◌else◌,
}
use chaospay.Prelude.Words.{add64}
use chaospay.Prelude.Assoc.{Assoc, lookup, insert, values, nat_eq}
use chaospay.Payment.{Time}

-- `unset` is Go's empty text.
pub data Status : Type 0 where
  unset wait processed error : Status

-- `Status.IsTerminal`
unfoldable pub is_terminal : Status → Bool
is_terminal processed = true
is_terminal error = true
is_terminal _ = false

-- `Payment`
pub record Payment (F : Type 0) : Type 0 where
  pub payment_id : ℕ
  pub external_id : String
  pub amount : F
  pub status : Status
  pub created_at : Time

-- `KaspiRepo`
pub record KaspiRepo (F : Type 0) : Type 0 where
  pub store : Assoc ℕ (Payment F)
  pub id_counter : ℕ

-- `kaspiIDBase`
abbrev pub kaspi_id_base : ℕ
kaspi_id_base = 16600000000

module _ {F : Type 0} where
  -- `NewKaspiRepo`
  unfoldable pub new_kaspi_repo : KaspiRepo F
  new_kaspi_repo = record { store = []; id_counter = kaspi_id_base }

  -- `KaspiRepo.Create`, the service's `CreateLink`
  unfoldable pub create_link : Time → String → F → KaspiRepo F → Payment F × KaspiRepo F
  create_link now external_id amount r =
      let id = add64 r.id_counter 1 in
      let p : Payment F = record {
        payment_id = id;
        external_id = external_id;
        amount = amount;
        status = wait;
        created_at = now;
      } in
      (p, record { store = insert id p r.store; id_counter = id })

  -- `KaspiRepo.Get`, the service's `GetStatus`; `none` is `ErrKaspiNotFound`.
  unfoldable pub get_status : ℕ → KaspiRepo F → Option (Payment F)
  get_status id r = lookup id r.store

  -- `sort.Slice` by `PaymentID`, the largest first.
  unfoldable pub insert_largest : Payment F → List (Payment F) → List (Payment F)
  insert_largest x [] = x ∷ []
  insert_largest x (y ∷ ys) =
      let rest = insert_largest x ys in
      if ltb x.payment_id y.payment_id then y ∷ rest else x ∷ y ∷ ys

  unfoldable pub sort_largest : List (Payment F) → List (Payment F)
  unfolding insert_largest
  sort_largest [] = []
  sort_largest (x ∷ xs) = insert_largest x (sort_largest xs)

  -- `KaspiRepo.List`
  unfoldable pub list : (List (Payment F) → List (Payment F)) → KaspiRepo F → List (Payment F)
  unfolding sort_largest
  list order r = sort_largest (order (values r.store))

  -- `KaspiRepo.SetStatus`; `none` is `ErrKaspiNotFound`.
  unfoldable pub set_status : ℕ → Status → KaspiRepo F → Option (Payment F) × KaspiRepo F
  set_status id status r = elim (lookup id r.store) [
    | none ↦ (none, r)
    | some p ↦
        let p' = record p { status = status } in
        (some p', record r { store = insert id p' r.store })
  ]
