-- ===== src/Kaspi/Tests.antt =====
-- A link for an example. Amounts are whole numbers here.
use chaospay.Prelude.{ℕ, ◌+◌, ◌<◌, ◌≡◌, refl, some, List, [], ◌∷◌, arith}
use chaospay.Prelude.Words.{word_size}
use mathlib.Core.List.{Perm, reverse, reverse_perm, map}
use chaospay.Prelude.Assoc.{values, insert}
use chaospay.Kaspi.Order.{NewestFirst, list-NewestFirst}
use chaospay.Kaspi.{
  list, insert_largest, sort_largest, wait, processed, error, KaspiRepo, create_link, get_status,
  kaspi_id_base,
}
use chaospay.Kaspi.Ledger.{
  run, Call, creating, setting, run_all, last_set, creations, link_is_followed,
}

abbrev calls : List (Call ℕ)
calls = creating 6 "order-2" 20 ∷ setting 16600000001 processed ∷ setting 16600000002 error ∷ []

abbrev empty : KaspiRepo ℕ
empty = record { store = []; id_counter = kaspi_id_base }

room : empty.id_counter + 1 + creations calls < word_size
unfolding creations
room = omega arith

link_is_followed_example :
    get_status
      (create_link 5 "order-1" 10 empty).0.payment_id
      (run_all calls (create_link 5 "order-1" 10 empty).1)
    ≡ some (record (create_link 5 "order-1" 10 empty).0 {
      status = last_set (create_link 5 "order-1" 10 empty).0.payment_id calls wait;
    })
link_is_followed_example = link_is_followed calls 5 "order-1" 10 empty room

abbrev two : KaspiRepo ℕ
two = run_all (creating 5 "order-1" 10 ∷ creating 6 "order-2" 20 ∷ []) empty

list-NewestFirst_example :
    Perm (list reverse two) (values two.store) × NewestFirst (list reverse two)
list-NewestFirst_example = list-NewestFirst reverse two reverse_perm

shows_newest_first : map (λ p. p.external_id) (list reverse two) ≡ "order-2" ∷ "order-1" ∷ []
unfolding run_all run create_link list sort_largest insert_largest insert
shows_newest_first = refl
