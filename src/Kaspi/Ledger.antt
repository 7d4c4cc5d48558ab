-- ===== src/Kaspi/Ledger.antt =====
-- The store of internal/infrastructure/memstore/kaspi.go: which payments there are, and what their
-- statuses are, after any calls.
use chaospay.Prelude.{
  ℕ, ◌+◌, ◌≤◌, ◌<◌, String, ◌≡◌, refl, ◌∙◌, ap, false, none, some, List, [], ◌∷◌, inl, inr, arith,
  ◌==◌, ==_iff, Bool-cases, Option-cases, if◌then◌else◌,
}
use chaospay.Prelude.Words.{word_size, add64}
use chaospay.Prelude.Assoc.{lookup, insert, lookup-insert, nat_eq}
use chaospay.Payment.{Time}
use chaospay.Kaspi.{Status, wait, Payment, KaspiRepo, create_link, get_status, set_status}

-- A call that changes the store.
pub data Call (F : Type 0) : Type 0 where
  creating : Time → String → F → Call F
  setting : ℕ → Status → Call F

module _ {F : Type 0} where
  unfoldable pub run : Call F → KaspiRepo F → KaspiRepo F
  run (creating now external_id amount) r = (create_link now external_id amount r).1
  run (setting id status) r = (set_status id status r).1

  unfoldable pub run_all : List (Call F) → KaspiRepo F → KaspiRepo F
  run_all [] r = r
  run_all (c ∷ cs) r = run_all cs (run c r)

  -- The status that a payment has after the calls, if it has `s` now and no call creates it again: the
  -- last one that was set.
  unfoldable pub last_set : ℕ → List (Call F) → Status → Status
  last_set id [] s = s
  last_set id (creating now external_id amount ∷ cs) s = last_set id cs s
  last_set id (setting k status ∷ cs) s = last_set id cs (if k == id then status else s)

  -- The number of creations.
  unfoldable pub creations : List (Call F) → ℕ
  creations [] = 0
  creations (creating now external_id amount ∷ cs) = 1 + creations cs
  creations (setting k status ∷ cs) = creations cs

  set_status_missing :
      (id : ℕ) (s : Status) (r : KaspiRepo F)
      → lookup id r.store ≡ none
      → set_status id s r ≡ (none, r)
  unfolding set_status
  set_status_missing id s r h = rw (h, set_status)

  set_status_found :
      (id : ℕ) (s : Status) (r : KaspiRepo F) {p : Payment F}
      → lookup id r.store ≡ some p
      → set_status id s r ≡ (
        some (record p { status = s }),
        record r { store = insert id (record p { status = s }) r.store },
      )
  unfolding set_status
  set_status_found id s r h = rw (h, set_status)

  some_inj : {a b : Payment F} → some a ≡ some b → a ≡ b
  some_inj e = cc

  -- What `SetStatus` does to each key.
  get-set_status :
      (k id : ℕ) (s : Status) (r : KaspiRepo F) (p : Payment F)
      → get_status id r ≡ some p
      → get_status id (set_status k s r).1
        ≡ some (record p { status = if k == id then s else p.status })
  unfolding get_status
  get-set_status k id s r p h = elim (Bool-cases (k == id)) [
    | inl hit ↦
        let here : k ≡ id = (==_iff k id).0 hit in
        let found : lookup k r.store ≡ some p = ap (λ j. lookup j r.store) here ∙ h in
        ap (λ x. lookup id x.1.store) (set_status_found k s r found)
        ∙ lookup-insert k id (record p { status = s }) r.store
        ∙ rw hit refl
    | inr miss ↦ elim (Option-cases (lookup k r.store)) [
      | inl missing ↦
          ap (λ x. lookup id x.1.store) (set_status_missing k s r missing) ∙ h ∙ rw miss refl
      | inr (q, found) ↦
          ap (λ x. lookup id x.1.store) (set_status_found k s r found)
          ∙ lookup-insert k id (record q { status = s }) r.store
          ∙ rw miss h
    ]
  ]

  get-create_other :
      (now : Time) (external_id : String) (amount : F) (id : ℕ) (r : KaspiRepo F)
      → (add64 r.id_counter 1 == id) ≡ false
      → get_status id (create_link now external_id amount r).1 ≡ get_status id r
  unfolding get_status create_link
  get-create_other now external_id amount id r other =
      lookup-insert (add64 r.id_counter 1) id _ r.store ∙ rw other refl

  counter-set_status :
      (k : ℕ) (s : Status) (r : KaspiRepo F) → (set_status k s r).1.id_counter ≡ r.id_counter
  counter-set_status k s r = elim (Option-cases (lookup k r.store)) [
    | inl missing ↦ ap (λ x. x.1.id_counter) (set_status_missing k s r missing)
    | inr (q, found) ↦ ap (λ x. x.1.id_counter) (set_status_found k s r found)
  ]

  counter-create :
      (now : Time) (external_id : String) (amount : F) (r : KaspiRepo F)
      → (create_link now external_id amount r).1.id_counter ≡ add64 r.id_counter 1
  unfolding create_link
  counter-create now external_id amount r = refl

  followed :
      (cs : List (Call F)) (id : ℕ) (r : KaspiRepo F) (p : Payment F)
      → get_status id r ≡ some p
      → id ≤ r.id_counter
      → r.id_counter + creations cs < word_size
      → get_status id (run_all cs r) ≡ some (record p { status = last_set id cs p.status })
  unfolding run_all run last_set creations
  followed [] id r p h issued room = h
  followed (creating now external_id amount ∷ cs) id r p h issued room =
      let c = counter-create now external_id amount r in
      let other : (add64 r.id_counter 1 == id) ≡ false = ground (arith, issued, room) in
      followed cs id (create_link now external_id amount r).1 p
        (get-create_other now external_id amount id r other ∙ h) (omega (arith, c, issued, room))
        (omega (arith, c, room))
  followed (setting k s ∷ cs) id r p h issued room =
      let c = counter-set_status k s r in
      followed cs id (set_status k s r).1 (record p { status = if k == id then s else p.status })
        (get-set_status k id s r p h) (omega (arith, c, issued)) (omega (arith, c, room))

  -- A link that is created, followed by any calls: as long as numbers are left (there are 2^64 of them),
  -- the payment is found under its number with what it was created with, and its status is the one that
  -- was set last, or "Wait" if none was. No other payment takes its number.
  pub link_is_followed :
      (cs : List (Call F)) (now : Time) (external_id : String) (amount : F) (r : KaspiRepo F)
      → r.id_counter + 1 + creations cs < word_size
      → let x = create_link now external_id amount r in
        get_status x.0.payment_id (run_all cs x.1)
        ≡ some (record x.0 { status = last_set x.0.payment_id cs wait })
  unfolding create_link get_status
  link_is_followed cs now external_id amount r room =
      let x = create_link now external_id amount r in
      let id = add64 r.id_counter 1 in
      followed cs id x.1 x.0 (lookup-insert id id x.0 r.store ∙ rw ((==_iff id id).1 refl) refl)
        (omega arith) (omega (arith, room))
