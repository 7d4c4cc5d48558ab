-- ===== src/Payment/Repo/Frame.antt =====
-- What `Update` of internal/infrastructure/memstore/pay.go writes, key by key.
use chaospay.Prelude.{ℕ, ◌≡◌, refl, none, some, ◌==◌, if◌then◌else◌}
use chaospay.Prelude.Assoc.{lookup, lookup-insert, nat_eq}
use chaospay.Payment.{Time, Status, Record}
use chaospay.Payment.Repo.{
  PayRepo, Verdict, move, refuse, UpdateFn, entered, settle, update, payment_not_found, err,
}

-- The record that `Update` leaves in the store.
abbrev pub written : Time → Status → Record × ℕ × Verdict → Record
written at from (rec, seed, refuse e) = rec
written at from (rec, seed, move to reason) = entered at from to reason rec

lookup-settle :
    (at : Time) (id : ℕ) (from : Status) (x : Record × ℕ × Verdict) (r : PayRepo) (j : ℕ)
    → lookup j (settle at id from x r).1.by_id
      ≡ (if id == j then some (written at from x) else lookup j r.by_id)
unfolding settle
lookup-settle at id from (rec, seed, refuse e) r j = lookup-insert id j rec r.by_id
lookup-settle at id from (rec, seed, move to reason) r j =
    lookup-insert id j (entered at from to reason rec) r.by_id

next_id-settle :
    (at : Time) (id : ℕ) (from : Status) (x : Record × ℕ × Verdict) (r : PayRepo)
    → (settle at id from x r).1.next_id ≡ r.next_id
unfolding settle
next_id-settle at id from (rec, seed, refuse e) r = refl
next_id-settle at id from (rec, seed, move to reason) r = refl

module _ (at : Time) (id : ℕ) (fn : UpdateFn) (r : PayRepo) where
  pub update_missing : lookup id r.by_id ≡ none → update at id fn r ≡ (err payment_not_found, r)
  unfolding update
  update_missing h = rw (h, update)

  pub update_found :
      {rec : Record}
      → lookup id r.by_id ≡ some rec
      → update at id fn r ≡ settle at id rec.status (fn rec r.ref_seed) r
  unfolding update
  update_found h = rw (h, update)

  -- Only the key that is updated changes.
  pub lookup-update :
      {rec : Record} (j : ℕ)
      → lookup id r.by_id ≡ some rec
      → lookup j (update at id fn r).1.by_id
        ≡ (if id == j then some (written at rec.status (fn rec r.ref_seed)) else lookup j r.by_id)
  lookup-update {rec} j h =
      rw (update_found h) (lookup-settle at id rec.status (fn rec r.ref_seed) r j)

  pub next_id-update :
      {rec : Record} → lookup id r.by_id ≡ some rec → (update at id fn r).1.next_id ≡ r.next_id
  next_id-update {rec} h =
      rw (update_found h) (next_id-settle at id rec.status (fn rec r.ref_seed) r)
