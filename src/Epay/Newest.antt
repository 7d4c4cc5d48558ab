-- ===== src/Epay/Newest.antt =====
-- Which payment answers for an invoice (`paymentByInvoice` of internal/ports/api/epay/handlers.go).
use mathlib.Core.Path.{subst}
use mathlib.Core.List.{Mem, mem-cons_self, mem-cons_of_mem}
use chaospay.Prelude.{
  ◌≤◌, String, ◌≡◌, refl, sym, ◌∙◌, ap, true, false, Option, none, some, List, [], ◌∷◌, inl, inr,
  ◌⊎◌, arith, ltb, Bool-cases, All,
}
use chaospay.Payment.{Time, Record}
use chaospay.Payment.Repo.{list_records}
use chaospay.PayService.{World}
use chaospay.Epay.Handlers.{EpayConfig}
use chaospay.Epay.Operations.{is_shown_of, newer_of, pick_newest, payment_by_invoice}

module _ (now : Time) (invoice_id : String) where
  abbrev Shown : Record → Type 0
  Shown r = is_shown_of now invoice_id r ≡ true

  abbrev NotLarger : Record → List Record → Type 0
  NotLarger p l = All (λ r. Shown r → r.payment_id ≤ p.payment_id) l

  abbrev Hidden : List Record → Type 0
  Hidden l = All (λ r. is_shown_of now invoice_id r ≡ false) l

  -- A payment with the largest number among those that are shown, or nothing where none is.
  abbrev pub IsNewest : List Record → Option Record → Type 0
  IsNewest l none = All (λ r. is_shown_of now invoice_id r ≡ false) l
  IsNewest l (some p) =
      Mem p l
      × (is_shown_of now invoice_id p ≡ true)
      × All (λ r. is_shown_of now invoice_id r ≡ true → r.payment_id ≤ p.payment_id) l

  abbrev Behind : Option Record → Record → Type 0
  Behind none p = Unit
  Behind (some q) p = q.payment_id ≤ p.payment_id

  -- The same in the middle of the loop: `found` is the best of what has been seen.
  abbrev Picked : Option Record → List Record → Option Record → Type 0
  Picked found l none = (found ≡ none) × Hidden l
  Picked found l (some p) =
      ((found ≡ some p) ⊎ (Mem p l × Shown p)) × NotLarger p l × Behind found p

  unshown : (r : Record) → is_shown_of now invoice_id r ≡ false → Shown r → ⊥
  unshown r hidden shown = cc

  skip :
      (found : Option Record) (r : Record) (l : List Record) (res : Option Record)
      → is_shown_of now invoice_id r ≡ false
      → Picked found l res
      → Picked found (r ∷ l) res
  skip found r l none hidden (e, rest) = (e, (hidden, rest))
  skip found r l (some p) hidden (inl e, rest, behind) =
      (inl e, (λ shown. absurd (unshown r hidden shown), rest), behind)
  skip found r l (some p) hidden (inr (there, shown), rest, behind) = (
    inr (mem-cons_of_mem r there, shown),
    (λ shown'. absurd (unshown r hidden shown'), rest),
    behind,
  )

  -- What `newer_of` keeps: the record, which has the larger number, or what was found.
  abbrev Kept : Option Record → Record → Option Record → Type 0
  Kept found r none = ⊥
  Kept found r (some q) =
      ((q ≡ r) × Behind found r) ⊎ ((found ≡ some q) × (r.payment_id ≤ q.payment_id))

  newer-Kept : (found : Option Record) (r : Record) → Kept found r (newer_of found r)
  newer-Kept none r = inl (refl, tt)
  newer-Kept (some q) r = elim (Bool-cases (ltb q.payment_id r.payment_id)) [
    | inl newer ↦ rw newer (inl (refl, ground (arith, newer)))
    | inr older ↦ rw older (inr (refl, ground (arith, older)))
  ]

  Behind-trans :
      (found : Option Record) (r p : Record)
      → Behind found r
      → r.payment_id ≤ p.payment_id
      → Behind found p
  Behind-trans none r p h le = tt
  Behind-trans (some q) r p h le = omega (arith, h, le)

  -- What is behind the kept one is behind what is larger.
  Kept-Behind :
      (found : Option Record) (q r p : Record)
      → Kept found r (some q)
      → q.payment_id ≤ p.payment_id
      → (r.payment_id ≤ p.payment_id) × Behind found p
  Kept-Behind found q r p (inl (same, behind)) below =
      let le = subst (λ x. x.payment_id ≤ p.payment_id) same below in
      (le, Behind-trans found r p behind le)
  Kept-Behind found q r p (inr (was, less)) below =
      (omega (arith, less, below), subst (λ f. Behind f p) (sym was) below)

  -- Where the kept one is picked in the end.
  Kept-picked :
      (found : Option Record) (q r p : Record) (l : List Record)
      → Shown r
      → Kept found r (some q)
      → q ≡ p
      → (found ≡ some p) ⊎ (Mem p (r ∷ l) × Shown p)
  Kept-picked found q r p l shown (inl (same, behind)) e =
      inr (subst (λ x. Mem x (r ∷ l) × Shown x) (sym same ∙ e) (mem-cons_self, shown))
  Kept-picked found q r p l shown (inr (was, less)) e = inl (was ∙ ap some e)

  some-inj : {q p : Record} → some q ≡ some p → q ≡ p
  some-inj e = cc

  take :
      (found kept : Option Record) (r : Record) (l : List Record) (res : Option Record)
      → Shown r
      → Kept found r kept
      → Picked kept l res
      → Picked found (r ∷ l) res
  take found none r l res shown h picked = absurd h
  take found (some q) r l none shown h (e, rest) = absurd (filled e)
    where
      filled : some q ≡ none → ⊥
      filled e' = cc
  take found (some q) r l (some p) shown h (inl e, rest, below) =
      let (le, behind) = Kept-Behind found q r p h below in
      (Kept-picked found q r p l shown h (some-inj e), ((λ x. le), rest), behind)
  take found (some q) r l (some p) shown h (inr (there, shown'), rest, below) =
      let (le, behind) = Kept-Behind found q r p h below in
      (inr (mem-cons_of_mem r there, shown'), ((λ x. le), rest), behind)

  unmoved : (found : Option Record) → Picked found [] found
  unmoved none = (refl, tt)
  unmoved (some q) = (inl refl, tt, omega arith)

  pick_newest-Picked :
      (found : Option Record) (l : List Record)
      → Picked found l (pick_newest now invoice_id found l)
  unfolding pick_newest
  pick_newest-Picked found [] = unmoved found
  pick_newest-Picked found (r ∷ l) = elim (Bool-cases (is_shown_of now invoice_id r)) [
    | inl shown ↦ rw shown (
        take found (newer_of found r) r l _ shown (newer-Kept found r)
          (pick_newest-Picked (newer_of found r) l))
    | inr hidden ↦ rw hidden (skip found r l _ hidden (pick_newest-Picked found l))
  ]

  Picked-IsNewest : (l : List Record) (res : Option Record) → Picked none l res → IsNewest l res
  Picked-IsNewest l none (e, rest) = rest
  Picked-IsNewest l (some p) (inl e, rest, behind) = absurd (empty e)
    where
      empty : none ≡ some p → ⊥
      empty e' = cc
  Picked-IsNewest l (some p) (inr (there, shown), rest, behind) = (there, shown, rest)

-- The payment that the status of an invoice is told of: among the stored ones of Epay with that invoice
-- that are not hidden at this instant, one with the largest number; there is no answer only where there
-- is no such payment.
pub payment_by_invoice-IsNewest :
    (cfg : EpayConfig) (now : Time) (invoice_id : String) (w : World)
    → IsNewest now invoice_id
        (list_records cfg.order w.repo)
        (payment_by_invoice cfg now invoice_id w)
unfolding payment_by_invoice
payment_by_invoice-IsNewest cfg now invoice_id w =
    let l = list_records cfg.order w.repo in
    Picked-IsNewest now invoice_id l (pick_newest now invoice_id none l)
      (pick_newest-Picked now invoice_id none l)
