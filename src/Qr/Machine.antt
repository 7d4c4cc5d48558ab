-- ===== src/Qr/Machine.antt =====
-- The service of internal/application/qr/service.go as a machine: a step is a call of one of its
-- methods, or a timer that fires.
use chaospay.Prelude.{
  String, ◌≡◌, refl, sym, ◌∙◌, ap, Bool, true, false, none, some, inl, inr, ◌⊎◌, str_eq, eq_iff,
  Bool-cases, Option-cases, if◌then◌else◌,
}
use mathlib.Core.Path.{subst}
use chaospay.Prelude.Assoc.{string_eq}
use chaospay.Payment.{Time}
use chaospay.Qr.{Status, scanned, success, expired, status_eq, is_terminal, Code}
use chaospay.Qr.Repo.{
  QrReply, QrRepo, ok, err, get, update_status, mark_webhook_sent, apply_refund_confirmation,
  confirmed, refund_already_confirmed,
}
use chaospay.Qr.Service.{
  Task, World, GenerateInput, generate, generated, change_status, send_webhook, confirm_refund,
  auto_expire, and_then, is_over, spawn, maybe_webhook_of,
}
use chaospay.Qr.Finality.{
  find, insert_hit, Same, Kept, stays, Kept-create, Kept-update_status, Kept-mark_webhook_sent,
  Kept-apply_refund_confirmation,
}

-- One step. The identifier of a new code is one that no code has.
pub data Step {F : Type 0} (w w' : World F) : Type 0 where
  generating :
      (no_amount : F) (now : Time) (uuid url : String) (image : String ⊎ String)
      (in_ : GenerateInput F)
      → find uuid w.repo ≡ none
      → w' ≡ (generate no_amount now uuid url image in_ w).1
      → Step w w'
  changing :
      (format : Time → String) (now : Time) (uuid : String) (status : Status)
      → w' ≡ (change_status format now uuid status w).1
      → Step w w'
  sending : (uuid : String) → w' ≡ (send_webhook uuid w).1 → Step w w'
  confirming :
      (format : Time → String) (now : Time) (uuid reference parent : String) (amount : F)
      → w' ≡ (confirm_refund format now uuid reference parent amount w).1
      → Step w w'
  expiring :
      (format : Time → String) (now : Time) (uuid : String)
      → w' ≡ auto_expire format now uuid w
      → Step w w'

pub data Steps {F : Type 0} (w : World F) : World F → Type 0 where
  none_yet : Steps w w
  step_on : {u v : World F} → Steps w u → Step u v → Steps w v

maybe_spawned :
    {F : Type 0} (b : Bool) (t : Task F) (w : World F) → (if b then spawn t w else w).repo ≡ w.repo
unfolding spawn
maybe_spawned true t w = refl
maybe_spawned false t w = refl

module _ {F : Type 0} (id : String) (c : Code F) where
  Kept-if :
      (b : Bool) (x y : QrReply F × World F)
      → Kept id c x.1.repo
      → Kept id c y.1.repo
      → Kept id c (if b then x else y).1.repo
  Kept-if true x y p q = p
  Kept-if false x y p q = q

  and_then-repo :
      (x : QrReply F × QrRepo F) (f : Code F → World F → World F) (w : World F)
      → ((d : Code F) (v : World F) → (f d v).repo ≡ v.repo)
      → Kept id c x.1
      → Kept id c (and_then x f w).1.repo
  and_then-repo (ok d, r) f w same k = subst (Kept id c) (sym (same d (record w { repo = r }))) k
  and_then-repo (err e, r) f w same k = k

  module _ (w : World F) (h : find id w.repo ≡ some c) (over : is_terminal c.status ≡ true) where
    nothing : Kept id c w.repo
    nothing = stays id c w.repo h over

    another : (uuid : String) → find uuid w.repo ≡ none → str_eq uuid id ≡ false
    another uuid fresh = elim (Bool-cases (str_eq uuid id)) [
      | inl hit ↦ absurd (clash (sym fresh ∙ ap (λ k. find k w.repo) ((eq_iff uuid id).0 hit) ∙ h))
      | inr other ↦ other
    ]
      where
        clash : none ≡ some c → ⊥
        clash e = cc

    Kept-generate :
        (no_amount : F) (now : Time) (uuid url : String) (image : String ⊎ String)
        (in_ : GenerateInput F)
        → find uuid w.repo ≡ none
        → Kept id c (generate no_amount now uuid url image in_ w).1.repo
    unfolding generate generated spawn
    Kept-generate no_amount now uuid url (inl e) in_ fresh =
        Kept-if (str_eq in_.bin "") _ _ nothing (
          Kept-if (str_eq in_.tid "") _ _ nothing (Kept-if (str_eq in_.mid "") _ _ nothing nothing))
    Kept-generate no_amount now uuid url (inr picture) in_ fresh =
        Kept-if (str_eq in_.bin "") _ _ nothing (
          Kept-if (str_eq in_.tid "") _ _ nothing (
            Kept-if (str_eq in_.mid "") _ _ nothing (
              Kept-create id c w.repo h over now (generated no_amount now uuid url picture in_)
                (another uuid fresh))))

    Kept-change :
        (format : Time → String) (now : Time) (uuid : String) (status : Status)
        → Kept id c (change_status format now uuid status w).1.repo
    unfolding change_status
    Kept-change format now uuid status =
        and_then-repo (update_status format now uuid status w.repo) _ w
          (λ d v. maybe_spawned (is_terminal d.status) (maybe_webhook_of d) v)
          (Kept-update_status id c w.repo h over format now uuid status)

    Kept-send : (uuid : String) → Kept id c (send_webhook uuid w).1.repo
    unfolding send_webhook spawn
    Kept-send uuid =
        and_then-repo (mark_webhook_sent uuid w.repo) _ w (λ d v. refl)
          (Kept-mark_webhook_sent id c w.repo h over uuid)

    Kept-confirm :
        (format : Time → String) (now : Time) (uuid reference parent : String) (amount : F)
        → Kept id c (confirm_refund format now uuid reference parent amount w).1.repo
    unfolding confirm_refund
    Kept-confirm format now uuid reference parent amount =
        and_then-repo (apply_refund_confirmation format now uuid reference parent amount w.repo) _ w
          (λ d v. refl)
          (Kept-apply_refund_confirmation id c w.repo h over format now uuid reference parent
            amount)

    Kept-expire :
        (format : Time → String) (now : Time) (uuid : String)
        → Kept id c (auto_expire format now uuid w).repo
    unfolding auto_expire spawn
    Kept-expire format now uuid = elim (Bool-cases (is_over (get uuid w.repo))) [
      | inl done ↦ rw done nothing
      | inr live ↦ rw live (
          and_then-repo (update_status format now uuid expired w.repo) _ w (λ d v. refl)
            (Kept-update_status id c w.repo h over format now uuid expired))
    ]

    Kept-Step : {w' : World F} → Step w w' → Kept id c w'.repo
    Kept-Step (generating no_amount now uuid url image in_ fresh e) =
        rw e (Kept-generate no_amount now uuid url image in_ fresh)
    Kept-Step (changing format now uuid status e) = rw e (Kept-change format now uuid status)
    Kept-Step (sending uuid e) = rw e (Kept-send uuid)
    Kept-Step (confirming format now uuid reference parent amount e) =
        rw e (Kept-confirm format now uuid reference parent amount)
    Kept-Step (expiring format now uuid e) = rw e (Kept-expire format now uuid)

Same-trans : {F : Type 0} (a b c : Code F) → Same a b → Same b c → Same a c
Same-trans {F} a b c p q = q ∙ ap (λ (x : Code F). record x { webhook_sent = c.webhook_sent }) p

-- A code in a terminal status (success, expired, cancelled or error) stays as it is for ever, whatever
-- is called and whichever timers fire: only the mark that its webhook was sent may still be set.
pub terminal_for_ever :
    {F : Type 0} {w w' : World F} (id : String) (c : Code F)
    → find id w.repo ≡ some c
    → is_terminal c.status ≡ true
    → Steps w w'
    → (now : Code F) × (find id w'.repo ≡ some now) × Same c now
terminal_for_ever id c h over none_yet = (c, h, refl)
terminal_for_ever {F} id c h over (step_on {u} {v} before st) =
    let t = terminal_for_ever id c h over before in
    let k = Kept-Step id t.0 u t.1 (ap (λ (x : Code F). is_terminal x.status) t.2 ∙ over) st in
    (k.now, k.is_found, Same-trans c t.0 k.now t.2 k.same)

-- What a confirmation that succeeds leaves behind.
abbrev Settled : {F : Type 0} → String → QrReply F × QrRepo F → Type 0
Settled uuid (ok c, r) =
    (find uuid r ≡ some c) × (c.is_refund ≡ true) × (status_eq c.status success ≡ true)
Settled uuid (err e, r) = Unit

apply-Settled :
    {F : Type 0} (format : Time → String) (now : Time) (uuid reference parent : String) (amount : F)
    (r : QrRepo F)
    → Settled uuid (apply_refund_confirmation format now uuid reference parent amount r)
unfolding apply_refund_confirmation confirmed status_eq
apply-Settled format now uuid reference parent amount r = elim (Option-cases (find uuid r)) [
  | inl missing ↦ rw (missing, apply_refund_confirmation) tt
  | inr (d, found) ↦ elim (Bool-cases d.is_refund) [
    | inr plain ↦ rw (found, apply_refund_confirmation, plain) tt
    | inl refund ↦ elim (Bool-cases (status_eq d.status success)) [
      | inl paid ↦ rw (found, apply_refund_confirmation, refund, paid) tt
      | inr unpaid ↦ elim (Bool-cases (status_eq d.status scanned)) [
        | inr early ↦ rw (found, apply_refund_confirmation, refund, unpaid, early) tt
        | inl ready ↦
            rw (found, apply_refund_confirmation, refund, unpaid, ready)
              (insert_hit uuid _ r.store, refl, refl)
      ]
    ]
  ]
]

apply_again :
    {F : Type 0} (format : Time → String) (now : Time) (uuid reference parent : String) (amount : F)
    (r : QrRepo F) (c : Code F)
    → Settled uuid (ok c, r)
    → apply_refund_confirmation format now uuid reference parent amount r
      ≡ (err refund_already_confirmed, r)
unfolding apply_refund_confirmation
apply_again format now uuid reference parent amount r c s =
    rw (s.0, apply_refund_confirmation, s.1, s.2) refl

-- A refund code can be confirmed once: after a confirmation that succeeded, another one answers
-- "already confirmed" and changes nothing.
pub confirm_twice :
    {F : Type 0} (format : Time → String) (now now' : Time)
    (uuid reference reference' parent parent' : String) (amount amount' : F) (w : World F)
    (c : Code F)
    → (confirm_refund format now uuid reference parent amount w).0 ≡ ok c
    → confirm_refund format now' uuid reference' parent' amount'
        (confirm_refund format now uuid reference parent amount w).1
      ≡ (err refund_already_confirmed, (confirm_refund format now uuid reference parent amount w).1)
unfolding confirm_refund
confirm_twice {F} format now now' uuid reference reference' parent parent' amount amount' w c e =
    go (apply_refund_confirmation format now uuid reference parent amount w.repo)
      (apply-Settled format now uuid reference parent amount w.repo) e
  where
    go :
        (x : QrReply F × QrRepo F)
        → Settled uuid x
        → (and_then x (λ d v. v) w).0 ≡ ok c
        → confirm_refund format now' uuid reference' parent' amount' (and_then x (λ d v. v) w).1
          ≡ (err refund_already_confirmed, (and_then x (λ d v. v) w).1)
    go (ok d, r) s p =
        ap (λ y. and_then y (λ d v. v) (record w { repo = r }))
          (apply_again format now' uuid reference' parent' amount' r d s)
    go (err x, r) s p = absurd (no_code p)
      where
        no_code : err x ≡ ok c → ⊥
        no_code p = cc
