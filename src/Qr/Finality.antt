-- ===== src/Qr/Finality.antt =====
-- What no operation of internal/application/qr and of its store changes: a code in a terminal status.
use chaospay.Prelude.{
  ℕ, String, ◌≡◌, refl, sym, ◌∙◌, ap, Bool, true, false, Option, some, inl, inr, arith, str_eq,
  eq_iff, Bool-cases, Option-cases, if◌then◌else◌,
}
use chaospay.Prelude.Assoc.{Assoc, lookup, insert, lookup-insert, string_eq}
use chaospay.Payment.{Time}
use chaospay.Qr.{Status, success, scanned, status_eq, is_terminal, Code}
use chaospay.Qr.Repo.{QrRepo, create, update_status, mark_webhook_sent, apply_refund_confirmation}

scanned_is_live : (s : Status) → status_eq s scanned ≡ true → is_terminal s ≡ false
unfolding status_eq is_terminal
scanned_is_live s e = ground arith

module _ {F : Type 0} where
  abbrev pub find : String → QrRepo F → Option (Code F)
  find uuid r = lookup uuid r.store

  -- The same code, but perhaps for the mark of its webhook.
  abbrev pub Same : Code F → Code F → Type 0
  Same c c' = c' ≡ record c { webhook_sent = c'.webhook_sent }

  -- The code is still there.
  pub record Kept (id : String) (c : Code F) (r : QrRepo F) : Type 0 where
    pub now : Code F
    pub is_found : find id r ≡ some now
    pub same : Same c now

  pub insert_hit :
      (id : String) (d : Code F) (m : Assoc String (Code F)) → lookup id (insert id d m) ≡ some d
  insert_hit id d m =
      lookup-insert id id d m ∙ ap (λ b. if b then some d else lookup id m) ((eq_iff id id).1 refl)

  insert_other :
      (uuid id : String) (d : Code F) (m : Assoc String (Code F))
      → str_eq uuid id ≡ false
      → lookup id (insert uuid d m) ≡ lookup id m
  insert_other uuid id d m e =
      lookup-insert uuid id d m ∙ ap (λ b. if b then some d else lookup id m) e

  some_inj : {a b : Code F} → some a ≡ some b → a ≡ b
  some_inj e = cc

  module _ (id : String) (c : Code F) (r : QrRepo F) (h : find id r ≡ some c)
      (over : is_terminal c.status ≡ true) where
    pub stays : Kept id c r
    stays = record { now = c; is_found = h; same = refl }

    -- A write under a key whose code was not terminal is a write under another key.
    Kept-insert :
        (uuid : String) (d x : Code F) (n : ℕ)
        → find uuid r ≡ some d
        → is_terminal d.status ≡ false
        → Kept id c (record { store = insert uuid x r.store; trn_counter = n })
    Kept-insert uuid d x n found live = elim (Bool-cases (str_eq uuid id)) [
      | inl hit ↦
          let same : d ≡ c =
            some_inj (sym found ∙ ap (λ k. find k r) ((eq_iff uuid id).0 hit) ∙ h) in
          absurd (clash (ap (λ (y : Code F). is_terminal y.status) same ∙ over) live)
      | inr other ↦ record {
        now = c;
        is_found = insert_other uuid id x r.store other ∙ h;
        same = refl;
      }
    ]
      where
        clash : {b : Bool} → b ≡ true → b ≡ false → ⊥
        clash p q = cc

    pub Kept-create :
        (now : Time) (code : Code F) → str_eq code.uuid id ≡ false → Kept id c (create now code r)
    unfolding create
    Kept-create now code other = record {
      now = c;
      is_found = insert_other code.uuid id _ r.store other ∙ h;
      same = refl;
    }

    pub Kept-update_status :
        (format : Time → String) (now : Time) (uuid : String) (status : Status)
        → Kept id c (update_status format now uuid status r).1
    unfolding update_status
    Kept-update_status format now uuid status = elim (Option-cases (find uuid r)) [
      | inl missing ↦ rw (missing, update_status) stays
      | inr (d, found) ↦ elim (Bool-cases (is_terminal d.status)) [
        | inl done ↦ rw (found, update_status, done) stays
        | inr live ↦ elim (Bool-cases (status_eq status success)) [
          | inl paid ↦ rw (found, update_status, live, paid) (Kept-insert uuid d _ _ found live)
          | inr unpaid ↦ rw (found, update_status, live, unpaid) (Kept-insert uuid d _ _ found live)
        ]
      ]
    ]

    pub Kept-mark_webhook_sent : (uuid : String) → Kept id c (mark_webhook_sent uuid r).1
    unfolding mark_webhook_sent
    Kept-mark_webhook_sent uuid = elim (Option-cases (find uuid r)) [
      | inl missing ↦ rw (missing, mark_webhook_sent) stays
      | inr (d, found) ↦ elim (Bool-cases (is_terminal d.status)) [
        | inl done ↦ rw (found, mark_webhook_sent, done) (marked uuid d found)
        | inr live ↦ rw (found, mark_webhook_sent, live) stays
      ]
    ]
      where
        marked :
            (uuid : String) (d : Code F)
            → find uuid r ≡ some d
            → Kept id c
                (record r { store = insert uuid (record d { webhook_sent = true }) r.store })
        marked uuid d found = elim (Bool-cases (str_eq uuid id)) [
          | inl hit ↦
              let here : uuid ≡ id = (eq_iff uuid id).0 hit in
              let same : d ≡ c = some_inj (sym found ∙ ap (λ k. find k r) here ∙ h) in
              record {
                now = record d { webhook_sent = true };
                is_found =
                    ap (λ k. lookup id (insert k (record d { webhook_sent = true }) r.store)) here
                    ∙ insert_hit id (record d { webhook_sent = true }) r.store;
                same = ap (λ (y : Code F). record y { webhook_sent = true }) same;
              }
          | inr other ↦ record {
            now = c;
            is_found = insert_other uuid id _ r.store other ∙ h;
            same = refl;
          }
        ]

    pub Kept-apply_refund_confirmation :
        (format : Time → String) (now : Time) (uuid reference parent : String) (amount : F)
        → Kept id c (apply_refund_confirmation format now uuid reference parent amount r).1
    unfolding apply_refund_confirmation
    Kept-apply_refund_confirmation format now uuid reference parent amount =
        elim (Option-cases (find uuid r)) [
          | inl missing ↦ rw (missing, apply_refund_confirmation) stays
          | inr (d, found) ↦ elim (Bool-cases d.is_refund) [
            | inr plain ↦ rw (found, apply_refund_confirmation, plain) stays
            | inl refund ↦ elim (Bool-cases (status_eq d.status success)) [
              | inl paid ↦ rw (found, apply_refund_confirmation, refund, paid) stays
              | inr unpaid ↦ elim (Bool-cases (status_eq d.status scanned)) [
                | inr early ↦ rw (found, apply_refund_confirmation, refund, unpaid, early) stays
                | inl ready ↦
                    rw (found, apply_refund_confirmation, refund, unpaid, ready)
                      (Kept-insert uuid d _ _ found (scanned_is_live d.status ready))
              ]
            ]
          ]
        ]
