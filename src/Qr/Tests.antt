-- ===== src/Qr/Tests.antt =====
-- QR codes for examples. Amounts are whole numbers here.
use chaospay.Prelude.{ℕ, String, ◌≡◌, refl, true, false, some, [], ◌∷◌}
use chaospay.Prelude.Words.{pos}
use chaospay.Prelude.Assoc.{lookup, string_eq}
use chaospay.Payment.{Time}
use chaospay.Qr.{Status, scanned, success, cancelled, is_terminal, Code}
use chaospay.Qr.Repo.{ok, err, refund_already_confirmed, apply_refund_confirmation}
use chaospay.Qr.Service.{World, confirm_refund, auto_expire, change_status}
use chaospay.Qr.Finality.{find, Same}
use chaospay.Qr.Machine.{none_yet, step_on, expiring, changing, terminal_for_ever, confirm_twice}

abbrev code : Status → Code ℕ
code s = record {
  uuid = "u";
  status = s;
  amount = 10;
  bin = "b";
  tid = "t";
  mid = "m";
  trn_id = pos 0;
  trn_date = "";
  qr_base64 = "";
  payment_url = "";
  webhook_sent = false;
  is_refund = true;
  refunded_reference = "";
  refunded_parent_trn_id = "";
  refunded_amount = 0;
  created_at = 1;
}

abbrev world_of : Status → World ℕ
world_of s = record { repo = record { store = ("u", code s) ∷ []; trn_counter = 0 }; spawned = [] }

abbrev format : Time → String
format t = "2026-01-01T00:00:00"

found : find "u" (world_of cancelled).repo ≡ some (code cancelled)
unfolding lookup
found = refl

is_over : is_terminal cancelled ≡ true
unfolding is_terminal
is_over = refl

terminal_for_ever_example :
    (now : Code ℕ) × (find "u"
        (change_status format 9 "u" success (auto_expire format 8 "u" (world_of cancelled))).1.repo
      ≡ some now)
    × Same (code cancelled) now
terminal_for_ever_example =
    terminal_for_ever "u" (code cancelled) found is_over
      (step_on (step_on none_yet (expiring format 8 "u" refl)) (changing format 9 "u" success refl))

confirms : (c : Code ℕ) × ((confirm_refund format 9 "u" "r" "p" 10 (world_of scanned)).0 ≡ ok c)
unfolding confirm_refund apply_refund_confirmation lookup
confirms = (_, refl)

confirm_twice_example :
    confirm_refund format 10 "u" "r2" "p2" 4
      (confirm_refund format 9 "u" "r" "p" 10 (world_of scanned)).1
    ≡ (err refund_already_confirmed, (confirm_refund format 9 "u" "r" "p" 10 (world_of scanned)).1)
confirm_twice_example =
    confirm_twice format 9 10 "u" "r" "r2" "p" "p2" 10 4 (world_of scanned) confirms.0 confirms.1
