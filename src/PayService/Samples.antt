-- ===== src/PayService/Samples.antt =====
-- Payments, inputs and worlds for the examples of the payment service.
use chaospay.Prelude.{
  ◌+◌, ◌≡◌, refl, Bool, true, false, none, some, [], ◌∷◌, arith, inl, inr, Bool-cases, ==_iff, ◌==◌,
  if◌then◌else◌,
}
use mathlib.Core.Path.{subst}
use chaospay.Prelude.Words.{pos}
use chaospay.Prelude.Assoc.{lookup, nat_eq}
use chaospay.Bank.{Bank}
use chaospay.Payment.{
  Status, unset, new, authorized, captured, cancelled, Record, zero_record, no_epay,
}
use chaospay.Payment.Repo.{Clock, ok, new_pay_repo, create, unix_epoch}
use chaospay.PayService.{World, ServiceConfig}
use chaospay.PayService.Freedom
use chaospay.PayService.Freedom.{
  HoldInitInput, hold_init, create_fresh, capture_commit, revoke, revoke_with_outcome, refund_delta,
}
use chaospay.PayService.Epay.{EpayAuthorizeInput, is_bad_amount}
use chaospay.PayService.Evolution.{find, IsSound, IsSoundRecord, HasRoom}
use chaospay.PayService.Machine.{Steps, none_yet, step_on, hold_init_call, call, run, start}
use chaospay.PayService.Answers.Outcomes.{hold_branches}
use chaospay.PayService.Answers.Silence.{by_hold, create_freedom}

abbrev pub clock : Clock
clock i = unix_epoch + i

abbrev pub cfg : ServiceConfig
cfg = record {
  webhook = true;
  epay_webhook = true;
  flitt_webhook = true;
  auto_webhook = record { freedom = true; epay = true; flitt = true };
}

abbrev pub payment_at : Status → Record
payment_at s = record zero_record {
  bank = Bank.freedom;
  payment_id = 7;
  amount = 500;
  captured_amount = 300;
  status = s;
  history = record { at = 1; from = unset; to = s; reason = "create" } ∷ [];
}

abbrev pub world_of : Record → World
world_of rec = record {
  repo = record { by_id = (7, rec) ∷ []; by_order = []; next_id = 7; ref_seed = 0 };
  spawned = [];
}

pub found : (rec : Record) → find 7 (world_of rec) ≡ some rec
unfolding lookup
found rec = refl

pub only :
    {p rec : Record} {b : Bool} → b ≡ true → (if b then some p else none) ≡ some rec → p ≡ rec
only {p} {rec} hit h = grind (arith, hit, h)

pub never : (p rec : Record) {b : Bool} → b ≡ false → (if b then some p else none) ≡ some rec → ⊥
never p rec miss h = grind (arith, miss, h)

pub sound : (s : Status) → IsSound (world_of (payment_at s))
unfolding lookup
sound s = record {
  at_key = λ k rec h. elim (Bool-cases (7 == k)) [
    | inl hit ↦ subst (IsSoundRecord 7 k) (only hit h) (
        subst (λ j. IsSoundRecord 7 j (payment_at s)) ((==_iff 7 k).0 hit)
          (record { key = refl; issued = omega arith; linked = refl }))
    | inr miss ↦ absurd (never (payment_at s) rec miss h)
  ];
}

abbrev pub hold_input : HoldInitInput
hold_input = record {
  order_id = 3;
  merchant_id = 1;
  terminal_id = pos 1;
  cabinet_id = pos 1;
  user_id = 5;
  amount = 500;
  currency = "";
  card_token = "token";
  description = "";
  idempotency_key = "";
  user_phone = "";
  user_email = "";
}

-- The world of a new process, after the first call.
abbrev pub created : World
created = run cfg clock (hold_init_call hold_input) (start unix_epoch)

pub room : HasRoom (start unix_epoch)
unfolding new_pay_repo
room = omega arith

pub created-Steps : Steps cfg (start unix_epoch) created
created-Steps = step_on none_yet room (call clock (hold_init_call hold_input) refl)

-- A payment that is cancelled, and a call that tries to put it on hold.
abbrev pub dead : World
dead = world_of (payment_at cancelled)

pub dead_room : HasRoom dead
dead_room = omega arith

-- A new payment is put on hold.
abbrev pub fresh : World
fresh = world_of (payment_at new)

pub ready : (rec : Record) × ((Freedom.hold cfg clock 7 fresh).0 ≡ ok rec)
ready =
    let (rec, answer, stored, status) =
      hold_branches cfg clock 7 fresh (payment_at new) (found (payment_at new)) in
    (rec, answer)

abbrev pub held : World
held = world_of (payment_at authorized)

-- A captured payment, 300 of 500.
abbrev pub paid : World
paid = world_of (payment_at captured)

pub creates :
    (rec : Record) × ((create_freedom clock (by_hold hold_input) (start unix_epoch)).0 ≡ ok rec)
unfolding hold_init create_fresh create
creates = (_, refl)

abbrev pub epay_payment : Record
epay_payment = record (payment_at authorized) {
  bank = Bank.epay;
  epay = record no_epay { visible_at = 99 };
}

abbrev pub epay_input : EpayAuthorizeInput
epay_input = record {
  order_id = 4;
  amount = pos 700;
  currency = "KZT";
  invoice_id = "000004";
  terminal_id = "t";
  account_id = "";
  card_id = "";
  payment_type = "cardId";
  description = "";
  email = "";
  phone = "";
  postlink = "";
  failure_postlink = "";
  card_save = false;
  client_id = "";
  has_cryptogram = true;
  requires_3ds = false;
}

pub good_amount : is_bad_amount epay_input ≡ false
unfolding is_bad_amount
good_amount = refl

abbrev pub flitt_payment : Record
flitt_payment = record (payment_at new) { bank = Bank.flitt }

abbrev pub paid_by_epay : Record
paid_by_epay = record (payment_at captured) { bank = Bank.epay }

abbrev pub held_by_flitt : Record
held_by_flitt = record (payment_at authorized) { bank = Bank.flitt }
