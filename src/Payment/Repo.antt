-- ===== src/Payment/Repo.antt =====
-- internal/infrastructure/memstore/pay.go: the store of card payments. A method takes the store and
-- returns what it answers with the new store. `byID` holds pointers, and `Update` writes through
-- them, also where its callback then fails. `Clock` numbers the readings of `time.Now()` within one
-- call. Go ranges over a map in any order, so `list_records` takes that order as an argument.
pub mod Frame
use chaospay.Prelude.{
  ℕ, ◌-◌, ◌/◌, ◌%◌, String, Bool, true, false, not, ◌&&◌, Option, none, some, List, [], ◌∷◌, ◌++◌,
  ◌==◌, ltb, str_eq, if◌then◌else◌,
}
use chaospay.Prelude.Words.{add64}
use chaospay.Prelude.Assoc.{Assoc, lookup, insert, values, nat_eq}
use chaospay.Payment.{
  Time, is_zero_time, Status, unset, new, authorized, captured, status_eq, Record, StatusSet,
}

-- The errors of the store and of the payment service. `message` is an `errors.New` of its own,
-- `wrapped` a `fmt.Errorf` with `%w`, `send_failed` what a webhook client returned.
pub data PayError : Type 0 where
  payment_not_found invalid_transition : PayError
  already_authorized invalid_state : PayError
  flitt_declined flitt_not_found : PayError
  epay_webhook_not_configured flitt_webhook_not_configured : PayError
  message : String → PayError
  wrapped : String → PayError → PayError
  send_failed : String → PayError

-- Go's `(*pay.Record, error)`: a record, an error, or both.
pub data Reply : Type 0 where
  ok : Record → Reply
  err : PayError → Reply
  ok_err : Record → PayError → Reply

pub record PayRepo : Type 0 where
  pub by_id : Assoc ℕ Record
  pub by_order : Assoc ℕ ℕ
  pub next_id : ℕ
  pub ref_seed : ℕ

abbrev pub Clock : Type 0
Clock = ℕ → Time

-- 1970 as nanoseconds since Go's zero instant, for `UnixMilli` and `Unix`.
abbrev pub unix_epoch : Time
unix_epoch = 62135596800000000000

abbrev pub unix_milli : Time → ℕ
unix_milli t = (t - unix_epoch) / 1000000

abbrev pub unix_seconds : Time → ℕ
unix_seconds t = (t - unix_epoch) / 1000000000

abbrev pub pay_id_base : ℕ
pay_id_base = 1700000000

abbrev pub pay_id_offset_mod : ℕ
pay_id_offset_mod = 100000000

-- `NewPayRepo`
unfoldable pub new_pay_repo : Time → PayRepo
new_pay_repo now = record {
  by_id = [];
  by_order = [];
  next_id = add64 pay_id_base (unix_seconds now % pay_id_offset_mod);
  ref_seed = 0;
}

-- `NextPaymentID`
unfoldable pub next_payment_id : PayRepo → ℕ × PayRepo
next_payment_id r = let id = add64 r.next_id 1 in (id, record r { next_id = id })

-- `NextReference`, over the counter `refSeed`: the reference and the new counter.
unfoldable pub next_reference : Time → ℕ → ℕ × ℕ
next_reference now seed =
    let seed' = add64 seed 1 in (add64 (unix_milli now % 1000000000) (seed' % 1000), seed')

-- What `Create` fills in and appends.
unfoldable pub prepare : Time → Record → Record
prepare now rec =
    let created = if is_zero_time rec.created_at then now else rec.created_at in
    let status = if status_eq rec.status unset then new else rec.status in
    record rec {
      created_at = created;
      status = status;
      currency = if str_eq rec.currency "" then "KZT" else rec.currency;
      history =
          rec.history ++ record { at = created; from = unset; to = status; reason = "create" } ∷ [];
    }

-- `Create`. The caller's pointer is the stored one, so the prepared record is returned too.
unfoldable pub create : Time → Record → PayRepo → Record × PayRepo
unfolding prepare
create now rec r =
    let stored = prepare now rec in
    (
      stored,
      record r {
        by_id = insert stored.payment_id stored r.by_id;
        by_order =
            if stored.order_id == 0
            then r.by_order
            else insert stored.order_id stored.payment_id r.by_order;
      },
    )

-- `Get`
unfoldable pub get : ℕ → PayRepo → Reply
get id r = elim (lookup id r.by_id) [ none ↦ err payment_not_found | some rec ↦ ok rec ]

-- What a callback of `Update` returns: a status with the reason, or an error.
pub data Verdict : Type 0 where
  move : Status → String → Verdict
  refuse : PayError → Verdict

-- A callback sees the record and the counter of references, and may write both.
abbrev pub UpdateFn : Type 0
UpdateFn = Record → ℕ → Record × ℕ × Verdict

-- A callback that leaves the counter alone.
abbrev pub plain : (Record → Record × Verdict) → UpdateFn
plain f rec seed = let (rec', v) = f rec in (rec', seed, v)

-- The end of `Update`: the status and the history, where the status changes.
unfoldable pub entered : Time → Status → Status → String → Record → Record
entered at from to reason rec =
    if not (status_eq to unset) && not (status_eq to from)
    then record rec {
      status = to;
      history = rec.history ++ record { at = at; from = from; to = to; reason = reason } ∷ [];
    }
    else rec

unfoldable pub settle : Time → ℕ → Status → Record × ℕ × Verdict → PayRepo → Reply × PayRepo
unfolding entered
settle at id from (rec, seed, refuse e) r =
    (err e, record r { by_id = insert id rec r.by_id; ref_seed = seed })
settle at id from (rec, seed, move to reason) r =
    let rec' = entered at from to reason rec in
    (ok rec', record r { by_id = insert id rec' r.by_id; ref_seed = seed })

-- `Update`
unfoldable pub update : Time → ℕ → UpdateFn → PayRepo → Reply × PayRepo
unfolding settle
update at id fn r = elim (lookup id r.by_id) [
  | none ↦ (err payment_not_found, r)
  | some rec ↦ settle at id rec.status (fn rec r.ref_seed) r
]

abbrev pub is_refused : Option StatusSet → Status → Bool
is_refused none s = false
is_refused (some allowed) s = not (allowed s)

-- The `switch` of `Transition`.
unfoldable pub stamp : Clock → Status → Record → ℕ → Record × ℕ
unfolding next_reference
stamp clock authorized rec seed =
    let rec' = record rec { authorized_at = clock 0 } in
    if rec.reference == 0
    then (
      record rec' { reference = (next_reference (clock 1) seed).0 },
      (next_reference (clock 1) seed).1,
    )
    else (rec', seed)
stamp clock captured rec seed = (
  record rec {
    captured_at = clock 0;
    captured_amount = if rec.captured_amount == 0 then rec.amount else rec.captured_amount;
  },
  seed,
)
stamp clock _ rec seed = (rec, seed)

unfoldable pub transition_fn : Clock → Option StatusSet → Status → String → UpdateFn
unfolding stamp
transition_fn clock allowed to reason rec seed =
    if is_refused allowed rec.status
    then (rec, seed, refuse invalid_transition)
    else ((stamp clock to rec seed).0, (stamp clock to rec seed).1, move to reason)

-- `Transition`
unfoldable pub transition :
    Clock → ℕ → Option StatusSet → Status → String → PayRepo → Reply × PayRepo
unfolding update transition_fn
transition clock id allowed to reason r =
    update (clock 2) id (transition_fn clock allowed to reason) r

-- `MarkWebhookSent`
unfoldable pub mark_webhook_sent : ℕ → PayRepo → PayRepo
mark_webhook_sent id r = elim (lookup id r.by_id) [
  | none ↦ r
  | some rec ↦ record r { by_id = insert id (record rec { webhook_sent = true }) r.by_id }
]

-- `Reset`
unfoldable pub reset : PayRepo → PayRepo
reset r = record r { by_id = []; by_order = [] }

-- `sort.Slice` by `CreatedAt`, newest first.
insert_newest : Record → List Record → List Record
insert_newest x [] = x ∷ []
insert_newest x (y ∷ ys) =
    let rest = insert_newest x ys in if ltb x.created_at y.created_at then y ∷ rest else x ∷ y ∷ ys

sort_newest : List Record → List Record
unfolding insert_newest
sort_newest [] = []
sort_newest (x ∷ xs) = insert_newest x (sort_newest xs)

-- `List`, for the order in which the range over the map visits the records.
unfoldable pub list_records : (List Record → List Record) → PayRepo → List Record
unfolding sort_newest
list_records order r = sort_newest (order (values r.by_id))
