-- ===== src/RequestLog.antt =====
-- internal/infrastructure/memstore/requestlog.go and internal/domain/requestlog/entry.go: the journal
-- of requests, a ring buffer. The oldest entry is the first of the list.
pub mod Ring
mod Tests
use chaospay.Prelude.{
  ℕ, zero, suc, String, Bool, Option, none, some, List, [], ◌∷◌, ◌++◌, ◌==◌, leb, length, drop,
  reverse, find_first, if◌then◌else◌,
}
use chaospay.Prelude.Words.{ℤ, add64, is_nonpos, to_uint}
use chaospay.Bank.{Bank}
use chaospay.Payment.{Time, is_zero_time}

-- `Entry`
pub record Entry : Type 0 where
  pub id : ℕ
  pub at : Time
  pub bank : Bank
  pub method : String
  pub url : String
  pub endpoint : String
  pub payment_id : String
  pub order_id : String
  pub merchant_id : String
  pub signature_ok : Bool
  pub scenario_hit : String
  pub scenario_name : String
  pub duration_ms : ℤ
  pub status_code : ℤ
  pub request_body : String
  pub response_body : String

-- `RequestLog`. `cap` is positive.
pub record RequestLog : Type 0 where
  pub entries : List Entry
  pub cap : ℕ
  pub next_id : ℕ

-- `DefaultCapacity`
abbrev pub default_capacity : ℕ
default_capacity = 200

-- `NewRequestLog`
unfoldable pub new_request_log : ℤ → RequestLog
new_request_log capacity = record {
  entries = [];
  cap = if is_nonpos capacity then default_capacity else to_uint capacity;
  next_id = 0;
}

-- What `Add` writes into the entry.
abbrev pub stamp_entry : Time → ℕ → Entry → Entry
stamp_entry now id e = record e { id = id; at = if is_zero_time e.at then now else e.at }

-- `Add`
unfoldable pub add : Time → Entry → RequestLog → RequestLog
add now e l =
    let id = add64 l.next_id 1 in
    let e' = stamp_entry now id e in
    record {
      entries =
          if leb l.cap (length l.entries)
          then drop 1 l.entries ++ e' ∷ []
          else l.entries ++ e' ∷ [];
      cap = l.cap;
      next_id = id;
    }

-- `List`, the newest first.
unfoldable pub list : RequestLog → List Entry
list l = reverse l.entries

-- `Get`
unfoldable pub get : ℕ → RequestLog → Option Entry
get id l = find_first (λ e. e.id == id) l.entries

-- `Reset`
unfoldable pub reset : RequestLog → RequestLog
reset l = record l { entries = [] }
