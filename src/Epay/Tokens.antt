-- ===== src/Epay/Tokens.antt =====
-- internal/infrastructure/epay/oauth.go: the tokens that the mock has issued. Both tokens of a pair come
-- from a random source, and are arguments.
use chaospay.Prelude.{ℕ, ◌+◌, String, Option, none, some, List, [], str_eq, if◌then◌else◌}
use chaospay.Prelude.Assoc.{Assoc, lookup, insert, values, string_eq}
use chaospay.Payment.{Time}

-- `TokenInfo`
pub record TokenInfo : Type 0 where
  pub access_token : String
  pub refresh_token : String
  pub client_id : String
  pub invoice_id : String
  pub amount : String
  pub terminal : String
  pub issued_at : Time
  pub expires_at : Time

-- `TokenStore`
pub record TokenStore : Type 0 where
  pub tokens : Assoc String TokenInfo

-- `time.Hour`, in nanoseconds.
abbrev pub hour : ℕ
hour = 3600000000000

-- `NewTokenStore`
unfoldable pub new_token_store : TokenStore
new_token_store = record { tokens = [] }

-- The arguments of `Issue`.
pub record Client : Type 0 where
  pub client_id : String
  pub invoice_id : String
  pub amount : String
  pub terminal : String

-- `Issue`
unfoldable pub issue : Time → String → String → Client → TokenStore → TokenInfo × TokenStore
issue now access refresh c s =
    let info : TokenInfo = record {
      access_token = access;
      refresh_token = refresh;
      client_id = c.client_id;
      invoice_id = c.invoice_id;
      amount = c.amount;
      terminal = c.terminal;
      issued_at = now;
      expires_at = now + hour;
    } in
    (info, record { tokens = insert access info s.tokens })

-- `Lookup`: an unknown token gets an entry of its own that is not stored.
unfoldable pub find_token : Time → Time → String → TokenStore → Option TokenInfo
find_token now later token s = if str_eq token "" then none else elim (lookup token s.tokens) [
  | some info ↦ some info
  | none ↦ some (record {
    access_token = token;
    refresh_token = "";
    client_id = "mock";
    invoice_id = "";
    amount = "";
    terminal = "";
    issued_at = now;
    expires_at = later + hour;
  })
]

-- `Reset`
unfoldable pub reset : TokenStore → TokenStore
reset s = record s { tokens = [] }

-- `List`, for the order of the range over the map.
unfoldable pub list : (List TokenInfo → List TokenInfo) → TokenStore → List TokenInfo
list order s = order (values s.tokens)
