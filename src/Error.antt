-- ===== src/Error.antt =====
-- src/utils/error.rs: the error type of every fallible operation and its public face.
use video_proxy_server.Prelude.{◌≡◌, ℕ, String, Option, none, some, List, []}

-- The text of an error. A `format!` keeps its template and its numeric arguments.
pub record Message : Type 0 where
  pub template : String
  pub args : List ℕ

abbrev pub text : String → Message
text s = record { template = s; args = [] }

abbrev pub format : String → List ℕ → Message
format s ns = record { template = s; args = ns }

pub data ProxyError : Type 0 where
  cache : Message → ProxyError
  network : Message → ProxyError
  upstream_authorization_expired : Option ℕ → ProxyError
  invalid_range : Message → ProxyError
  request : Message → ProxyError
  storage : Message → ProxyError
  parse : Message → ProxyError
  io : Message → ProxyError
  method_not_allowed : ProxyError

pub data Result {ℓ} (T : Type ℓ) : Type ℓ where
  ok : T → Result T
  err : ProxyError → Result T

infixl 5 ◌>>=◌ ◌>>◌
abbrev pub ◌>>=◌ {ℓ κ} : {T : Type ℓ} {U : Type κ} → Result T → (T → Result U) → Result U
ok value >>= op = op value
err error >>= op = err error

abbrev pub ◌>>◌ {ℓ} : {U : Type ℓ} → Result (Unit {0}) → Result U → Result U
first >> second = first >>= λ _. second

-- `Option::ok_or`
abbrev pub ok_or {ℓ} : {A : Type ℓ} → Option A → ProxyError → Result A
ok_or none e = err e
ok_or (some a) e = ok a

unfoldable pub status_code : ProxyError → ℕ
status_code (invalid_range m) = 416
status_code (request m) = 400
status_code (network m) = 502
status_code (upstream_authorization_expired i) = 502
status_code (cache m) = 500
status_code (storage m) = 500
status_code (io m) = 500
status_code (parse m) = 502
status_code method_not_allowed = 405

unfoldable pub public_message : ProxyError → String
public_message (invalid_range m) = "Requested range not satisfiable"
public_message (request m) = "Bad request"
public_message (network m) = "Upstream error"
public_message (parse m) = "Upstream error"
public_message (upstream_authorization_expired i) = "Upstream error"
public_message (cache m) = "Internal error"
public_message (storage m) = "Internal error"
public_message (io m) = "Internal error"
public_message method_not_allowed = "Method not allowed"

unfoldable pub with_source_id : ProxyError → Option ℕ → ProxyError
with_source_id (upstream_authorization_expired none) source_id =
    upstream_authorization_expired source_id
with_source_id error source_id = error

unfoldable pub expired_source_id : ProxyError → Option ℕ
expired_source_id (upstream_authorization_expired source_id) = source_id
expired_source_id error = none

abbrev pub malformed : String → ProxyError
malformed s = parse (text s)

abbrev pub refused : String → ProxyError
refused s = request (text s)

pub ok_eq {ℓ} : {A : Type ℓ} {x y : A} → ok x ≡ ok y → x ≡ y
ok_eq h = cc
