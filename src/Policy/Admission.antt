-- ===== src/Policy/Admission.antt =====
-- src/utils/network_policy.rs: `NetworkPolicy`, whether a URL may be requested.
--
-- `Url::parse` and the resolver of names are not of this program: what they answer is an argument.
-- A moment is a number of nanoseconds. A poisoned lock of the table is a flag of the environment.
pub mod Targets
pub mod Table
pub mod History
pub mod Vouched
use video_proxy_server.Prelude.{
  ℕ, zero, suc, ◌+◌, ◌-◌, ◌%◌, Bool, true, false, ◌&&◌, ◌||◌, not, Option, none, some, List, [],
  ◌∷◌, ◌++◌, map, codes, leb, ltb, ◌==◌, if◌then◌else◌, length, get_elem?,
}
use video_proxy_server.Map.{nat_eq, list_eq, ◌=?◌, lookup, insert, remove, contains_key}
use video_proxy_server.Error.{ProxyError, Result, ok, err, ok_or, refused, network, text}
use video_proxy_server.Exec.{Exec, ◌>>=◌, ◌>>◌, pure, lift, gets, modify, attempt}
use video_proxy_server.Strings.{Text, is_empty, trim, show}
use video_proxy_server.Policy.{IpAddr, is_allowed_target}

-- What the program reads of a `Url`; the port is `port_or_known_default`.
pub record Url : Type 0 where
  pub scheme : Text
  pub username : Text
  pub has_password : Bool
  pub host : Option Text
  pub port : Option ℕ

abbrev pub Admitted : Type 0
Admitted = List (Text × ℕ)

pub record NetworkPolicy : Type 0 where
  pub allowed_hosts : List Text
  pub admitted : Admitted

-- What a call of `validate` meets: the moment at which the table is read and the one at which it is
-- written, what the resolver answers, whether the lock is poisoned, and which entry a full table
-- gives up.
pub record Moment : Type 0 where
  pub now : ℕ
  pub later : ℕ
  pub resolve : Text → ℕ → Option (List IpAddr)
  pub poisoned : Bool
  pub victim : ℕ

abbrev pub admission_ttl : ℕ
admission_ttl = 30000000000

abbrev pub max_admission_entries : ℕ
max_admission_entries = 1024

abbrev pub lower : ℕ → ℕ
lower c = if leb b'A' c && leb c b'Z' then c + 32 else c

-- `to_ascii_lowercase`
abbrev pub to_ascii_lowercase : Text → Text
to_ascii_lowercase = map lower

abbrev pub keep_host : Text → List Text → List Text
keep_host [] hosts = hosts
keep_host (c ∷ host) hosts = (c ∷ host) ∷ hosts

unfoldable pub host_set : List Text → List Text
host_set [] = []
host_set (host ∷ hosts) = keep_host (to_ascii_lowercase (trim host)) (host_set hosts)

unfoldable pub allow_hosts : List Text → NetworkPolicy
allow_hosts hosts = record { allowed_hosts = host_set hosts; admitted = [] }

abbrev pub deny_all : NetworkPolicy
deny_all = record { allowed_hosts = []; admitted = [] }

unfoldable pub is_listed : Text → List Text → Bool
is_listed host [] = false
is_listed host (allowed ∷ hosts) = allowed =? host || is_listed host hosts

-- `at.elapsed() < ADMISSION_TTL`
abbrev pub is_recent : ℕ → ℕ → Bool
is_recent now at = ltb (now - at) admission_ttl

abbrev pub recent_entry : ℕ → Option ℕ → Bool
recent_entry now none = false
recent_entry now (some at) = is_recent now at

unfoldable pub is_recently_admitted : Moment → Text → Admitted → Bool
is_recently_admitted m target admitted =
    not m.poisoned && recent_entry m.now (lookup target admitted)

-- `retain` of what is recent.
unfoldable pub retain_recent : ℕ → Admitted → Admitted
retain_recent now [] = []
retain_recent now ((target, at) ∷ admitted) =
    let rest = retain_recent now admitted in if is_recent now at then (target, at) ∷ rest else rest

abbrev pub key_of : Option (Text × ℕ) → Text
key_of none = []
key_of (some entry) = entry.0

-- `keys().next()`, any key; an empty table has none.
unfoldable pub drop_any : ℕ → Admitted → Admitted
drop_any victim [] = []
drop_any victim (entry ∷ admitted) =
    remove (key_of (get_elem? (entry ∷ admitted) (victim % length (entry ∷ admitted))))
      (entry ∷ admitted)

unfoldable pub make_room : Moment → Text → Admitted → Admitted
make_room m target admitted =
    let kept = retain_recent m.later admitted in
    if leb max_admission_entries (length admitted) && not (contains_key target admitted)
    then (if leb max_admission_entries (length kept) then drop_any m.victim kept else kept)
    else admitted

unfoldable pub remember_admission : Moment → Text → NetworkPolicy → NetworkPolicy
remember_admission m target policy =
    if m.poisoned
    then policy
    else record policy { admitted = insert target m.later (make_room m target policy.admitted) }

abbrev pub is_http : Text → Bool
is_http scheme = scheme =? codes "http" || scheme =? codes "https"

-- `format!("{host}:{port}")`
abbrev pub target_of : Text → ℕ → Text
target_of host port = host ++ (b':' ∷ show port)

-- The loop over the addresses, which counts those that are public.
unfoldable pub count_public : List IpAddr → ℕ
count_public [] = 0
count_public (address ∷ addresses) =
    (if is_allowed_target address then 1 else 0) + count_public addresses

unfoldable pub check_addresses : List IpAddr → Result (Unit {0})
check_addresses addresses =
    if length addresses == 0
    then err (network (text "上游主机没有可用地址"))
    else if count_public addresses == 0
    then err (refused "上游主机解析到非公网地址")
    else ok tt

-- What is done for a target that was not admitted recently.
unfoldable pub admit : Moment → Text → ℕ → Text → Exec NetworkPolicy (Unit {0})
admit m host port target = do
  addresses ← lift (ok_or (m.resolve host port) (network (text "无法解析上游主机")))
  lift (check_addresses addresses)
  modify (remember_admission m target)

abbrev pub unless_recent : Bool → Exec NetworkPolicy (Unit {0}) → Exec NetworkPolicy (Unit {0})
unless_recent true m = pure tt
unless_recent false m = m

unfoldable pub validate_url : Moment → Url → Exec NetworkPolicy (Unit {0})
validate_url m url = do
  attempt (if not (is_http url.scheme) then some (refused "仅允许 HTTP(S) 上游") else none)
  attempt (
      if not (is_empty url.username) || url.has_password
      then some (refused "上游 URL 不允许包含凭据")
      else none)
  given ← lift (ok_or url.host (refused "上游 URL 缺少主机"))
  hosts ← gets (λ policy. policy.allowed_hosts)
  attempt (
      if not (is_listed (to_ascii_lowercase given) hosts)
      then some (refused "上游主机不在白名单中")
      else none)
  port ← lift (ok_or url.port (refused "无效的上游端口"))
  recent ←
      gets (λ policy.
        is_recently_admitted m (target_of (to_ascii_lowercase given) port) policy.admitted)
  unless_recent recent
      (admit m (to_ascii_lowercase given) port (target_of (to_ascii_lowercase given) port))

unfoldable pub validate : (Text → Option Url) → Moment → Text → Exec NetworkPolicy (Unit {0})
validate parse m raw_url = do
  url ← lift (ok_or (parse raw_url) (refused "无效的上游 URL"))
  validate_url m url

-- `PublicOnlyResolverV1::call`: the addresses that a connection may use. The error is an I/O error
-- of the connector.
unfoldable pub only_allowed : List IpAddr → List IpAddr
only_allowed [] = []
only_allowed (address ∷ addresses) =
    let rest = only_allowed addresses in if is_allowed_target address then address ∷ rest else rest
