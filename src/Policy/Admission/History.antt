-- ===== src/Policy/Admission/History.antt =====
-- src/utils/network_policy.rs: each entry of the admission table is vouched for by an earlier call.
use video_proxy_server.Prelude.{
  ℕ, ◌<◌, ◌≡◌, refl, subst, sym, ◌∙◌, ◌⊎◌, inl, inr, Bool, true, false, ◌||◌, not, Option, none,
  some, List, [], ◌∷◌, All, if◌then◌else◌, arith, Bool-cases,
}
use video_proxy_server.Map.{nat_eq, list_eq}
use video_proxy_server.Error.{ProxyError, ok, ok_or, refused, network, text}
use video_proxy_server.Exec.{Exec, lift}
use video_proxy_server.Exec.Keeps.{Keeps-bind, Keeps-attempt}
use video_proxy_server.Strings.{Text, is_empty}
use video_proxy_server.Policy.{IpAddr}
use video_proxy_server.Policy.Admission.{
  Url, Admitted, NetworkPolicy, Moment, to_ascii_lowercase, is_listed, remember_admission, is_http,
  target_of, count_public, check_addresses, admit, unless_recent, validate_url, validate,
}
use video_proxy_server.Policy.Admission.Targets.{target_of-injective}
use video_proxy_server.Policy.Admission.Table.{All-remember}

-- The resolver gave a public address for the host and the port.
abbrev pub Resolved : Moment → Text → ℕ → Type 0
Resolved m host port =
    (addresses : List IpAddr) × (m.resolve host port ≡ some addresses)
    × (0 < count_public addresses)

-- One of the moments gave such an address, and was over at the time given.
abbrev pub ResolvedAt : List Moment → Text → ℕ → ℕ → Type 0
ResolvedAt [] host port at = ⊥
ResolvedAt (m ∷ history) host port at =
    (Resolved m host port × (at ≡ m.later)) ⊎ ResolvedAt history host port at

-- The entry names a host and a port that were resolved when it says.
abbrev pub VouchedBy : List Moment → Text × ℕ → Type 0
VouchedBy history entry =
    (host : Text) × (port : ℕ) × (entry.0 ≡ target_of host port)
    × ResolvedAt history host port entry.1

-- A target has one host and one port, so those that an entry was made for are those it is found by.
pub VouchedBy-target_of :
    (history : List Moment) (host : Text) (port at : ℕ)
    → VouchedBy history (target_of host port, at)
    → ResolvedAt history host port at
VouchedBy-target_of history host port at (h, p, e, r) =
    let (hosts, ports) = target_of-injective host h port p e in
    subst (λ k. ResolvedAt history k port at) (sym hosts)
      (subst (λ k. ResolvedAt history h k at) (sym ports) r)

-- The entries of the table are vouched for, and the list of hosts is the first one.
pub record Sound (hosts : List Text) (history : List Moment) (policy : NetworkPolicy) : Type 0 where
  pub same : policy.allowed_hosts ≡ hosts
  pub vouched : All (VouchedBy history) policy.admitted

All-weaken :
    (m : Moment) (history : List Moment) (admitted : Admitted)
    → All (VouchedBy history) admitted
    → All (VouchedBy (m ∷ history)) admitted
All-weaken m history [] h = tt
All-weaken m history (entry ∷ admitted) ((host, port, e, r), h) =
    ((host, port, e, inr r), All-weaken m history admitted h)

pub check_addresses-ok :
    (addresses : List IpAddr) → check_addresses addresses ≡ ok tt → 0 < count_public addresses
unfolding check_addresses
check_addresses-ok addresses h = ground arith

pub ok_or-some {ℓ} :
    {A : Type ℓ} (o : Option A) (e : ProxyError) (a : A) → ok_or o e ≡ ok a → o ≡ some a
ok_or-some none e a h = cc
ok_or-some (some x) e a h = cc

remember-same :
    (m : Moment) (target : Text) (policy : NetworkPolicy)
    → (remember_admission m target policy).allowed_hosts ≡ policy.allowed_hosts
unfolding remember_admission
remember-same m target policy = elim (Bool-cases m.poisoned) [
  | inl e ↦ rw e refl
  | inr e ↦ rw e refl
]

module _ (hosts : List Text) (history : List Moment) (m : Moment) where
  abbrev After : NetworkPolicy → Type 0
  After = Sound hosts (m ∷ history)

  weakened : (policy : NetworkPolicy) → Sound hosts history policy → After policy
  weakened policy s = record {
    same = s.same;
    vouched = All-weaken m history policy.admitted s.vouched;
  }

  admit-After :
      (host : Text) (port : ℕ) (policy : NetworkPolicy)
      → Sound hosts history policy
      → After (admit m host port (target_of host port) policy).1
  unfolding admit
  admit-After host port policy s =
      let w = weakened policy s in
      Keeps-bind After (lift (ok_or (m.resolve host port) (network (text "无法解析上游主机")))) _ policy w
        λ addresses known.
          Keeps-bind After (lift (check_addresses addresses)) _ policy w λ _ public.
            let resolved : Resolved m host port =
              (addresses, ok_or-some _ _ addresses known, check_addresses-ok addresses public) in
            record {
              same = remember-same m (target_of host port) policy ∙ s.same;
              vouched =
                  All-remember (VouchedBy (m ∷ history)) m (target_of host port) policy
                    (host, port, refl, inl (resolved, refl)) w.vouched;
            }

  unless_recent-After :
      (recent : Bool) (n : Exec NetworkPolicy (Unit {0})) (policy : NetworkPolicy)
      → After policy
      → After (n policy).1
      → After (unless_recent recent n policy).1
  unless_recent-After true n policy h k = h
  unless_recent-After false n policy h k = k

  validate_url-After :
      (url : Url) (policy : NetworkPolicy)
      → Sound hosts history policy
      → After (validate_url m url policy).1
  unfolding validate_url
  validate_url-After url policy s =
      let w = weakened policy s in
      Keeps-attempt After
        (if not (is_http url.scheme) then some (refused "仅允许 HTTP(S) 上游") else none) _ policy w
        (Keeps-attempt After
          (if not (is_empty url.username) || url.has_password
            then some (refused "上游 URL 不允许包含凭据")
            else none)
          _ policy w
          (Keeps-bind After (lift (ok_or url.host (refused "上游 URL 缺少主机"))) _ policy w λ given _.
            Keeps-attempt After
              (if not (is_listed (to_ascii_lowercase given) policy.allowed_hosts)
                then some (refused "上游主机不在白名单中")
                else none)
              _ policy w
              (Keeps-bind After (lift (ok_or url.port (refused "无效的上游端口"))) _ policy w λ port _.
                unless_recent-After _
                  (admit m (to_ascii_lowercase given) port
                    (target_of (to_ascii_lowercase given) port))
                  policy w (admit-After (to_ascii_lowercase given) port policy s))))

  validate-After :
      (parse : Text → Option Url) (raw_url : Text) (policy : NetworkPolicy)
      → Sound hosts history policy
      → After (validate parse m raw_url policy).1
  unfolding validate
  validate-After parse raw_url policy s =
      Keeps-bind After (lift (ok_or (parse raw_url) (refused "无效的上游 URL"))) _ policy
        (weakened policy s) λ url _. validate_url-After url policy s

-- The policy after a sequence of calls of `validate`, whatever they returned.
unfoldable pub after_all :
    (Text → Option Url) → List (Moment × Text) → NetworkPolicy → NetworkPolicy
after_all parse [] policy = policy
after_all parse ((m, raw_url) ∷ calls) policy =
    (validate parse m raw_url (after_all parse calls policy)).1

abbrev pub moments : List (Moment × Text) → List Moment
moments [] = []
moments ((m, raw_url) ∷ calls) = m ∷ moments calls

pub after_all-Sound :
    (parse : Text → Option Url) (calls : List (Moment × Text)) (policy : NetworkPolicy)
    → policy.admitted ≡ []
    → Sound policy.allowed_hosts (moments calls) (after_all parse calls policy)
unfolding after_all
after_all-Sound parse [] policy e = record {
  same = refl;
  vouched = subst (All (VouchedBy [])) (sym e) tt;
}
after_all-Sound parse ((m, raw_url) ∷ calls) policy e =
    validate-After policy.allowed_hosts (moments calls) m parse raw_url
      (after_all parse calls policy) (after_all-Sound parse calls policy e)
