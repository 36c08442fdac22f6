-- ===== src/Policy/Admission/Vouched.antt =====
-- src/utils/network_policy.rs: a URL that is accepted leads to a listed host that has a public
-- address, now or as of a recent call.
use video_proxy_server.Prelude.{
  both_true, ℕ, ◌+◌, ◌<◌, ◌≡◌, refl, ap, sym, ◌∙◌, ◌⊎◌, inl, inr, Bool, true, false, ◌||◌, not,
  Option, none, some, List, [], arith,
}
use video_proxy_server.Map.{nat_eq, list_eq, lookup}
use video_proxy_server.Error.{ok, ok_or, refused, network, text}
use video_proxy_server.Exec.{lift}
use video_proxy_server.Exec.Ensures.{Ensures-bind, Ensures-check}
use video_proxy_server.Strings.{Text, is_empty}
use video_proxy_server.Policy.Admission.{
  Url, NetworkPolicy, Moment, admission_ttl, to_ascii_lowercase, is_listed, recent_entry,
  is_recently_admitted, is_http, target_of, check_addresses, admit, unless_recent, validate_url,
  validate,
}
use video_proxy_server.Policy.Admission.Table.{All-lookup}
use video_proxy_server.Policy.Admission.History.{
  Resolved, ResolvedAt, VouchedBy, VouchedBy-target_of, Sound, check_addresses-ok, ok_or-some,
  after_all, moments, after_all-Sound,
}

-- What an accepted URL is.
abbrev pub IsAccepted : List Text → List Moment → Moment → Url → Type 0
IsAccepted hosts history m url =
    (given : Text) × (port : ℕ) × (url.host ≡ some given)
    × (url.port ≡ some port)
    × (is_http url.scheme ≡ true)
    × (is_empty url.username ≡ true)
    × (url.has_password ≡ false)
    × (is_listed (to_ascii_lowercase given) hosts ≡ true)
    × (Resolved m (to_ascii_lowercase given) port
        ⊎ ((at : ℕ) × (m.now < at + admission_ttl)
            × ResolvedAt history (to_ascii_lowercase given) port at))

module _ (hosts : List Text) (history : List Moment) (m : Moment) (policy : NetworkPolicy)
    (s : Sound hosts history policy) where
  recent_found :
      (found : Option ℕ)
      → recent_entry m.now found ≡ true
      → (at : ℕ) × (found ≡ some at) × (m.now < at + admission_ttl)
  recent_found none h = cc
  recent_found (some at) h = (at, refl, ground arith)

  admitted_before :
      (target : Text)
      → is_recently_admitted m target policy.admitted ≡ true
      → (at : ℕ) × (m.now < at + admission_ttl) × VouchedBy history (target, at)
  unfolding is_recently_admitted
  admitted_before target h =
      let (_, r) = both_true (not m.poisoned) _ h in
      let (at, e, fresh) = recent_found (lookup target policy.admitted) r in
      (at, fresh, All-lookup (VouchedBy history) target at policy.admitted s.vouched e)

  admit-Resolved :
      (host : Text) (port : ℕ)
      → (admit m host port (target_of host port) policy).0 ≡ ok tt
      → Resolved m host port
  unfolding admit
  admit-Resolved host port h =
      let P : Unit {0} → NetworkPolicy → Type 0 = λ _ _. Resolved m host port in
      Ensures-bind P (lift (ok_or (m.resolve host port) (network (text "无法解析上游主机")))) _ policy
        (λ addresses known.
          Ensures-bind P (lift (check_addresses addresses)) _ policy λ _ public _ _.
            (addresses, ok_or-some _ _ addresses known, check_addresses-ok addresses public))
        tt h

  accepted_by :
      (host : Text) (port : ℕ) (recent : Bool)
      → is_recently_admitted m (target_of host port) policy.admitted ≡ recent
      → (unless_recent recent (admit m host port (target_of host port)) policy).0 ≡ ok tt
      → Resolved m host port
        ⊎ ((at : ℕ) × (m.now < at + admission_ttl) × ResolvedAt history host port at)
  accepted_by host port true e h =
      let (at, fresh, vouched) = admitted_before (target_of host port) e in
      inr (at, fresh, VouchedBy-target_of history host port at vouched)
  accepted_by host port false e h = inl (admit-Resolved host port h)

  validate_url-IsAccepted :
      (url : Url) → (validate_url m url policy).0 ≡ ok tt → IsAccepted hosts history m url
  unfolding validate_url
  validate_url-IsAccepted url h =
      let P : Unit {0} → NetworkPolicy → Type 0 = λ _ _. IsAccepted hosts history m url in
      Ensures-check P (not (is_http url.scheme)) _ _ policy
        (λ http.
          Ensures-check P (not (is_empty url.username) || url.has_password) _ _ policy λ bare.
            Ensures-bind P (lift (ok_or url.host (refused "上游 URL 缺少主机"))) _ policy λ given hosted.
              Ensures-check P (not (is_listed (to_ascii_lowercase given) policy.allowed_hosts)) _ _
                policy
                λ listed.
                  Ensures-bind P (lift (ok_or url.port (refused "无效的上游端口"))) _ policy
                    λ port ported _ done. (
                      given,
                      port,
                      ok_or-some _ _ given hosted,
                      ok_or-some _ _ port ported,
                      ground arith,
                      ground arith,
                      ground arith,
                      ap (is_listed (to_ascii_lowercase given)) (sym s.same) ∙ ground arith,
                      accepted_by (to_ascii_lowercase given) port _ refl done,
                    ))
        tt h

-- After any calls on a policy with an empty table, a URL that is accepted is one of http or https
-- without credentials whose host is listed, and the resolver gave a public address for its host and
-- port: in this call, or in an earlier one that ended less than 30 seconds before.
pub validate-IsAccepted :
    (parse : Text → Option Url) (policy : NetworkPolicy) (calls : List (Moment × Text)) (m : Moment)
    (raw_url : Text)
    → policy.admitted ≡ []
    → (validate parse m raw_url (after_all parse calls policy)).0 ≡ ok tt
    → (url : Url) × (parse raw_url ≡ some url)
      × IsAccepted policy.allowed_hosts (moments calls) m url
unfolding validate
validate-IsAccepted parse policy calls m raw_url e h =
    let before = after_all parse calls policy in
    let P : Unit {0} → NetworkPolicy → Type 0 = λ _ _.
      (url : Url) × (parse raw_url ≡ some url)
      × IsAccepted policy.allowed_hosts (moments calls) m url in
    Ensures-bind P (lift (ok_or (parse raw_url) (refused "无效的上游 URL"))) _ before
      (λ url parsed _ done. (
        url,
        ok_or-some _ _ url parsed,
        validate_url-IsAccepted policy.allowed_hosts (moments calls) m before
            (after_all-Sound parse calls policy e) url done,
      ))
      tt h
