-- ===== src/Policy/Admission/Targets.antt =====
-- src/utils/network_policy.rs: the text of a target names one host and one port.
use video_proxy_server.Prelude.{
  ℕ, zero, suc, ◌+◌, ◌-◌, ◌*◌, ◌/◌, ◌%◌, ◌<◌, ◌≡◌, List, subst, refl, sym, ap, ◌∙◌, [], ◌∷◌, ◌++◌,
  All, arith,
}
use video_proxy_server.Strings.{Text, digits, show}
use video_proxy_server.Strings.Decimal.{IsDigit, show-IsDigit}
use video_proxy_server.Policy.Admission.{target_of}

-- The number that digits stand for, after those that were read.
value : Text → ℕ → ℕ
value [] n = n
value (c ∷ s) n = value s (n * 10 + (c - b'0'))

value-digits : (fuel n : ℕ) (out : Text) → n < fuel → value (digits fuel n out) 0 ≡ value out n
unfolding digits value
value-digits zero n out h = absurd (omega arith)
value-digits (suc f) n out h = ground (arith, value-digits f (n / 10) ((b'0' + n % 10) ∷ out))

show-injective : (m n : ℕ) → show m ≡ show n → m ≡ n
unfolding show value
show-injective m n h =
    sym (value-digits (suc m) m [] (omega arith))
    ∙ ap (λ s. value s 0) h
    ∙ value-digits (suc n) n [] (omega arith)

heads_eq {ℓ} : {A : Type ℓ} {x y : A} {xs ys : List A} → x ∷ xs ≡ y ∷ ys → (x ≡ y) × (xs ≡ ys)
heads_eq h = (cc, cc)

not_digits : (s rest : Text) → All IsDigit (s ++ b':' ∷ rest) → ⊥
not_digits [] rest (h, _) = omega (arith, h.1)
not_digits (c ∷ s) rest (_, h) = not_digits s rest h

split_at_colon :
    (s t p q : Text)
    → All IsDigit p
    → All IsDigit q
    → s ++ b':' ∷ p ≡ t ++ b':' ∷ q
    → (s ≡ t) × (p ≡ q)
split_at_colon [] [] p q dp dq h = (refl, (heads_eq h).1)
split_at_colon [] (y ∷ t) p q dp dq h =
    absurd (not_digits t q (subst (All IsDigit) (heads_eq h).1 dp))
split_at_colon (x ∷ s) [] p q dp dq h =
    absurd (not_digits s p (subst (All IsDigit) (sym (heads_eq h).1) dq))
split_at_colon (x ∷ s) (y ∷ t) p q dp dq h =
    let (heads, tails) = heads_eq h in
    let (texts, digits_) = split_at_colon s t p q dp dq tails in (cc, digits_)

pub target_of-injective : (h k : Text) (m n : ℕ) → target_of h m ≡ target_of k n → (h ≡ k) × (m ≡ n)
target_of-injective h k m n e =
    let (hosts, ports) = split_at_colon h k (show m) (show n) (show-IsDigit m) (show-IsDigit n) e in
    (hosts, show-injective m n ports)
