-- ===== src/Exec/Ensures.antt =====
-- What holds of the result and the state when an operation succeeds.
use video_proxy_server.Prelude.{◌≡◌, refl, Option, none, some, Bool, true, false, if◌then◌else◌}
use video_proxy_server.Error.{ProxyError, Result, ok, err}
use video_proxy_server.Exec.{Exec, continue, ◌>>=◌, ◌>>◌, attempt}

abbrev pub Ensures {ℓ κ ι} :
    {S : Type ℓ} {A : Type κ} → (A → S → Type ι) → Result A × S → Type (κ ⊔ ι)
Ensures {A = A} P r = (a : A) → r.0 ≡ ok a → P a r.1

module _ {ℓ κ ι η} {S : Type ℓ} {A : Type κ} {B : Type η} (P : B → S → Type ι) where
  Ensures-continue :
      (r : Result A) (s : S) (f : A → Exec S B)
      → ((a : A) → r ≡ ok a → Ensures P (f a s))
      → Ensures P (continue (r, s) f)
  Ensures-continue (ok a) s f k = k a refl
  Ensures-continue (err e) s f k = λ b h. cc

  -- The second operation may use that the first succeeded.
  pub Ensures-bind :
      (m : Exec S A) (f : A → Exec S B) (s : S)
      → ((a : A) → (m s).0 ≡ ok a → Ensures P (f a (m s).1))
      → Ensures P ((m >>= f) s)
  Ensures-bind m f s k = Ensures-continue (m s).0 (m s).1 f k

module _ {ℓ κ ι} {S : Type ℓ} {B : Type κ} (P : B → S → Type ι) where
  -- A guard that let the operation go on.
  pub Ensures-check :
      (b : Bool) (e : ProxyError) (f : Exec S B) (s : S)
      → (b ≡ false → Ensures P (f s))
      → Ensures P ((attempt (if b then some e else none) >> f) s)
  Ensures-check true e f s k = λ a h. cc
  Ensures-check false e f s k = k refl

  -- A call of the system that did not fail.
  pub Ensures-attempt :
      (o : Option ProxyError) (f : Exec S B) (s : S)
      → Ensures P (f s)
      → Ensures P ((attempt o >> f) s)
  Ensures-attempt none f s k = k
  Ensures-attempt (some e) f s k = λ a h. cc
