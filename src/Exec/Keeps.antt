-- ===== src/Exec/Keeps.antt =====
-- Invariants of operations: `m` keeps `P` whether it succeeds or fails.
use video_proxy_server.Prelude.{◌≡◌, refl, Option, none, some, Bool, true, false, if◌then◌else◌}
use video_proxy_server.Error.{ProxyError, Result, ok, err}
use video_proxy_server.Exec.{Exec, continue, ◌>>=◌, ◌>>◌, attempt}

abbrev pub Keeps {ℓ κ ι} : {S : Type ℓ} {A : Type κ} → (S → Type ι) → Exec S A → Type (ℓ ⊔ ι)
Keeps {S = S} P m = (s : S) → P s → P (m s).1

module _ {ℓ κ ι η} {S : Type ℓ} {A : Type κ} {B : Type η} (P : S → Type ι) where
  keeps_continue :
      (r : Result A) (s : S) (f : A → Exec S B)
      → P s
      → ((a : A) → r ≡ ok a → P (f a s).1)
      → P (continue (r, s) f).1
  keeps_continue (ok a) s f h k = k a refl
  keeps_continue (err e) s f h k = h

  -- The second operation may use that the first succeeded.
  pub Keeps-bind :
      (m : Exec S A) (f : A → Exec S B) (s : S)
      → P (m s).1
      → ((a : A) → (m s).0 ≡ ok a → P (f a (m s).1).1)
      → P ((m >>= f) s).1
  Keeps-bind m f s h k = keeps_continue (m s).0 (m s).1 f h k

module _ {ℓ ι κ} {S : Type ℓ} {B : Type κ} (P : S → Type ι) where
  -- A call of the system changes nothing in the model.
  pub Keeps-attempt :
      (o : Option ProxyError) (f : Exec S B) (s : S) → P s → P (f s).1 → P ((attempt o >> f) s).1
  Keeps-attempt none f s h k = k
  Keeps-attempt (some e) f s h k = h

  -- A guard that fails changes nothing, and one that passes has found its test false.
  pub Keeps-check :
      (b : Bool) (e : ProxyError) (f : Exec S B) (s : S)
      → P s
      → (b ≡ false → P (f s).1)
      → P ((attempt (if b then some e else none) >> f) s).1
  Keeps-check true e f s h k = h
  Keeps-check false e f s h k = k refl
