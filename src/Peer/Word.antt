-- ===== src/Peer/Word.antt =====
-- `to_be_bytes` and `from_be_bytes` of the standard library, as src/p2p_network.rs uses them.
use video_proxy_server.Prelude.{ℕ, ◌+◌, ◌*◌, ◌/◌, ◌%◌, ◌^◌, ◌<◌, ◌≡◌, [], ◌∷◌, arith}
use video_proxy_server.Storage.Disk.File.{Bytes}

abbrev pub u32_max : ℕ
u32_max = 4294967295

abbrev pub IsByte : ℕ → Type 0
IsByte b = b < 256

unfoldable pub be16 : ℕ → Bytes
be16 n = n / 256 % 256 ∷ n % 256 ∷ []

unfoldable pub from_be16 : ℕ → ℕ → ℕ
from_be16 a b = a * 256 + b

unfoldable pub be32 : ℕ → Bytes
be32 n = n / 16777216 % 256 ∷ n / 65536 % 256 ∷ n / 256 % 256 ∷ n % 256 ∷ []

unfoldable pub from_be32 : ℕ → ℕ → ℕ → ℕ → ℕ
from_be32 a b c d = a * 16777216 + b * 65536 + c * 256 + d

pub from_be32-be32 :
    (n : ℕ)
    → n < 2 ^ 32
    → from_be32 (n / 16777216 % 256) (n / 65536 % 256) (n / 256 % 256) (n % 256) ≡ n
unfolding from_be32
from_be32-be32 n h = omega arith

pub be32-from_be32 :
    (a b c d : ℕ)
    → IsByte a
    → IsByte b
    → IsByte c
    → IsByte d
    → be32 (from_be32 a b c d) ≡ a ∷ b ∷ c ∷ d ∷ []
unfolding be32 from_be32
be32-from_be32 a b c d ha hb hc hd = ground arith

pub from_be32-lt :
    (a b c d : ℕ) → IsByte a → IsByte b → IsByte c → IsByte d → from_be32 a b c d < 2 ^ 32
unfolding from_be32
from_be32-lt a b c d ha hb hc hd = omega arith

pub from_be16-be16 : (n : ℕ) → n < 65536 → from_be16 (n / 256 % 256) (n % 256) ≡ n
unfolding from_be16
from_be16-be16 n h = omega arith

pub be16-from_be16 : (a b : ℕ) → IsByte a → IsByte b → be16 (from_be16 a b) ≡ a ∷ b ∷ []
unfolding be16 from_be16
be16-from_be16 a b ha hb = ground arith
