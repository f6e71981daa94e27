-- ===== src/Protocol/Integers.antt =====
-- Unsigned integers as the bytes that `memcpy` moves on a little-endian host.
use teams_mirror.Prelude.{ℕ, zero, suc, ◌+◌, ◌*◌, ◌/◌, ◌%◌, ◌≡◌, refl, ap, [], ◌∷◌, length, get_or}
use teams_mirror.Bytes.{Bytes}

-- The low `k` bytes of a number, the lowest first.
unfoldable pub le_bytes : ℕ → ℕ → Bytes
le_bytes zero n = []
le_bytes (suc k) n = n % 256 ∷ le_bytes k (n / 256)

-- The 16-bit number in the two bytes at an offset.
unfoldable pub u16_at : ℕ → Bytes → ℕ
u16_at i bytes = get_or bytes i 0 + 256 * get_or bytes (i + 1) 0

pub length-le_bytes : (k n : ℕ) → length (le_bytes k n) ≡ k
unfolding le_bytes
length-le_bytes zero n = refl
length-le_bytes (suc k) n = ap suc (length-le_bytes k (n / 256))
