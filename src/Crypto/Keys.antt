-- ===== src/Crypto/Keys.antt =====
-- `generateKey` and `createToken` of util/Crypto.cpp.
pub mod Laws
use ey_ps.Prelude.{ℕ, zero, suc, ◌+◌, ◌/◌, ◌%◌, Bool, true, List, [], ◌∷◌, ◌++◌, ltb, if◌then◌else◌}
use ey_ps.Prelude.Exec.{Exec, ok, pure, ◌>>=◌, ◌>>◌}
use ey_ps.Prelude.Decimal.{to_string}
use ey_ps.Wire.DynamicBuffer
use ey_ps.Wire.DynamicBuffer.{DynamicBuffer, write}
use ey_ps.Crypto.Mersenne.{seed, next}

-- for (i = 0; i < 4096; i += 8) buf.Write<uint64_t>(generator(), true), for the rounds left.
unfoldable pub write_words : ℕ → List ℕ → Exec DynamicBuffer (Unit {0})
write_words zero generator = pure tt
write_words (suc rounds) generator =
    write 8 (next generator).0 true >> write_words rounds (next generator).1

-- The generator after `seed(seed); seed(generator()); generator();`
unfoldable pub seeded : ℕ → List ℕ
seeded seed_value = (next (seed (next (seed seed_value)).0)).1

unfoldable pub generate_key : ℕ → List ℕ
generate_key seed_value =
    DynamicBuffer.get_data_ownership (write_words 512 (seeded seed_value) (DynamicBuffer.make 0)).1

-- One digit of `%02x`.
unfoldable pub hex_digit : ℕ → ℕ
hex_digit d = if ltb d 10 then 48 + d else 87 + d

-- for (i …) sprintf(&mdString[i * 2], "%02x", digest[i])
unfoldable pub hex : List ℕ → List ℕ
unfolding hex_digit
hex [] = []
hex (b ∷ bs) = hex_digit (b / 16) ∷ hex_digit (b % 16) ∷ hex bs

-- `sha1` is OpenSSL's digest; `now` is the clock's count since the epoch.
unfoldable pub create_token : (List ℕ → List ℕ) → ℕ → List ℕ
create_token sha1 now = hex (sha1 (to_string (next (seed now)).0))
