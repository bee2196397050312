-- ===== src/Tests/Wire.antt =====
-- Runs of the buffers, the strings, the cipher and the tokens.
use ey_ps.Prelude.{
  ◌/◌, ℕ, ◌+◌, ◌≤◌, ◌<◌, ◌^◌, ◌≡◌, ◌≢◌, ap, ◌⊎◌, ◌↔◌, ◌*◌, refl, List, [], ◌∷◌, length, All, none,
  some, arith, get_elem?, get_or, ◌%◌, bit_xor,
}
use ey_ps.Prelude.Bytes.{IsByte, codes}
use ey_ps.Prelude.Decimal.{to_string}
use ey_ps.Prelude.Exec.{past_the_end, ok, err, out_of_bounds, out_of_data}
use ey_ps.Wire.DynamicBuffer
use ey_ps.Wire.DynamicBuffer.{DynamicBuffer, write_string, write_long_string, write_to_offset_array}
use ey_ps.Wire.DynamicBuffer.Contents
use ey_ps.Wire.DynamicBuffer.Contents.{Patched, write_to_offset_array_exact}
use ey_ps.Wire.BufferView
use ey_ps.Wire.BufferView.{
  BufferView, read_view, read_impl, read_string, read_long_string, span_at, advance,
}
use ey_ps.Wire.BufferView.Reads
use ey_ps.Wire.BufferView.Reads.{read_view_exact}
use ey_ps.Wire.Strings.{read_string-write_string}
use ey_ps.Crypto.Cipher.{xor}
use ey_ps.Crypto.Cipher.Laws.{xor-xor, xor_bytewise}
use ey_ps.Crypto.Mersenne.{seed, next}
use ey_ps.Crypto.Keys.{create_token}
use ey_ps.Crypto.Keys.Laws.{create_token_exact}
use ey_ps.Tests.Fixtures.{key3}
use mathlib.Core.Option

abbrev fresh : DynamicBuffer
fresh = DynamicBuffer.make 0

abbrev greeting : List ℕ
greeting = codes "hello"

small : length fresh.buffer.items + length greeting < 2 ^ 62
small = omega (arith, ap length (Contents.items-make 0))

read_string-write_string_example :
    (b' : DynamicBuffer) × (write_string greeting fresh ≡ (ok tt, b'))
    × ((read_string
          (record (BufferView.make b'.buffer.items) { cur_data_offset = fresh.cur_offset })).0
        ≡ ok greeting)
read_string-write_string_example =
    read_string-write_string greeting fresh (Contents.make-IsValid 0) (omega arith) small

abbrev filled : DynamicBuffer
filled = record { buffer = record { items = greeting; capacity = 8 }; cur_offset = 5 }

write_to_offset_array_exact_example :
    ((1 + length key3 < length greeting)
      × ((b' : DynamicBuffer) × (write_to_offset_array key3 1 filled ≡ (ok tt, b'))
          × Patched key3 1 filled b'))
    ⊎ ((length greeting ≤ 1 + length key3)
        × (write_to_offset_array key3 1 filled ≡ (err out_of_bounds, filled)))
write_to_offset_array_exact_example =
    write_to_offset_array_exact key3 1 filled (record { at_end = refl; fits = omega arith })
      (omega arith) (omega arith)

abbrev viewed : BufferView
viewed = BufferView.make greeting

read_view_exact_example :
    ((viewed.cur_data_offset + 2 ≤ length viewed.data_view)
      × (viewed.cur_data_offset < length viewed.data_view)
      × (read_view 2 viewed ≡ (ok (span_at 2 viewed), advance 2 viewed))
      × (read_impl 2 viewed ≡ (ok (span_at 2 viewed), advance 2 viewed))
      × (length (span_at 2 viewed) ≡ 2)
      × Reads.IsValid (advance 2 viewed))
    ⊎ ((viewed.cur_data_offset ≡ length viewed.data_view)
        × (◌≡◌ {A = ℕ} 2 0)
        × (read_view 2 viewed ≡ (err past_the_end, viewed))
        × (read_impl 2 viewed ≡ (err past_the_end, viewed)))
    ⊎ ((length viewed.data_view < viewed.cur_data_offset + 2)
        × (read_view 2 viewed ≡ (err out_of_data, viewed))
        × (read_impl 2 viewed ≡ (err out_of_data, viewed)))
read_view_exact_example =
    read_view_exact 2 viewed (record { inside = omega arith; small = omega arith }) (omega arith)

xor-xor_example :
    (sent : List ℕ) × (xor greeting key3 ≡ some sent)
    × (xor sent key3 ≡ some greeting)
    × (length sent ≡ length greeting)
    × All IsByte sent
xor-xor_example = xor-xor greeting key3 (λ e. cc) (omega arith) (omega arith) (omega arith)

xor_bytewise_example :
    ((greeting ≢ []) × ((key3 ≡ []) ⊎ (2 ^ 31 ≤ length greeting)) × (xor greeting key3 ≡ none))
    ⊎ ((sent : List ℕ) × ((greeting ≡ []) ⊎ ((key3 ≢ []) × (length greeting < 2 ^ 31)))
        × (xor greeting key3 ≡ some sent)
        × ((j : ℕ)
            → get_elem? sent j
              ≡ Option.map
                  (λ b. bit_xor b (get_or key3 (j % length key3) 0))
                  (get_elem? greeting j)))
xor_bytewise_example = xor_bytewise greeting key3

-- A digest of one byte.
abbrev digest : List ℕ → List ℕ
digest text = length text % 256 ∷ []

digest-IsByte : (text : List ℕ) → All IsByte (digest text)
digest-IsByte text = (omega arith, tt)

create_token_exact_example :
    (length (create_token digest 11) ≡ 2 * length (digest (to_string (next (seed 11)).0)))
    × ((i b : ℕ)
        → get_elem? (digest (to_string (next (seed 11)).0)) i ≡ some b
        → (high : ℕ) × (low : ℕ) × (get_elem? (create_token digest 11) (2 * i) ≡ some high)
          × (get_elem? (create_token digest 11) (2 * i + 1) ≡ some low)
          × (get_elem? (codes "0123456789abcdef") (b / 16) ≡ some high)
          × (get_elem? (codes "0123456789abcdef") (b % 16) ≡ some low))
    × ((create_token digest 11 ≡ create_token digest 12)
        ↔ (digest (to_string (next (seed 11)).0) ≡ digest (to_string (next (seed 12)).0)))
create_token_exact_example = create_token_exact digest digest-IsByte 11 12
