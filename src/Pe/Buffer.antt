-- ===== src/Pe/Buffer.antt =====
-- The image buffer of src/emit_pe.c and the stores into it: `calloc`, put_u16, put_u32, put_u64 and
-- the `memset` and `memcpy` that the emitter calls. A store past the end is undefined.
use holy_d.Prelude.{ℕ, zero, suc, ◌+◌, ◌*◌, ◌/◌, ◌%◌, ◌^◌, List, [], ◌∷◌, ltb, ◌==◌, if◌then◌else◌}
use holy_d.Outcome.{Outcome, ok, undefined, ◌>>=◌}

pub data PeError : Type 0 where
  no_expression only_unary_minus bad_division bad_binary not_constant : PeError
  root_not_block top_level_code two_entries entry_parameters entry_body one_return : PeError
  out_of_memory write_failed : PeError

pub record Buffer : Type 0 where
  pub size : ℕ
  pub byte_at : ℕ → ℕ

abbrev pub Write : Type 0
Write = Buffer → Outcome PeError Buffer

-- calloc(1, size)
abbrev pub zeroed : ℕ → Buffer
zeroed n = record { size = n; byte_at = λ _. 0 }

-- image[offset] = (unsigned char)value
abbrev pub put : ℕ → ℕ → Write
put offset value b =
    if ltb offset b.size
    then ok (record b { byte_at = λ i. if i == offset then value % 256 else b.byte_at i })
    else undefined

-- The loop of put_u32 and put_u64 from its round `i` on: `n` rounds are left.
abbrev pub put_bytes : ℕ → ℕ → ℕ → ℕ → Write
put_bytes zero i offset value b = ok b
put_bytes (suc n) i offset value b =
    put (offset + i) (value / 2 ^ (i * 8)) b >>= put_bytes n (i + 1) offset value

abbrev pub put_u16 : ℕ → ℕ → Write
put_u16 offset value b = put offset value b >>= put (offset + 1) (value / 256)

abbrev pub put_u32 : ℕ → ℕ → Write
put_u32 offset value = put_bytes 4 0 offset value

abbrev pub put_u64 : ℕ → ℕ → Write
put_u64 offset value = put_bytes 8 0 offset value

-- memcpy(image + offset, text, n)
abbrev pub put_text : ℕ → List ℕ → Write
put_text offset [] b = ok b
put_text offset (c ∷ cs) b = put offset c b >>= put_text (offset + 1) cs

-- memset(image + offset, 0, n)
abbrev pub put_zeros : ℕ → ℕ → Write
put_zeros offset zero b = ok b
put_zeros offset (suc n) b = put offset 0 b >>= put_zeros (offset + 1) n

-- fwrite(image, 1, n, out): the first n bytes, in order.
abbrev pub bytes_from : ℕ → ℕ → Buffer → List ℕ
bytes_from i zero b = []
bytes_from i (suc n) b = b.byte_at i ∷ bytes_from (i + 1) n b
