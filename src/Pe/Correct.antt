-- ===== src/Pe/Correct.antt =====
-- The image of src/emit_pe.c, held to the loader.
use holy_d.Prelude.{ℕ, ◌+◌, ◌*◌, ◌/◌, ◌%◌, ◌^◌, ◌<◌, ◌≡◌, refl, ap, true, none, some, arith}
use holy_d.Prelude.Int.{ℤ}
use holy_d.Prelude.Text.{bytes}
use holy_d.Outcome.{ok, bind-eq-ok}
use holy_d.Syntax.{Node, block, return_stmt}
use holy_d.Pe.Buffer.{Buffer, bytes_from}
use holy_d.Pe.Entry.{
  low_word, return_status, body_status, Entry, entry_status, find_entry, find_exit_status, emit_pe,
}
use holy_d.Pe.Image.{build_image, pe_file_size}
use holy_d.Pe.Loader.{Run, load}

abbrev pub exit_run : ℕ → Run
exit_run status = record {
  dll = bytes "KERNEL32.dll";
  symbol = bytes "ExitProcess";
  argument = status;
  reserved = 0x28;
}

four_bytes :
    (s : ℕ)
    → s < 2 ^ 32
    → s / 1 % 256
        + 256 * (s / 256 % 256 + 256 * (s / 65536 % 256 + 256 * (s / 16777216 % 256 + 256 * 0)))
      ≡ s
four_bytes s h = omega arith

-- The image of a status of 32 bits, read back by the loader.
pub build_image-load :
    (status : ℕ)
    → status < 2 ^ 32
    → (b : Buffer) × (build_image status ≡ ok b)
      × (b.size ≡ pe_file_size)
      × (load b ≡ some (exit_run status))
unfolding build_image load
build_image-load status h = (_, refl, refl, ap (λ v. some (exit_run v)) (four_bytes status h))

low_word-lt : (a : ℤ) → low_word a < 2 ^ 32
low_word-lt a = omega arith

return_status-lt :
    (e : Node) (status : ℕ) → return_status (return_stmt e) ≡ ok status → status < 2 ^ 32
unfolding return_status
return_status-lt e status h = grind (arith, low_word-lt)

body_status-lt : (body : Node) (status : ℕ) → body_status body ≡ ok status → status < 2 ^ 32
unfolding body_status
body_status-lt body status h = grind (arith, return_status-lt)

entry_status-lt : (entry : Entry) (status : ℕ) → entry_status entry ≡ ok status → status < 2 ^ 32
unfolding entry_status
entry_status-lt none status h = ground arith
entry_status-lt (some (parameters, body)) status h = ground (arith, body_status-lt body status)

-- The exit status that the search finds fits 32 bits.
find_exit_status-lt : (ast : Node) (status : ℕ) → find_exit_status ast ≡ ok status → status < 2 ^ 32
unfolding find_exit_status
find_exit_status-lt (block statements) status h =
    let found = bind-eq-ok (find_entry statements none) entry_status h in
    entry_status-lt found.0 status found.2
find_exit_status-lt _ status h = cc

emit_pe-built :
    (ast : Node) (status : ℕ) (b : Buffer)
    → find_exit_status ast ≡ ok status
    → build_image status ≡ ok b
    → emit_pe true true ast ≡ ok (bytes_from 0 pe_file_size b)
unfolding emit_pe
emit_pe-built ast status b h g = rw h (rw g refl)

-- HDEmitPE with memory and a file that takes the image: for a program that the search accepts with an
-- exit status it writes 0x600 bytes, and a loader that reads them by the PE format's headers finds a
-- program that passes this status to ExitProcess of KERNEL32.dll, below 0x28 reserved bytes of stack.
pub emit_pe-load :
    (ast : Node) (status : ℕ)
    → find_exit_status ast ≡ ok status
    → (b : Buffer) × (emit_pe true true ast ≡ ok (bytes_from 0 pe_file_size b))
      × (b.size ≡ pe_file_size)
      × (load b ≡ some (exit_run status))
emit_pe-load ast status h =
    let built = build_image-load status (find_exit_status-lt ast status h) in
    (built.0, emit_pe-built ast status built.0 h built.1, built.2, built.3)
