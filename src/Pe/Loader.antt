-- ===== src/Pe/Loader.antt =====
-- A reader of PE32+ images that knows the format and nothing of the emitter: it follows the header
-- to the section table, decodes the entry point, and resolves the import that the code calls. It is
-- the specification that the image of src/emit_pe.c is held to, and models no code.
use holy_d.Prelude.{
  ℕ, zero, suc, ◌+◌, ◌*◌, ◌-◌, Bool, ◌&&◌, Option, none, some, List, [], ◌∷◌, ltb, leb, ◌==◌,
  if◌then◌else◌,
}
use holy_d.Pe.Buffer.{Buffer}

infixl 5 ◌>>=◌ ◌>>◌
abbrev ◌>>=◌ {ℓ κ} : {A : Type ℓ} {B : Type κ} → Option A → (A → Option B) → Option B
none >>= f = none
some a >>= f = f a

abbrev ◌>>◌ {ℓ} : {B : Type ℓ} → Option (Unit {0}) → Option B → Option B
m >> k = m >>= λ _. k

abbrev require : Bool → Option (Unit {0})
require b = if b then some tt else none

-- A little-endian number of `n` bytes.
abbrev pub read : ℕ → Buffer → ℕ → ℕ
read zero b i = 0
read (suc n) b i = b.byte_at i + 256 * read n b (i + 1)

abbrev fits_file : Buffer → ℕ → ℕ → Bool
fits_file b i n = leb (i + n) b.size

-- The bytes up to the next zero; `none` if there is none within the fuel.
abbrev read_text : ℕ → Buffer → ℕ → Option (List ℕ)
read_text zero b i = none
read_text (suc n) b i =
    let rest = read_text n b (i + 1) in
    if b.byte_at i == 0 then some [] else do r ← rest; some (b.byte_at i ∷ r)

-- The file offset of an address: the section header table is searched from `at`.
abbrev file_offset : ℕ → Buffer → ℕ → ℕ → Option ℕ
file_offset zero b at rva = none
file_offset (suc n) b at rva =
    let next = file_offset n b (at + 40) rva in
    let start = read 4 b (at + 12) in
    if leb start rva && ltb rva (start + read 4 b (at + 16))
    then some (read 4 b (at + 20) + (rva - start))
    else next

-- What the loaded program does: it calls `symbol` of `dll` with `argument` in ecx.
pub record Run : Type 0 where
  pub dll : List ℕ
  pub symbol : List ℕ
  pub argument : ℕ
  -- How far the stack pointer was moved down before the call.
  pub reserved : ℕ

-- `sub rsp, imm8; mov ecx, imm32; call [rip + disp32]`, the first import descriptor's names, and
-- the slot of its address table that the call goes through.
unfoldable pub load : Buffer → Option Run
load b = do
  require (read 2 b 0 == 0x5a4d && fits_file b 0 0x40)
  let pe = read 4 b 0x3c
  require (read 4 b pe == 0x4550 && read 2 b (pe + 4) == 0x8664)
  let optional = pe + 24
  require (read 2 b optional == 0x20b)
  let sections = read 2 b (pe + 6)
  let table = optional + read 2 b (pe + 20)
  let entry = read 4 b (optional + 16)
  code ← file_offset sections b table entry
  require (fits_file b code 16 && read 3 b code == 0xec8348 && b.byte_at (code + 4) == 0xb9)
  require (read 2 b (code + 9) == 0x15ff)
  let slot = entry + 15 + read 4 b (code + 11)
  descriptor ← file_offset sections b table (read 4 b (optional + 120))
  dll_name ← file_offset sections b table (read 4 b (descriptor + 12))
  dll ← read_text 16 b dll_name
  require (leb (read 4 b (descriptor + 16)) slot)
  thunk ← file_offset sections b table slot
  hint ← file_offset sections b table (read 8 b thunk)
  symbol ← read_text 16 b (hint + 2)
  some (record {
    dll = dll;
    symbol = symbol;
    argument = read 4 b (code + 5);
    reserved = b.byte_at (code + 3);
  })
