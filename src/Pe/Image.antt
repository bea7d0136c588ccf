-- ===== src/Pe/Image.antt =====
-- The executable image that HDEmitPE of src/emit_pe.c builds for an exit status.
use holy_d.Prelude.{ℕ, ◌+◌, ◌-◌, List, [], ◌∷◌, ◌++◌}
use holy_d.Prelude.Text.{bytes}
use holy_d.Outcome.{Outcome, ◌>>=◌}
use holy_d.Pe.Buffer.{
  Buffer, Write, PeError, zeroed, put, put_u16, put_u32, put_u64, put_text, put_zeros,
}

abbrev pub pe_offset : ℕ
pe_offset = 0x80

abbrev pub pe_optional_size : ℕ
pe_optional_size = 0xf0

abbrev pub pe_section_headers : ℕ
pe_section_headers = pe_offset + 4 + 20 + pe_optional_size

abbrev pub pe_headers_size : ℕ
pe_headers_size = 0x200

abbrev pub pe_file_alignment : ℕ
pe_file_alignment = 0x200

abbrev pub pe_section_alignment : ℕ
pe_section_alignment = 0x1000

abbrev pub pe_text_rva : ℕ
pe_text_rva = 0x1000

abbrev pub pe_rdata_rva : ℕ
pe_rdata_rva = 0x2000

abbrev pub pe_text_file_offset : ℕ
pe_text_file_offset = 0x200

abbrev pub pe_rdata_file_offset : ℕ
pe_rdata_file_offset = 0x400

abbrev pub pe_file_size : ℕ
pe_file_size = 0x600

abbrev pub pe_import_descriptor : ℕ
pe_import_descriptor = 0

abbrev pub pe_import_lookup_table : ℕ
pe_import_lookup_table = 0x28

abbrev pub pe_import_address_table : ℕ
pe_import_address_table = 0x38

abbrev pub pe_import_dll_name : ℕ
pe_import_dll_name = 0x48

abbrev pub pe_import_hint_name : ℕ
pe_import_hint_name = 0x56

-- Virtual size, virtual address, raw size, raw offset, characteristics.
write_section_header : ℕ → List ℕ → ℕ → ℕ → ℕ → ℕ → ℕ → Write
write_section_header offset name virtual_size virtual_address raw_size raw_offset characteristics
      b =
    do
      b ← put_zeros offset 40 b
      b ← put_text offset name b
      b ← put_u32 (offset + 8) virtual_size b
      b ← put_u32 (offset + 12) virtual_address b
      b ← put_u32 (offset + 16) raw_size b
      b ← put_u32 (offset + 20) raw_offset b
      put_u32 (offset + 36) characteristics b

-- The DOS stub and the PE/COFF header.
write_coff : Write
write_coff b = do
  let coff = pe_offset + 4
  b ← put 0 b'M' b
  b ← put 1 b'Z' b
  b ← put_u32 0x3c pe_offset b
  b ← put_text pe_offset (b'P' ∷ b'E' ∷ 0 ∷ 0 ∷ []) b
  b ← put_u16 coff 0x8664 b
  b ← put_u16 (coff + 2) 2 b
  b ← put_u16 (coff + 16) pe_optional_size b
  put_u16 (coff + 18) 0x22 b

write_optional : Write
write_optional b = do
  let optional = pe_offset + 4 + 20
  b ← put_u16 optional 0x20b b
  b ← put_u32 (optional + 4) pe_file_alignment b
  b ← put_u32 (optional + 8) pe_file_alignment b
  b ← put_u32 (optional + 16) pe_text_rva b
  b ← put_u32 (optional + 20) pe_text_rva b
  b ← put_u64 (optional + 24) 0x140000000 b
  b ← put_u32 (optional + 32) pe_section_alignment b
  b ← put_u32 (optional + 36) pe_file_alignment b
  b ← put_u16 (optional + 40) 6 b
  b ← put_u16 (optional + 48) 6 b
  b ← put_u32 (optional + 56) 0x3000 b
  b ← put_u32 (optional + 60) pe_headers_size b
  b ← put_u16 (optional + 68) 3 b
  b ← put_u16 (optional + 70) 0x100 b
  b ← put_u64 (optional + 72) 0x100000 b
  b ← put_u64 (optional + 80) 0x1000 b
  b ← put_u64 (optional + 88) 0x100000 b
  b ← put_u64 (optional + 96) 0x1000 b
  b ← put_u32 (optional + 108) 16 b
  b ← put_u32 (optional + 120) (pe_rdata_rva + pe_import_descriptor) b
  put_u32 (optional + 124) 40 b

-- (int32_t) of the distance from the end of the call to the import slot; it is positive.
abbrev call_displacement : ℕ
call_displacement = pe_rdata_rva + pe_import_address_table - (pe_text_rva + 15)

write_code : ℕ → Write
write_code exit_status b = do
  let code = pe_text_file_offset
  b ← put code 0x48 b
  b ← put (code + 1) 0x83 b
  b ← put (code + 2) 0xec b
  b ← put (code + 3) 0x28 b
  b ← put (code + 4) 0xb9 b
  b ← put_u32 (code + 5) exit_status b
  b ← put (code + 9) 0xff b
  b ← put (code + 10) 0x15 b
  b ← put_u32 (code + 11) call_displacement b
  put (code + 15) 0xcc b

write_imports : Write
write_imports b = do
  let rdata = pe_rdata_file_offset
  b ← put_u32 (rdata + pe_import_descriptor) (pe_rdata_rva + pe_import_lookup_table) b
  b ← put_u32 (rdata + pe_import_descriptor + 12) (pe_rdata_rva + pe_import_dll_name) b
  b ← put_u32 (rdata + pe_import_descriptor + 16) (pe_rdata_rva + pe_import_address_table) b
  b ← put_u64 (rdata + pe_import_lookup_table) (pe_rdata_rva + pe_import_hint_name) b
  b ← put_u64 (rdata + pe_import_address_table) (pe_rdata_rva + pe_import_hint_name) b
  b ← put_text (rdata + pe_import_dll_name) (bytes "KERNEL32.dll" ++ 0 ∷ []) b
  put_text (rdata + pe_import_hint_name + 2) (bytes "ExitProcess" ++ 0 ∷ []) b

-- The body of HDEmitPE from the cleared buffer to the finished one.
unfoldable pub build_image : ℕ → Outcome PeError Buffer
unfolding write_section_header write_coff write_optional write_code write_imports
build_image exit_status = do
  b ← write_coff (zeroed pe_file_size)
  b ← write_optional b
  b ←
      write_section_header pe_section_headers (bytes ".text") 16 pe_text_rva pe_file_alignment
        pe_text_file_offset 0x60000020 b
  b ←
      write_section_header (pe_section_headers + 40) (bytes ".rdata") 0x64 pe_rdata_rva
        pe_file_alignment pe_rdata_file_offset 0x40000040 b
  b ← write_code exit_status b
  write_imports b
