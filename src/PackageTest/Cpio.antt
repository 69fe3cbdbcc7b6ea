-- ===== src/PackageTest/Cpio.antt =====
-- `user_elf` of scripts/test-packages.py, which walks a newc CPIO archive and checks the user ELF.
pub mod Archive
pub mod RoundTrip
pub mod Sound
pub mod Endless
use Prim.Native.Nat.{bit_and}
use linux_build.Base.{
  ℕ, zero, suc, ◌+◌, Bool, true, false, not, ◌&&◌, ◌||◌, List, [], ◌∷◌, Option, none, some, ◌==◌,
  if◌then◌else◌, ℤ, pos, ◌+ℤ◌, sub_ℕ, leb_ℤ, length, any, Text, codes, text_eq, text_in,
  starts_with, remove_prefix, Result, ok, err, value_error, ◌>>=◌, ◌>>◌, require,
}
use linux_build.Base.Bytes.{Bytes, slice, byte_at, unpack, align4, int16}
use linux_build.Base.Utf8.{decode}

pub record UserElf : Type 0 where
  pub path : Text
  pub bits : ℕ
  pub flags : ℕ

-- `s.lstrip('/')`
strip_slashes : Text → Text
strip_slashes [] = []
strip_slashes (c ∷ s) = if c == b'/' then strip_slashes s else c ∷ s

-- `name.removeprefix('./').lstrip('/')`
unfoldable pub normal_name : Text → Text
unfolding strip_slashes
normal_name name = strip_slashes (remove_prefix (codes "./") name)

-- The ELF magic number.
abbrev pub elf_magic : Bytes
elf_magic = 0x7F ∷ codes "ELF"

abbrev pub trailer : Text
trailer = codes "TRAILER!!!"

-- The fields of one header, and the places they give: the name, the body, and the next offset.
pub record Entry : Type 0 where
  pub name : Text
  pub body : Bytes
  pub next : ℤ

unfoldable pub read_entry : Bytes → ℤ → Result Entry
read_entry d offset = do
  let header = slice offset (offset +ℤ pos 110) d
  let magic = slice (pos 0) (pos 6) header
  require (text_eq magic (codes "070701") || text_eq magic (codes "070702"))
      (value_error (codes "rootfs is not a newc CPIO archive"))
  size ← int16 (slice (pos 54) (pos 62) header)
  namesize ← int16 (slice (pos 94) (pos 102) header)
  name ← decode (slice (offset +ℤ pos 110) (offset +ℤ pos 110 +ℤ namesize +ℤ sub_ℕ 0 1) d)
  let start = align4 (offset +ℤ pos 110 +ℤ namesize +ℤ pos 3)
  ok (record {
    name = normal_name name;
    body = slice start (start +ℤ size) d;
    next = align4 (start +ℤ size +ℤ pos 3);
  })

module _ (variant : Text) (bits : ℕ) where
  abbrev pub wanted : List Text
  wanted =
      if text_eq variant (codes "tiny_shell")
      then codes "init" ∷ []
      else codes "bin/busybox" ∷ codes "usr/bin/busybox" ∷ []

  abbrev pub expected_float : ℕ
  expected_float = if text_eq variant (codes "tiny_shell") then 0 else 4

  -- The checks on the wanted ELF.
  unfoldable pub check_elf : Text → Bytes → Result UserElf
  check_elf name body = do
    class ← byte_at body 4
    machine ← (if class == (if bits == 32 then 1 else 2) then unpack 2 body 18 else ok 0)
    require (class == (if bits == 32 then 1 else 2) && machine == 243)
        (value_error (codes "rootfs ELF architecture differs from package"))
    flags ← unpack 4 body (if bits == 32 then 36 else 48)
    require (bit_and flags 6 == expected_float)
        (value_error (codes "rootfs ELF float ABI differs from package variant"))
    ok (record { path = name; bits = bits; flags = flags })

  -- What the round does with an entry that is not the trailer.
  unfoldable pub visit : Text → Bytes → Option UserElf → Result (Option UserElf)
  visit name body found = elim (text_in name wanted && starts_with body elf_magic) [
    | true ↦ do elf ← check_elf name body; ok (some elf)
    | false ↦ ok found
  ]

  -- `name.startswith(('lib/modules/', 'usr/lib/modules/'))`
  abbrev pub is_module : Text → Bool
  is_module name =
      starts_with name (codes "lib/modules/") || starts_with name (codes "usr/lib/modules/")

  -- The end of the round for one name and body: `go_on` walks the rest of the archive.
  unfoldable pub entry_step :
      Text
      → Bytes
      → Option UserElf
      → (Option UserElf → Option (Result (Option UserElf)))
      → Option (Result (Option UserElf))
  entry_step name body found go_on = elim (is_module name) [
    | true ↦
        some
          (err (value_error (codes "rootfs contains modules from the separate Buildroot kernel")))
    | false ↦ elim (text_eq name trailer) [
      | true ↦ some (ok found)
      | false ↦ elim (visit name body found) [ err e ↦ some (err e) | ok found' ↦ go_on found' ]
    ]
  ]

  -- The loop, on fuel: `none` says that it has not ended yet.
  unfoldable pub walk : ℕ → Bytes → ℤ → Option UserElf → Option (Result (Option UserElf))
  walk zero d offset found = none
  walk (suc fuel) d offset found = elim (leb_ℤ (offset +ℤ pos 110) (pos (length d))) [
    | false ↦ some (ok found)
    | true ↦ elim (read_entry d offset) [
      | err e ↦ some (err e)
      | ok e ↦ entry_step e.name e.body found (walk fuel d e.next)
    ]
  ]

  -- The test behind the loop.
  unfoldable pub found_or_error : Result (Option UserElf) → Result UserElf
  found_or_error (ok (some elf)) = ok elf
  found_or_error (ok none) = err (value_error (codes "cannot find the variant user ELF in rootfs"))
  found_or_error (err e) = err e

  unfoldable pub finish : Option (Result (Option UserElf)) → Option (Result UserElf)
  unfolding found_or_error
  finish none = none
  finish (some r) = some (found_or_error r)

  -- `user_elf` on the decompressed root filesystem.
  unfoldable pub user_elf : ℕ → Bytes → Option (Result UserElf)
  user_elf fuel d = finish (walk fuel d (pos 0) none)
