-- ===== src/PackageTest/Cpio/Archive.antt =====
-- The newc CPIO format, written: what `user_elf` is meant to read.
use linux_build.Base.{
  ℕ, zero, suc, ◌+◌, ◌-◌, ◌*◌, ◌/◌, ◌<◌, List, [], ◌∷◌, ◌++◌, ◌≡◌, ◌⊎◌, Option, some, length, Text,
  codes, Result, ok,
}
use linux_build.Base.Bytes.{Bytes}
use linux_build.Base.Bytes.Hex.{hex8}
use linux_build.Base.Utf8.{decode}
use linux_build.PackageTest.Cpio.{UserElf, normal_name, entry_step}

-- One member. The fields that `user_elf` skips are kept as they stand in the header.
pub record Member : Type 0 where
  pub magic : Bytes
  pub before : Bytes
  pub between : Bytes
  pub check : Bytes
  pub name : Bytes
  pub text : Text
  pub body : Bytes

-- The skipped fields have their widths, both lengths fit in eight hexadecimal digits, and the name
-- is the text.
pub record IsMember (m : Member) : Type 0 where
  pub magic : (m.magic ≡ codes "070701") ⊎ (m.magic ≡ codes "070702")
  pub before : length m.before ≡ 48
  pub between : length m.between ≡ 32
  pub check : length m.check ≡ 8
  pub name : decode m.name ≡ ok m.text
  pub name_fits : length m.name + 1 < 0x100000000
  pub body_fits : length m.body < 0x100000000

abbrev pub zeros : ℕ → Bytes
zeros zero = []
zeros (suc n) = 0 ∷ zeros n

-- As many bytes as bring a length to a multiple of 4.
abbrev pub padding : ℕ → ℕ
padding n = (n + 3) / 4 * 4 - n

unfoldable pub header : Member → Bytes
header m =
    m.magic
    ++ (m.before ++ (hex8 (length m.body) ++ (m.between ++ (hex8 (length m.name + 1) ++ m.check))))

-- A member, with what follows it.
unfoldable pub onto : Member → Bytes → Bytes
onto m rest =
    header m
    ++ (m.name
        ++ ((0 ∷ zeros (padding (110 + length m.name + 1)))
            ++ (m.body ++ (zeros (padding (length m.body)) ++ rest))))

unfoldable pub archive : List Member → Bytes
archive [] = []
archive (m ∷ ms) = onto m (archive ms)

-- What `user_elf` makes of the members, in order, with no offset in sight.
module _ (variant : Text) (bits : ℕ) where
  unfoldable pub audit : List Member → Option UserElf → Option (Result (Option UserElf))
  audit [] found = some (ok found)
  audit (m ∷ ms) found = entry_step variant bits (normal_name m.text) m.body found (audit ms)
