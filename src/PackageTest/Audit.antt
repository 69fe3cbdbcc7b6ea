-- ===== src/PackageTest/Audit.antt =====
-- `extract_and_audit` of scripts/test-packages.py: the members of an archive, and the checks on the
-- kernel configuration and on the firmware.
pub mod Agreement
pub mod Extraction
pub mod Whole
use linux_build.Base.{
  ℕ, ◌+◌, Bool, true, false, not, ◌&&◌, ◌||◌, List, [], ◌∷◌, ◌++◌, Option, none, some, ◌==◌,
  if◌then◌else◌, ℤ, pos, ◌+ℤ◌, leb_ℤ, Text, codes, text_eq, text_in, has_char, splitlines, Result,
  ok, err, value_error, ◌>>=◌, ◌>>◌, require, starts_with,
}
use linux_build.Base.Dict.{Dict, lookup, insert}
use linux_build.Base.Bytes.{Bytes}
use linux_build.Base.Image.{Layout, layout_of, kernel_end, find, is_at}
use linux_build.Package.Readme.{Manifest}
use linux_build.Package.Checks.{mebibytes}
use linux_build.Release.Order.{split_from}

-- A member of the archive.
pub record TarMember : Type 0 where
  pub name : Text
  pub is_dir : Bool
  pub is_file : Bool
  pub content : Bytes

kept_parts : List Text → List Text
kept_parts [] = []
kept_parts (p ∷ ps) =
    if text_eq p [] || text_eq p (codes ".") then kept_parts ps else p ∷ kept_parts ps

-- `Path(name).parts`
unfoldable pub path_parts : Text → List Text
unfolding kept_parts
path_parts name =
    let parts = kept_parts (split_from b'/' [] name) in
    if starts_with name (codes "/") then codes "/" ∷ parts else parts

-- The name under which the member is written: the second of two parts, the first being the package.
unfoldable pub output_name : Text → List Text → Option Text
output_name expected_root (root ∷ name ∷ []) =
    if text_eq root expected_root then some name else none
output_name expected_root _ = none

-- `parts == (expected_root,)`
unfoldable pub is_root : Text → List Text → Bool
is_root expected_root (root ∷ []) = text_eq root expected_root
is_root expected_root _ = false

unfoldable pub is_seen : Text → Dict Bytes → Bool
is_seen name files = elim (lookup name files) [ none ↦ false | some content ↦ true ]

unfoldable pub unexpected : TarMember → Result (Dict Bytes)
unexpected member = err (value_error (codes "unexpected archive member: " ++ member.name))

-- One member, with the files written so far.
unfoldable pub extract_member : Text → TarMember → Dict Bytes → Result (Dict Bytes)
extract_member expected_root member files =
    elim (member.is_dir && is_root expected_root (path_parts member.name)) [
      | true ↦ ok files
      | false ↦ elim (output_name expected_root (path_parts member.name)) [
        | none ↦ unexpected member
        | some name ↦ elim (member.is_file && not (is_seen name files)) [
          | false ↦ unexpected member
          | true ↦ ok (insert name member.content files)
        ]
      ]
    ]

unfoldable pub extract : Text → List TarMember → Dict Bytes → Result (Dict Bytes)
extract expected_root [] files = ok files
extract expected_root (member ∷ members) files = do
  files' ← extract_member expected_root member files
  extract expected_root members files'

abbrev pub required_lines : List Text
required_lines =
    codes "CONFIG_HZ=100"
    ∷ codes "CONFIG_HZ_100=y"
    ∷ codes "CONFIG_MMU=y"
    ∷ codes "CONFIG_SERIAL_LITEUART=y"
    ∷ codes "CONFIG_SERIAL_LITEUART_CONSOLE=y"
    ∷ []

unfoldable pub audit_lines : List Text → List Text → Result (Unit {0})
audit_lines [] config = ok tt
audit_lines (line ∷ lines) config = do
  require (text_in line config) (value_error (codes "missing required configuration: " ++ line))
  audit_lines lines config

unfoldable pub audit_config : Text → Text → Result (Unit {0})
audit_config variant text = do
  let config = splitlines text
  let buildroot = text_eq variant (codes "buildroot")
  let fpu = text_in (codes "CONFIG_FPU=y") config
  audit_lines required_lines config
  require (if buildroot then fpu else not fpu)
      (value_error (codes "kernel FPU configuration differs from variant"))
  require (not buildroot || text_in (codes "CONFIG_FUTEX=y") config)
      (value_error (codes "Buildroot is missing futex support"))

-- The kernel in the firmware, and both in the memory.
unfoldable pub audit_firmware : Manifest → Bytes → Bytes → Result (Unit {0})
audit_firmware manifest image payload = do
  require (is_at manifest.payload_kernel_offset (find image payload))
      (value_error (codes "firmware contains a different kernel"))
  layout ← layout_of image
  require (leb_ℤ (pos (kernel_end layout image)) manifest.fdt_offset)
      (value_error (codes "DTB overlaps kernel memory"))
  require (leb_ℤ (manifest.fdt_offset +ℤ pos 65536) (mebibytes manifest.memory_mib))
      (value_error (codes "DTB exceeds the configured RAM"))
