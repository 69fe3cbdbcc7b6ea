-- ===== src/PackageTest/Tests.antt =====
-- Archives with which the theorems about scripts/test-packages.py are tried.
use linux_build.Base.{
  strip, ℕ, zero, suc, [], ◌∷◌, ◌++◌, ◌≡◌, refl, ◌∙◌, arith, Text, codes, none, some, ok, List, All,
  inl, text_eq, text_in, starts_with, remove_prefix, pos,
}
use linux_build.Base.Bytes.{Bytes, byte_at, unpack, slice, int16, align4}
use linux_build.Base.Utf8.{decode}
use linux_build.Base.{err, bad_value, map, has_char, unlines, splitlines, lines_from, is_break}
use linux_build.Base.Dict.{Dict, lookup, insert}
use linux_build.Base.Image.{layout_of, find, is_at}
use linux_build.Toml.{Value, Fields, end, field, table, str, int, get}
use linux_build.Release.Matrix.{arch_of, subscript, text_of}
use linux_build.Release.Order.{int10}
use linux_build.Package.Settings.{config_values, read_lines, read_line, split_at}
use linux_build.Package.Checks.{
  Inputs, Checked, check, is_basename, check_hz, equals_int, check_config, check_symbols, is_set,
  check_rootfs, check_layout, memory_of, int_of, mebibytes,
}
use linux_build.Package.Publish.{Build, Folder, manifest_of, publish}
use linux_build.Package.Script.{Writers, package_files, main}
use linux_build.PackageTest.Audit.Whole.{IsPublished, main-IsPublished}
use linux_build.Distro.Script as D
use linux_build.Distro.Script.{CheckedDisk, distro_files, distro_manifest_of}
use linux_build.PackageTest.Hashes.{check_hashes}
use linux_build.PackageTest.Hashes.Own.{HasManifest, own-check_hashes}
use linux_build.PackageTest.Audit.{audit_firmware, extract, is_seen}
use linux_build.PackageTest.Audit.Agreement.{audit_firmware_accepts}
use linux_build.PackageTest.Audit.Extraction.{folder_member, file_member, extract-folder}
use linux_build.PackageTest.Cpio.{
  UserElf, Entry, normal_name, elf_magic, read_entry, check_elf, visit, entry_step, found_or_error,
  finish, user_elf,
}
use linux_build.PackageTest.Cpio.Archive.{Member, IsMember, zeros, archive, audit}
use linux_build.PackageTest.Cpio.RoundTrip.{user_elf-archive}
use linux_build.PackageTest.Cpio.Sound.{IsElfOf, user_elf-IsElfOf}
use linux_build.PackageTest.Cpio.Endless.{user_elf_endless}

abbrev member_named : Text → Bytes → Member
member_named name body = record {
  magic = codes "070701";
  before = zeros 48;
  between = zeros 32;
  check = zeros 8;
  name = name;
  text = name;
  body = body;
}

-- A 32-bit little-endian RISC-V ELF header without the float flags.
abbrev init_body : Bytes
init_body = elf_magic ++ (1 ∷ (zeros 13 ++ (243 ∷ zeros 21)))

abbrev members : List Member
members = member_named (codes "init") init_body ∷ member_named (codes "TRAILER!!!") [] ∷ []

members-IsMember : All IsMember members
unfolding decode
members-IsMember = (
  record {
    magic = inl refl;
    before = refl;
    between = refl;
    check = refl;
    name = refl;
    name_fits = omega arith;
    body_fits = omega arith;
  },
  (
    record {
      magic = inl refl;
      before = refl;
      between = refl;
      check = refl;
      name = refl;
      name_fits = omega arith;
      body_fits = omega arith;
    },
    tt,
  ),
)

user_elf-archive_example :
    user_elf (codes "tiny_shell") 32 3 (archive members)
    ≡ finish (codes "tiny_shell") 32 (audit (codes "tiny_shell") 32 members none)
user_elf-archive_example =
    user_elf-archive (codes "tiny_shell") 32 members 3 members-IsMember (omega arith)

abbrev init_elf : UserElf
init_elf = record { path = codes "init"; bits = 32; flags = 0 }

members-audited :
    finish (codes "tiny_shell") 32 (audit (codes "tiny_shell") 32 members none) ≡ some (ok init_elf)
unfolding finish found_or_error audit entry_step visit check_elf normal_name starts_with text_eq
    text_in remove_prefix byte_at unpack
members-audited = refl

user_elf-IsElfOf_example : IsElfOf (codes "tiny_shell") 32 members init_elf
user_elf-IsElfOf_example =
    user_elf-IsElfOf (codes "tiny_shell") 32 members 3 members-IsMember (omega arith) (
      user_elf-archive (codes "tiny_shell") 32 members 3 members-IsMember (omega arith)
      ∙ members-audited)

abbrev digits : ℕ → Bytes
digits zero = []
digits (suc n) = b'0' ∷ digits n

-- One header, whose size field is `-0000070`: 112 bytes back from the place of the body.
abbrev back_to_start : Bytes
back_to_start =
    codes "070701"
    ++ (digits 48 ++ (codes "-0000070" ++ (digits 32 ++ (codes "00000001" ++ digits 8))))

abbrev first_entry : Entry
first_entry = record { name = []; body = []; next = pos 0 }

back_to_start-read_entry : read_entry back_to_start (pos 0) ≡ ok first_entry
unfolding read_entry slice int16 decode align4 normal_name remove_prefix text_eq
back_to_start-read_entry = refl

user_elf_endless_example : user_elf (codes "tiny_shell") 32 1000000 back_to_start ≡ none
user_elf_endless_example =
    user_elf_endless (codes "tiny_shell") 32 back_to_start first_entry refl back_to_start-read_entry
      refl (unfold starts_with in refl) (unfold text_eq in refl) (unfold text_in text_eq in refl)
      1000000

-- A kernel of 24 bytes for offset 16, in a firmware with 16 bytes in front of it.
abbrev image : Bytes
image = 1 ∷ 2 ∷ 3 ∷ 4 ∷ 5 ∷ 6 ∷ 7 ∷ 8 ∷ 16 ∷ (zeros 7 ++ (32 ∷ zeros 7))

abbrev entry : Text → Value → Fields
entry k v = field k v end

abbrev inputs : Inputs
inputs = record {
  name = codes "p";
  variant = codes "tiny_shell";
  fdt_offset = pos 1024;
  preset = field (codes "target") (table (entry (codes "arch") (str (codes "riscv32")))) (
      field (codes "kernel")
        (table (entry (codes "config") (table (entry (codes "HZ") (int (pos 100))))))
        (entry (codes "boot") (table (entry (codes "memory") (int (pos 1))))));
  kernel_config = unlines (
      codes "CONFIG_HZ=100"
      ∷ codes "CONFIG_SERIAL_LITEUART=y"
      ∷ codes "CONFIG_SERIAL_LITEUART_CONSOLE=y"
      ∷ codes "CONFIG_MMU=y"
      ∷ []);
  image = image;
  fw_payload = zeros 16 ++ image;
  initramfs = [];
  rootfs_record = none;
}

abbrev build : Build
build = record {
  kernel_config = [];
  preset_stem = codes "qemu-rv32";
  kernel_version = codes "6.18";
  isa = codes "rv32imac";
  abi = codes "ilp32";
  source_files = [];
  source_commit = codes "c";
  opensbi_commit = codes "d";
  created = 0;
  fw_payload_elf = [];
  fw_dynamic = [];
  vmlinux = [];
  preset_toml = [];
  source_record = none;
  rootfs_manifest = none;
}

abbrev checked : Checked
checked = record {
  bits = pos 32;
  hz = pos 100;
  layout = record { text_offset = 16; memory_size = 32 };
  payload_offset = 16;
  memory = pos 1;
}

abbrev no_hash : Bytes → Text
no_hash content = []

inputs-checked : check no_hash inputs ≡ ok checked
unfolding check is_basename has_char text_eq arch_of subscript get text_of int10 strip remove_prefix
    starts_with config_values unlines splitlines lines_from is_break read_lines read_line split_at
    lookup insert check_hz equals_int check_config check_symbols is_set check_rootfs check_layout
    layout_of unpack find is_at memory_of int_of mebibytes
inputs-checked = refl

audit_firmware_accepts_example :
    audit_firmware (manifest_of no_hash inputs checked build) image (zeros 16 ++ image) ≡ ok tt
audit_firmware_accepts_example = audit_firmware_accepts no_hash inputs build inputs-checked

abbrev two_files : Dict Bytes
two_files = (codes "Image", image) ∷ (codes "README.md", []) ∷ []

extract-folder_example :
    extract (codes "p") (folder_member (codes "p") ∷ map (file_member (codes "p")) two_files) []
    ≡ ok two_files
unfolding has_char text_eq is_seen lookup
extract-folder_example =
    extract-folder (codes "p") two_files (refl, refl, refl)
      ((refl, refl, refl), ((refl, refl, refl), tt)) (refl, (refl, tt))

abbrev writers : Writers
writers = record {
  sha = no_hash;
  encode = λ text. text;
  dumps = λ m files. codes "{}";
  tar = λ name files. codes "tar";
}

abbrev no_packages : Folder
no_packages = record { packages = []; archives = []; superseded = [] }

abbrev published : Folder
published =
    let files = package_files writers inputs build checked in
    publish (codes "p") 7 files (codes "tar") no_packages

published-main : main writers inputs build 7 no_packages ≡ ok published
unfolding main
published-main = rw inputs-checked refl

main-IsPublished_example : IsPublished writers inputs build published
main-IsPublished_example =
    main-IsPublished writers inputs build 7 no_packages (unfold text_eq in refl) published-main

abbrev disk : D.Inputs
disk = record {
  preset = record { stem = codes "q"; cfg = end };
  preset_toml = codes "p";
  disk = codes "l";
  disk_record = codes "r";
  build_log = codes "b";
  image = codes "k";
  vmlinux = codes "v";
  config = codes "c";
  kernel_release = codes "6";
  firmware = codes "f";
  source_record = some (codes "s");
  build_inputs = [];
}

abbrev disk_writers : D.Writers
disk_writers = record {
  sha = no_hash;
  encode = λ text. text;
  decode = λ bytes. bytes;
  read_origin = λ bytes. err bad_value;
  dumps = λ m. codes "{}";
  tar = λ name files. codes "tar";
}

abbrev disk_checked : CheckedDisk
disk_checked = record {
  name = codes "q";
  variant = codes "alpine";
  version = codes "6";
  memory = pos 1024;
}

own-check_hashes_example :
    HasManifest no_hash (package_files writers inputs build checked) (λ recorded.
      writers.encode (writers.dumps (manifest_of no_hash inputs checked build) recorded))
    × ((lookup (codes "manifest.json") (distro_files disk_writers disk disk_checked)
          ≡ some (codes "{}"))
        × (check_hashes no_hash
              (distro_files disk_writers disk disk_checked)
              (distro_manifest_of disk_writers disk disk_checked).files
            ≡ ok tt))
own-check_hashes_example =
    own-check_hashes writers inputs build checked disk_writers disk disk_checked
