-- ===== src/Firmware/Tests.antt =====
-- A run of scripts/prepare-opensbi.py in a folder that another compiler has filled.
use linux_build.Base.{◌≡◌, refl, [], ◌∷◌, ◌++◌, some, pos, codes, ok, text_eq, starts_with, text_in}
use linux_build.Base.Dict.{lookup, insert}
use linux_build.Base.Bytes.{Bytes, slice, unpack}
use linux_build.Base.Image.{layout_of}
use linux_build.Toml.{end, field, str, table, get}
use linux_build.Firmware.Equal.{value_eq}
use linux_build.Firmware.Prepare.{
  Request, Codec, Files, is_riscv, is_placed, read_stamp, previous, get_value, identity_in,
  remove_tree, invalidate, refresh, examine, proceed, main,
}
use linux_build.Firmware.Prepare.Outcome.{IsPrepared, main-IsPrepared}

abbrev zeros16 : Bytes
zeros16 = 0 ∷ 0 ∷ 0 ∷ 0 ∷ 0 ∷ 0 ∷ 0 ∷ 0 ∷ 0 ∷ 0 ∷ 0 ∷ 0 ∷ 0 ∷ 0 ∷ 0 ∷ 0 ∷ []

abbrev image : Bytes
image =
    (0 ∷ 0 ∷ 0 ∷ 0 ∷ 0 ∷ 0 ∷ 0 ∷ 0 ∷ 0 ∷ 0 ∷ 32 ∷ 0 ∷ 0 ∷ 0 ∷ 0 ∷ 0 ∷ [])
    ++ (zeros16 ++ (zeros16 ++ (codes "RISCV" ++ (0 ∷ 0 ∷ 0 ∷ 0 ∷ 0 ∷ 0 ∷ 0 ∷ 0 ∷ 0 ∷ 0 ∷ 0 ∷ []))))

abbrev request : Request
request = record {
  output = codes "/r/opensbi-build";
  source = codes "/r/opensbi";
  parent = codes "/r";
  kernel = codes "/r/Image";
  image = image;
  bits = 64;
  isa = codes "rv64imac";
  compiler = some (codes "/usr/bin/gcc");
  compiler_version = codes "gcc 14";
  fdt_offset = pos 2097216;
}

abbrev codec : Codec
codec = record {
  loads = λ text. ok (table (field (codes "identity") (str text) end));
  dumps = λ value. codes "{}";
  sha = λ content. [];
}

abbrev old_files : Files
old_files =
    (codes ".build-inputs.json", codes "old")
    ∷ (codes "platform/generic/firmware/fw_payload.bin", codes "x")
    ∷ (codes "notes", codes "y")
    ∷ []

abbrev new_files : Files
new_files =
    (codes ".build-inputs.json", codes "old")
    ∷ (codes "notes", codes "y")
    ∷ (codes ".build-inputs.pending.json", codes "{}" ++ (10 ∷ []))
    ∷ []

main-run : main codec request old_files ≡ (new_files, ok tt)
unfolding main proceed refresh examine is_riscv slice text_eq layout_of unpack is_placed text_in
    previous read_stamp lookup identity_in get get_value value_eq invalidate remove_tree starts_with
    insert
main-run = refl

main-IsPrepared_example : IsPrepared codec request old_files new_files
main-IsPrepared_example = main-IsPrepared codec request old_files main-run
