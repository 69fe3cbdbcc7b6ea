-- ===== src/Firmware/Prepare.antt =====
-- `main` of scripts/prepare-opensbi.py. The files are those under the output folder, by their paths
-- from there. JSON is given as a reader and a writer, SHA-256 as a function.
pub mod Removal
pub mod Outcome
use linux_build.Base.{
  ℕ, ◌+◌, ◌-◌, ◌%◌, ◌*◌, Bool, true, false, not, ◌&&◌, ◌||◌, List, [], ◌∷◌, ◌++◌, Option, none,
  some, ◌==◌, ltb, if◌then◌else◌, ℤ, pos, negsuc, leb_ℤ, length, Text, codes, text_eq, text_in,
  starts_with, Result, ok, err, exited, bad_value,
}
use linux_build.Base.Dict.{Dict, lookup, insert, erase}
use linux_build.Base.Bytes.{Bytes, slice}
use linux_build.Base.Image.{Layout, layout_of, kernel_end}
use linux_build.Base.State.{Action, ◌>>=◌, ◌>>◌, give, lift}
use linux_build.Toml.{Value, Fields, end, field, null, int, str, table, get}
use linux_build.Firmware.Equal.{value_eq}

-- The arguments, resolved, with the kernel's contents and what the compiler says of itself; `parent`
-- is the folder of `source`.
pub record Request : Type 0 where
  pub output : Text
  pub source : Text
  pub parent : Text
  pub kernel : Text
  pub image : Bytes
  pub bits : ℕ
  pub isa : Text
  pub compiler : Option Text
  pub compiler_version : Text
  pub fdt_offset : ℤ

pub record Codec : Type 0 where
  pub loads : Text → Result Value
  pub dumps : Value → Text
  pub sha : Bytes → Text

abbrev pub expected_offset : ℕ → ℕ
expected_offset bits = if bits == 32 then 0x400000 else 0x200000

-- `n % 8`
abbrev pub mod8 : ℤ → ℕ
mod8 (pos n) = n % 8
mod8 (negsuc n) = 7 - n % 8

-- `if not b: ap.error(message)`
abbrev pub demand : Bool → Text → Result (Unit {0})
demand true message = ok tt
demand false message = err (exited message)

-- The tests on the Image, before its fields are read.
unfoldable pub is_riscv : Bytes → Bool
is_riscv image =
    not (ltb (length image) 64) && text_eq (slice (pos 48) (pos 53) image) (codes "RISCV")

-- The tests on the layout and on the folder.
unfoldable pub is_placed : Request → Layout → Bool
is_placed r layout =
    layout.text_offset == expected_offset r.bits
    && (leb_ℤ (pos (kernel_end layout r.image)) r.fdt_offset
        && (mod8 r.fdt_offset == 0
            && not (text_in r.output (r.source ∷ r.parent ∷ codes "/" ∷ []))))

-- What is said of the first of these tests that fails; the numbers of the first message are left out.
abbrev pub complaint : Request → Layout → Text
complaint r layout =
    if not (layout.text_offset == expected_offset r.bits)
    then codes "Image load offset differs from generic OpenSBI"
    else if not (leb_ℤ (pos (kernel_end layout r.image)) r.fdt_offset)
    then codes "DTB relocation overlaps kernel memory (including BSS)"
    else if not (mod8 r.fdt_offset == 0)
    then codes "DTB relocation must be 8-byte aligned"
    else codes "OpenSBI output must be a separate build directory"

abbrev pub or_null : Option Text → Value
or_null none = null
or_null (some s) = str s

abbrev pub identity : Request → Value
identity r = table (
    field (codes "bits") (int (pos r.bits)) (
      field (codes "isa") (str r.isa) (
        field (codes "compiler") (or_null r.compiler)
          (field (codes "compiler_version") (str r.compiler_version) end))))

abbrev pub inputs : Codec → Request → Value
inputs c r = table (
    field (codes "schema") (int (pos 1)) (
      field (codes "identity") (identity r) (
        field (codes "kernel") (str r.kernel) (
          field (codes "kernel_sha256") (str (c.sha r.image))
            (field (codes "fdt_offset") (int r.fdt_offset) end)))))

abbrev pub Files : Type 0
Files = Dict Text

-- `json.loads(stamp.read_text()) if stamp.exists() else {}`
unfoldable pub read_stamp : Codec → Option Text → Result Value
read_stamp c none = ok (table end)
read_stamp c (some text) = c.loads text

unfoldable pub previous : Codec → Files → Result Value
previous c files = read_stamp c (lookup (codes ".build-inputs.json") files)

unfoldable pub get_value : Option Value → Value
get_value none = null
get_value (some v) = v

-- `previous.get('identity')`
unfoldable pub identity_in : Value → Result Value
identity_in (table fs) = ok (get_value (get (codes "identity") fs))
identity_in _ = err bad_value

-- `shutil.rmtree(output / name)`
unfoldable pub remove_tree : Text → Files → Files
remove_tree folder [] = []
remove_tree folder ((path, content) ∷ files) =
    if starts_with path (folder ++ codes "/")
    then remove_tree folder files
    else (path, content) ∷ remove_tree folder files

abbrev pub payload : Text → Text
payload suffix = codes "platform/generic/firmware/fw_payload." ++ suffix

-- What is removed, by the two comparisons.
unfoldable pub invalidate : Bool → Bool → Files → Files
invalidate same_identity same_inputs files =
    if not same_identity
    then remove_tree (codes "lib") (remove_tree (codes "platform") files)
    else if not same_inputs
    then erase (payload (codes "bin"))
        (erase (payload (codes "elf")) (erase (payload (codes "o")) files))
    else files

abbrev pub pending : Text
pending = codes ".build-inputs.pending.json"

-- The work on the folder, with what was recorded there. Removals and writes are taken to succeed: an error of the file
-- system is outside this model, and so is a tree of which `rmtree` leaves some files behind.
unfoldable pub refresh : Codec → Request → Value → Value → Action Files (Unit {0})
refresh c r prior prior_identity files = (
  insert pending (c.dumps (inputs c r) ++ (10 ∷ []))
      (invalidate (value_eq prior_identity (identity r)) (value_eq prior (inputs c r)) files),
  ok tt,
)

-- The tests, then what was recorded: nothing is changed yet.
unfoldable pub examine : Codec → Request → Files → Result (Value × Value)
examine c r files = elim (is_riscv r.image) [
  | false ↦ err (exited (codes "kernel is not a RISC-V Image"))
  | true ↦ elim (layout_of r.image) [
    | err fault ↦ err fault
    | ok layout ↦ elim (is_placed r layout) [
      | false ↦ err (exited (complaint r layout))
      | true ↦ elim (previous c files) [
        | err fault ↦ err fault
        | ok prior ↦ elim (identity_in prior) [
          | err fault ↦ err fault
          | ok prior_identity ↦ ok (prior, prior_identity)
        ]
      ]
    ]
  ]
]

-- The work that follows the tests.
unfoldable pub proceed : Codec → Request → Value × Value → Action Files (Unit {0})
proceed c r found = refresh c r found.0 found.1

unfoldable pub main : Codec → Request → Action Files (Unit {0})
main c r files = ((λ fs. (fs, examine c r fs)) >>= proceed c r) files
