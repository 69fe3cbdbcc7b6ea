-- ===== src/Package/Checks.antt =====
-- What `main` of scripts/package-artifacts.py requires of a kernel, a firmware and a preset.
use linux_build.Base.{
  ℕ, ◌+◌, ◌*◌, Bool, true, false, not, ◌&&◌, ◌||◌, List, [], ◌∷◌, ◌++◌, Option, none, some,
  if◌then◌else◌, ℤ, pos, negsuc, ◌+ℤ◌, leb_ℤ, Text, codes, text_eq, has_char, remove_prefix, Result,
  ok, err, exited, key_error, bad_value, os_error, ◌>>=◌, ◌>>◌, require,
}
use linux_build.Base.Dict.{Dict, lookup}
use linux_build.Base.Bytes.{Bytes}
use linux_build.Base.Image.{Layout, layout_of, kernel_end, find, is_at}
use linux_build.Toml.{Value, Fields, end, null, bool, int, table, get}
use linux_build.Package.Settings.{config_values}
use linux_build.Release.Matrix.{subscript, get_or_none, arch_of}
use linux_build.Release.Order.{int10}

-- The record beside the root filesystem: `identity`, with `get('schema')`, and the other two.
pub record RootfsRecord : Type 0 where
  pub schema_is_2 : Bool
  pub has_features : Bool
  pub rootfs_sha256 : Text

-- The arguments, and the contents of the files that they name.
pub record Inputs : Type 0 where
  pub name : Text
  pub variant : Text
  pub fdt_offset : ℤ
  pub preset : Fields
  pub kernel_config : Text
  pub image : Bytes
  pub fw_payload : Bytes
  pub initramfs : Bytes
  pub rootfs_record : Option RootfsRecord

-- What the checks find out.
pub record Checked : Type 0 where
  pub bits : ℤ
  pub hz : ℤ
  pub layout : Layout
  pub payload_offset : ℕ
  pub memory : ℤ

unfoldable pub is_basename : Text → Bool
is_basename name =
    not (has_char b'/' name) && not (text_eq name (codes ".")) && not (text_eq name (codes ".."))

abbrev pub is_buildroot : Inputs → Bool
is_buildroot i = text_eq i.variant (codes "buildroot")

-- `cfg.get(symbol) == 'y'`
unfoldable pub is_set : Text → Dict Text → Bool
is_set symbol cfg = elim (lookup symbol cfg) [ none ↦ false | some v ↦ text_eq v (codes "y") ]

-- `n == v` for an integer `n`
unfoldable pub equals_int : ℤ → Value → Bool
equals_int n (int m) = leb_ℤ n m && leb_ℤ m n
equals_int n (bool true) = leb_ℤ n (pos 1) && leb_ℤ (pos 1) n
equals_int n (bool false) = leb_ℤ n (pos 0) && leb_ℤ (pos 0) n
equals_int n _ = false

unfoldable pub check_hz : Fields → Dict Text → Result ℤ
check_hz preset cfg = elim (lookup (codes "CONFIG_HZ") cfg) [
  | none ↦ err (key_error (codes "CONFIG_HZ"))
  | some text ↦ do
    hz ← int10 text
    kernel ← subscript (table preset) (codes "kernel")
    config ← subscript kernel (codes "config")
    wanted ← subscript config (codes "HZ")
    require (equals_int hz wanted) (exited (codes "built HZ differs from the preset"))
    ok hz
]

abbrev pub required : List Text
required =
    codes "CONFIG_SERIAL_LITEUART"
    ∷ codes "CONFIG_SERIAL_LITEUART_CONSOLE"
    ∷ codes "CONFIG_MMU"
    ∷ []

unfoldable pub check_symbols : List Text → Dict Text → Result (Unit {0})
check_symbols [] cfg = ok tt
check_symbols (symbol ∷ symbols) cfg = do
  require (is_set symbol cfg) (exited (symbol ++ codes " is required for the Raptor image"))
  check_symbols symbols cfg

unfoldable pub check_config : Inputs → Dict Text → Result (Unit {0})
check_config i cfg = do
  require
      (if is_buildroot i
        then is_set (codes "CONFIG_FPU") cfg
        else not (is_set (codes "CONFIG_FPU") cfg))
      (exited (codes "kernel FPU configuration differs from the packaged variant"))
  check_symbols required cfg
  require (not (is_buildroot i) || is_set (codes "CONFIG_FUTEX") cfg)
      (exited (codes "Buildroot must retain futex support"))

-- `preset['boot']['memory']`, or that of Buildroot with its default; as an integer.
unfoldable pub memory_of : Inputs → Result Value
memory_of i =
    if is_buildroot i
    then (do
      memory ←
          get_or_none (elim (get (codes "buildroot") i.preset) [ none ↦ table end | some v ↦ v ])
            (codes "memory")
      ok (elim memory [ null ↦ int (pos 1024) | other_value ↦ other_value ]))
    else (do boot ← subscript (table i.preset) (codes "boot"); subscript boot (codes "memory"))

unfoldable pub int_of : Value → Result ℤ
int_of (int n) = ok n
int_of (bool true) = ok (pos 1)
int_of (bool false) = ok (pos 0)
int_of _ = err bad_value

-- `memory * 1024 * 1024`
unfoldable pub mebibytes : ℤ → ℤ
mebibytes (pos n) = pos (n * 1048576)
mebibytes (negsuc n) = negsuc (n * 1048576 + 1048575)

module _ (sha : Bytes → Text) where
  unfoldable pub check_rootfs : Inputs → Result (Unit {0})
  check_rootfs i = elim (is_buildroot i) [
    | false ↦ ok tt
    | true ↦ elim i.rootfs_record [
      | none ↦ err (os_error (codes "rootfs manifest"))
      | some r ↦ do
        require (r.schema_is_2 && r.has_features)
            (exited (codes "rootfs predates the verified BusyBox configuration policy; rebuild it"))
        require (text_eq r.rootfs_sha256 (sha i.initramfs))
            (exited (codes "rootfs differs from its build provenance"))
    ]
  ]

abbrev out_of_memory : Text
out_of_memory = codes "kernel/DTB layout exceeds the declared RAM or overlaps"

-- The kernel in the firmware, and both in the memory. A memory that the preset gives as a float, which is compared as
-- it is in the source, is not covered: it is refused here.
unfoldable pub check_layout : Inputs → Result (Layout × ℤ)
check_layout i = do
  layout ← layout_of i.image
  require (is_at layout.text_offset (find i.image i.fw_payload))
      (exited (codes "OpenSBI does not contain the expected Image at its load offset"))
  memory_value ← memory_of i
  require (leb_ℤ (pos (kernel_end layout i.image)) i.fdt_offset) (exited out_of_memory)
  memory ← int_of memory_value
  require (leb_ℤ (i.fdt_offset +ℤ pos 65536) (mebibytes memory)) (exited out_of_memory)
  ok (layout, memory)

unfoldable pub check : (Bytes → Text) → Inputs → Result Checked
check sha i = do
  require (is_basename i.name) (exited (codes "package name must be a basename"))
  arch ← arch_of i.preset
  bits ← int10 (remove_prefix (codes "riscv") arch)
  let cfg = config_values i.kernel_config
  hz ← check_hz i.preset cfg
  check_config i cfg
  check_rootfs sha i
  found ← check_layout i
  ok (record {
    bits = bits;
    hz = hz;
    layout = found.0;
    payload_offset = found.0.text_offset;
    memory = found.1;
  })
