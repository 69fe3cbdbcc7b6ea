-- ===== src/Distro/Config.antt =====
-- `load_config` and `provision_script` of scripts/build-distro.py.
pub mod Words
use linux_build.Base.{
  ℕ, Bool, true, false, ◌&&◌, ◌||◌, List, [], ◌∷◌, ◌++◌, none, some, leb, pos, leb_ℤ, Text, codes,
  text_in, has_char, join, Result, ok, err, Fault, value_error, bad_value, ◌>>=◌, ◌>>◌, require,
}
use linux_build.Toml.{Value, Items, Fields, nil, cons, int, str, arr, table, get, is_text}
use linux_build.Release.Matrix.{distros, subscript}
use linux_build.Package.Readme.{text_of_lines}

abbrev pub is_lower : ℕ → Bool
is_lower c = leb b'a' c && leb c b'z'

abbrev pub is_upper : ℕ → Bool
is_upper c = leb b'A' c && leb c b'Z'

abbrev pub is_digit : ℕ → Bool
is_digit c = leb b'0' c && leb c b'9'

abbrev pub is_alnum : ℕ → Bool
is_alnum c = is_lower c || is_upper c || is_digit c

unfoldable pub all_chars : (ℕ → Bool) → Text → Bool
all_chars p [] = true
all_chars p (c ∷ s) = p c && all_chars p s

-- `[A-Za-z0-9][A-Za-z0-9./:@_-]*`
unfoldable pub is_reference : Text → Bool
unfolding all_chars
is_reference [] = false
is_reference (c ∷ s) = is_alnum c && all_chars (λ d. is_alnum d || has_char d (codes "./:@_-")) s

-- `[a-z0-9][a-z0-9+_.-]*`
unfoldable pub is_package : Text → Bool
unfolding all_chars
is_package [] = false
is_package (c ∷ s) =
    (is_lower c || is_digit c)
    && all_chars (λ d. is_lower d || is_digit d || has_char d (codes "+_.-")) s

-- `isinstance(p, str) and re.fullmatch(...)`
abbrev pub is_name : Value → Bool
is_name (str s) = is_package s
is_name _ = false

unfoldable pub all_names : Items → Bool
all_names nil = true
all_names (cons v vs) = is_name v && all_names vs

-- `fs.get('packages', [])`, for a table `fs`
abbrev pub packages_of : Fields → Value
packages_of fs = elim (get (codes "packages") fs) [ none ↦ arr nil | some v ↦ v ]

unfoldable pub are_names : Value → Bool
are_names (arr vs) = all_names vs
are_names _ = false

-- `fs['size_mib']`, where `isinstance` takes a Boolean as the numbers 0 and 1.
unfoldable pub is_size : Value → Bool
is_size (int n) = leb_ℤ (pos 128) n
is_size _ = false

-- `re.fullmatch(..., v)`, which is an error for what is no text.
unfoldable pub reference_ok : Value → Result Bool
reference_ok (str s) = ok (is_reference s)
reference_ok _ = err bad_value

-- A table, where another value has no `get`.
unfoldable pub fields_of : Value → Result Fields
fields_of (table fs) = ok fs
fields_of _ = err bad_value

abbrev pub in_distros : Value → Bool
in_distros (str s) = text_in s distros
in_distros _ = false

abbrev wrong_target : Fault
wrong_target = value_error (codes "requires an Alpine/Debian riscv64 preset")

-- `load_config` on the parsed preset; the settings of the root filesystem.
unfoldable pub load_config : Fields → Result Fields
load_config cfg = do
  fs ← subscript (table cfg) (codes "rootfs")
  target ← subscript (table cfg) (codes "target")
  arch ← subscript target (codes "arch")
  require (is_text arch (codes "riscv64")) wrong_target
  kind ← subscript fs (codes "type")
  require (in_distros kind) wrong_target
  image ← subscript fs (codes "image")
  valid ← reference_ok image
  require valid (value_error (codes "invalid OCI image reference"))
  size ← subscript fs (codes "size_mib")
  require (is_size size) (value_error (codes "rootfs.size_mib must be an integer >= 128"))
  rootfs ← fields_of fs
  require (are_names (packages_of rootfs))
      (value_error (codes "rootfs.packages must contain plain package names"))
  ok rootfs

unfoldable pub names_of : Items → List Text
names_of nil = []
names_of (cons (str s) vs) = s ∷ names_of vs
names_of (cons v vs) = names_of vs

-- `' '.join(packages)`, for packages that `load_config` has accepted.
unfoldable pub package_list : Fields → Text
unfolding names_of
package_list fs = elim (packages_of fs) [ arr vs ↦ join (codes " ") (names_of vs) | _ ↦ [] ]

-- `install`, for Alpine and for Debian, as lines.
unfoldable pub install_lines : Bool → Text → List Text
install_lines true packages =
    codes "test \"$(apk --print-arch)\" = riscv64"
    ∷ (codes "apk add --no-cache busybox openssh " ++ packages)
    ∷ codes "apk info -v | sort > /var/lib/raptor/build-packages.txt"
    ∷ []
install_lines false packages =
    codes "test \"$(dpkg --print-architecture)\" = riscv64"
    ∷ codes "# Retry complete acquisitions as well as connections; some proxies return 502."
    ∷ codes "apt_retry() {"
    ∷ codes "    for attempt in 1 2 3; do"
    ∷ codes
        "        apt-get -o Acquire::Retries=3 -o Acquire::http::Pipeline-Depth=0 \"$@\" && return 0"
    ∷ codes "        [ \"$attempt\" -lt 3 ] || return 1"
    ∷ codes "        sleep 2"
    ∷ codes "    done"
    ∷ codes "}"
    ∷ codes "apt_retry update"
    ∷ (codes "DEBIAN_FRONTEND=noninteractive apt_retry install -y --no-install-recommends "
        ++ (codes "busybox-static openssh-server " ++ packages))
    ∷ codes "apt-get clean"
    ∷ codes "rm -rf /var/lib/apt/lists/*"
    ∷ codes "dpkg-query -W > /var/lib/raptor/build-packages.txt"
    ∷ []

abbrev first_lines : List Text
first_lines =
    codes "#!/bin/sh"
    ∷ codes "set -eu"
    ∷ codes "export PATH=/usr/local/sbin:/usr/local/bin:/usr/sbin:/usr/bin:/sbin:/bin"
    ∷ codes "mkdir -p /var/lib/raptor"
    ∷ []

abbrev last_lines : List Text
last_lines =
    codes "for applet in init udhcpc ip ifconfig mount grep reboot poweroff; do"
    ∷ (codes "    /bin/busybox --list | grep -qx \"$applet\" || "
        ++ codes "{ echo \"Missing required BusyBox applet: $applet\"; exit 1; }")
    ∷ codes "done"
    ∷ codes "mkdir -p /proc /sys /dev /run /tmp /root /etc/ssh"
    ∷ codes "chmod 1777 /tmp"
    ∷ codes "rm -f /etc/ssh/ssh_host_*"
    ∷ (codes "printf 'PermitRootLogin prohibit-password\\nPasswordAuthentication no\\n"
        ++ codes "KbdInteractiveAuthentication no\\n' > /etc/ssh/sshd_config")
    ∷ codes "# Enable key-based root access once authorized_keys is provisioned; no SSH passwords."
    ∷ codes "passwd -d root"
    ∷ codes "chmod 755 /sbin/raptor-init /etc/init.d/raptor-boot /etc/raptor-udhcpc.script"
    ∷ []

-- `cfg['rootfs']['type'] == 'alpine'`
abbrev pub is_alpine : Fields → Bool
is_alpine fs = elim (get (codes "type") fs) [ none ↦ false | some v ↦ is_text v (codes "alpine") ]

unfoldable pub provision_script : Fields → Text
provision_script fs =
    text_of_lines (first_lines ++ (install_lines (is_alpine fs) (package_list fs) ++ last_lines))
