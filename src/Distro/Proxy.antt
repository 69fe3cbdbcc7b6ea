-- ===== src/Distro/Proxy.antt =====
-- `guest_proxy` of scripts/build-distro.py and `proxy_export` of scripts/distro_runtime.py: the proxy
-- that a guest is given, from the environment, and the script that `prepare_guest` starts the guest
-- with. `urllib.parse` is given.
pub mod Same
use linux_build.Base.{
  ℕ, Bool, true, false, ◌||◌, List, [], ◌∷◌, ◌++◌, Option, none, some, ◌==◌, if◌then◌else◌, Text,
  codes, decimal, has_char, text_eq, Result, ok, ◌>>=◌,
}
use linux_build.Base.Shell.{shell_quote}
use linux_build.Base.Dict.{Dict, lookup}
use linux_build.Package.Readme.{text_of_lines}

-- What `urlsplit` gives; the port is an error if it is no port number.
pub record Url : Type 0 where
  pub scheme : Text
  pub netloc : Text
  pub path : Text
  pub query : Text
  pub fragment : Text
  pub hostname : Option Text
  pub port : Result (Option ℕ)

pub record UrlParse : Type 0 where
  pub urlsplit : Text → Result Url
  pub urlunsplit : Text → Text → Text → Text → Text → Text

-- `s.rsplit('@', 1)[0]`, for a text with this character
unfoldable pub before_at : Text → Text
before_at [] = []
before_at (c ∷ s) =
    let rest = before_at s in
    if has_char b'@' s then c ∷ rest else if c == b'@' then [] else c ∷ rest

unfoldable pub auth_of : Text → Text
auth_of netloc = if has_char b'@' netloc then before_at netloc ++ codes "@" else []

unfoldable pub port_text : Option ℕ → Text
port_text none = []
port_text (some n) = if n == 0 then [] else b':' ∷ decimal n

abbrev pub is_local : Option Text → Bool
is_local none = false
is_local (some host) = text_eq host (codes "localhost") || text_eq host (codes "127.0.0.1")

-- `a or b`, for values of the environment
abbrev pub or_value : Option Text → Option Text → Option Text
or_value (some (c ∷ s)) other = some (c ∷ s)
or_value _ other = other

unfoldable pub https_proxy : Dict Text → Text
https_proxy env =
    elim (or_value (lookup (codes "HTTPS_PROXY") env) (lookup (codes "https_proxy") env)) [
      | none ↦ []
      | some v ↦ v
    ]

-- `meta['proxy']` in the script that the provisioning guest starts with, as lines
unfoldable pub export_lines : Text → List Text
export_lines [] = []
export_lines (c ∷ s) =
    (codes "export http_proxy=" ++ shell_quote (c ∷ s))
    ∷ codes "export https_proxy=\"$http_proxy\""
    ∷ []

abbrev before_proxy : List Text
before_proxy =
    codes "#!/bin/sh"
    ∷ codes "export PATH=/usr/sbin:/usr/bin:/sbin:/bin"
    ∷ codes "mount -t proc proc /proc"
    ∷ codes "mount -t sysfs sysfs /sys"
    ∷ codes "mount -t devtmpfs devtmpfs /dev"
    ∷ codes "mkdir -p /mnt /dev/pts"
    ∷ codes "mount -t devpts devpts /dev/pts"
    ∷ codes "ifconfig lo up"
    ∷ codes "ifconfig eth0 10.0.2.15 netmask 255.255.255.0 up"
    ∷ codes "route add default gw 10.0.2.2"
    ∷ []

abbrev after_proxy : List Text
after_proxy =
    codes "provision() {"
    ∷ codes "    mount -t ext4 /dev/vda /mnt || return 1"
    ∷ codes "    mkdir -p /mnt/proc /mnt/sys /mnt/dev /mnt/tmp"
    ∷ codes "    mount -t proc proc /mnt/proc || return 1"
    ∷ codes "    mount -t sysfs sysfs /mnt/sys || return 1"
    ∷ codes "    mount --bind /dev /mnt/dev || return 1"
    ∷ codes "    printf 'nameserver 10.0.2.3\\n' > /mnt/etc/resolv.conf"
    ∷ codes "    cp /provision.sh /mnt/tmp/raptor-provision.sh"
    ∷ codes "    chroot /mnt /bin/sh /tmp/raptor-provision.sh || return 1"
    ∷ codes "    rm /mnt/tmp/raptor-provision.sh"
    ∷ codes "    sync"
    ∷ codes "    umount /mnt/dev /mnt/sys /mnt/proc || return 1"
    ∷ codes "    umount /mnt || return 1"
    ∷ codes "}"
    ∷ codes "if provision; then echo RAPT_PROVISION_PASS; else echo RAPT_PROVISION_FAIL; fi"
    ∷ codes "sync"
    ∷ codes "poweroff -f"
    ∷ []

-- `bootstrap`, for the proxy
unfoldable pub bootstrap_lines : Text → List Text
bootstrap_lines proxy = before_proxy ++ (export_lines proxy ++ after_proxy)

unfoldable pub bootstrap : Text → Text
bootstrap proxy = text_of_lines (bootstrap_lines proxy)

module _ (u : UrlParse) where
  -- The URL, with the address that this machine has in the guest if its host is this machine.
  unfoldable pub moved : Text → Url → Bool → Result Text
  moved value url false = ok value
  moved value url true = do
    port ← url.port
    ok (
        u.urlunsplit url.scheme (auth_of url.netloc ++ (codes "10.0.2.2" ++ port_text port))
          url.path url.query url.fragment)

  unfoldable pub seen_from_guest : Text → Result Text
  seen_from_guest value = do url ← u.urlsplit value; moved value url (is_local url.hostname)

  unfoldable pub guest_of : Text → Result Text
  guest_of [] = ok []
  guest_of (c ∷ s) = seen_from_guest (c ∷ s)

  unfoldable pub guest_proxy : Dict Text → Result Text
  guest_proxy env = elim (lookup (codes "DISTRO_GUEST_PROXY") env) [
    | some v ↦ ok v
    | none ↦ guest_of (https_proxy env)
  ]

  abbrev pub export_of : Text → Text
  export_of v =
      codes "export http_proxy=" ++ (shell_quote v ++ codes "; export https_proxy=\"$http_proxy\"")

  unfoldable pub export_value : Text → Result Text
  export_value [] = ok (codes "true")
  export_value (c ∷ s) = do v ← seen_from_guest (c ∷ s); ok (export_of v)

  unfoldable pub proxy_export : Dict Text → Result Text
  proxy_export env = elim (lookup (codes "DISTRO_GUEST_PROXY") env) [
    | some v ↦ export_value v
    | none ↦ export_value (https_proxy env)
  ]
