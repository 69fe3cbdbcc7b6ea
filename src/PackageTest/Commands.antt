-- ===== src/PackageTest/Commands.antt =====
-- What scripts/test-packages.py sends to the shells of a machine.
use linux_build.Base.{ℕ, Bool, List, [], ◌∷◌, ◌++◌, Text, codes, newline, decimal, if◌then◌else◌}
use linux_build.Base.Shell.{shell_quote}

-- `BR_COMMAND`
abbrev pub br_command : Text
br_command =
    codes "echo RAPT_ACCEPT_BEGIN; uname -a; p=$$; i=0; while [ \"$i\" -lt 100 "
    ++ (codes "]; do /bin/sh -c '[ \"$$\" -ne \"$1\" ]' rapt-child \"$p\" || { echo "
        ++ (codes "RAPT_CHILD_FAIL; break; }; i=$((i+1)); done; echo "
            ++ (codes "RAPT_CHILD_COUNT=$i; [ \"$i\" -eq 100 ] && echo RAPT_CHILD_PASS; echo "
                ++ (codes "RAPT_SLEEP_BEGIN; cat /proc/uptime; if sleep 90; then echo "
                    ++ (codes "RAPT_SLEEP_PASS; else echo RAPT_SLEEP_FAIL; fi; cat /proc/uptime; "
                        ++ (codes "echo RAPT_ACCEPT_END"))))))
    ++ (newline ∷ [])

-- `groups`
abbrev pub groups : List Text
groups =
    (codes "grep -q '^processor' /proc/cpuinfo; grep -q '^MemTotal:' "
      ++ (codes "/proc/meminfo; cat /proc/uptime >/dev/null; test -d /sys/devices; "
          ++ (codes "test -d /proc/self/fd; uname -a >/dev/null; uptime >/dev/null; free "
              ++ (codes ">/dev/null; ps >/dev/null; df >/dev/null"))))
    ∷ (codes "test -c /dev/null; test -c /dev/zero; test -c /dev/console; grep -q "
        ++ (codes "' /proc proc ' /proc/mounts; grep -q ' /sys sysfs ' /proc/mounts; "
            ++ (codes "grep -q ' /dev devtmpfs ' /proc/mounts; grep -q ' /dev/pts devpts ' "
                ++ (codes "/proc/mounts"))))
    ∷ (codes "for c in pwd cd ls cat cp touch mkdir rm rmdir mount sync uname "
        ++ (codes "uptime free sleep run clear reboot poweroff exit ifconfig ping nc "
            ++ (codes "fetch ps top df du dmesg; do command -v \"$c\" >/dev/null; done")))
    ∷ (codes "mkdir -p /tmp/raptor-baseline; echo RAPT_FILE_DATA "
        ++ (codes ">/tmp/raptor-baseline/source; cp /tmp/raptor-baseline/source "
            ++ (codes "/tmp/raptor-baseline/copy; cmp /tmp/raptor-baseline/source "
                ++ (codes "/tmp/raptor-baseline/copy; rm /tmp/raptor-baseline/source "
                    ++ (codes "/tmp/raptor-baseline/copy; rmdir /tmp/raptor-baseline")))))
    ∷ []

abbrev pub marker_of : ℕ → Text
marker_of index = codes "RAPT_BASELINE_STEP_" ++ decimal index

-- The line that runs a group.
unfoldable pub group_line : ℕ → Text → Text
group_line index script =
    codes "if /bin/sh -ec "
    ++ (shell_quote script
        ++ (codes "; then echo "
            ++ (marker_of index ++ (codes "; else echo RAPT_BASELINE_FAIL; fi" ++ (newline ∷ [])))))

-- `commands` of `tiny_network_and_exec`, with what their output must have.
unfoldable pub network_commands : Bool → ℕ → List (Text × Text)
network_commands tiny port =
    (if tiny
      then (codes "ping 10.0.2.2", codes "3/3 replies")
      else (codes "ping -c 3 10.0.2.2", codes "3 packets received"))
    ∷ (codes "fetch 10.0.2.2 " ++ (decimal port ++ codes " /probe /tmp/probe"), codes "saved ")
    ∷ (codes "run /tmp/probe", codes "exit 37")
    ∷ (if tiny
        then []
        else (
          codes "printf 'GET /probe HTTP/1.0\\r\\n\\r\\n' | nc -w 5 10.0.2.2 "
              ++ (decimal port
                  ++ (codes " > /tmp/nc-http; "
                      ++ codes "grep -q '200 OK' /tmp/nc-http && echo RAPT_NC_PASS")),
          codes "RAPT_NC_PASS",
        )
          ∷ [])

-- `checks` of a tiny shell; the second part is what the output must have, if anything.
abbrev pub tiny_checks : List (Text × Text)
tiny_checks =
    (codes "uname", codes "Linux")
    ∷ (codes "touch /tmp/raptor-release-check", [])
    ∷ (codes "ls /tmp", codes "raptor-release-check")
    ∷ (codes "rm /tmp/raptor-release-check", [])
    ∷ (codes "sleep 2", [])
    ∷ (codes "echo RAPT_TINY_END", codes "RAPT_TINY_END")
    ∷ []
