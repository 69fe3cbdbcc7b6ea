-- ===== src/PackageTest/Boot.antt =====
-- `boot` of scripts/test-packages.py, with `tiny_network_and_exec` and `buildroot_capabilities`.
pub mod Demands
pub mod Accepted
mod Tests
use linux_build.Base.{
  ℕ, zero, suc, ◌+◌, ◌-◌, Bool, true, false, not, ◌&&◌, ◌||◌, List, [], ◌∷◌, ◌++◌, Option, none,
  some, leb, ltb, ◌==◌, if◌then◌else◌, length, max, Text, codes, newline, text_eq, starts_with,
  Result, ok, err, runtime_error, key_error, ℤ, pos, decimal,
}
use linux_build.Base.Bytes.{Bytes}
use linux_build.Base.Shell.{lower}
use linux_build.Base.Dict.{Dict, lookup}
use linux_build.Base.State.{Action, ◌>>=◌, ◌>>◌, give, lift}
use linux_build.Base as Base
use linux_build.Toml.{Value, int_text}
use linux_build.Release.Status.{ends_with}
use linux_build.Gate.Records.{Timed, Boot}
use linux_build.Gate.Boots.{contains}
use linux_build.PackageTest.Guest.{
  Machine, Guest, clean, br_markers, has_event, new_guest, guest_text, text_from, monotonic, send,
  wait,
}
use linux_build.PackageTest.Commands.{
  br_command, groups, marker_of, group_line, network_commands, tiny_checks,
}

-- Whether the last line, with or without a newline behind it, ends with the prompt: what
-- `re.search(r'(?:^|\n)[^\n]*' + prompt + '$', text)` finds.
unfoldable pub at_prompt : Text → Text → Bool
at_prompt prompt text = ends_with text prompt || ends_with text (prompt ++ (newline ∷ []))

abbrev pub tiny_prompt : Text
tiny_prompt = codes "tinysh# "

-- A line with its newlines around it.
abbrev pub own_line : Text → Text
own_line line = newline ∷ (line ++ (newline ∷ []))

-- `if not test: raise RuntimeError(message)`
abbrev pub assure : Bool → Text → Action Guest (Unit {0})
assure true message g = (g, ok tt)
assure false message g = (g, err (runtime_error message))

-- What the checks of a boot add to its result.
pub record Exercise : Type 0 where
  pub network : List Text
  pub capabilities : Dict Value
  pub child_processes : Option ℕ
  pub sleep_wall : Option ℕ
  pub commands : Option (List Timed)

abbrev pub no_exercise : Exercise
no_exercise = record {
  network = [];
  capabilities = [];
  child_processes = none;
  sleep_wall = none;
  commands = none;
}

abbrev pub capabilities_found : Dict Value
capabilities_found =
    (codes "proc_cpuinfo", Value.bool true)
    ∷ (codes "sysfs", Value.bool true)
    ∷ (codes "devtmpfs", Value.bool true)
    ∷ (codes "devpts", Value.bool true)
    ∷ (codes "tinysh_command_baseline", Value.bool true)
    ∷ (codes "filesystem_operations", Value.bool true)
    ∷ []

-- `a <= b` for each two that follow one another: whether `times == sorted(times)`.
unfoldable pub in_order : List ℕ → Bool
in_order [] = true
in_order (a ∷ []) = true
in_order (a ∷ b ∷ times) = leb a b && in_order (b ∷ times)

-- The times of the markers, if all are there.
unfoldable pub times_of : List Text → Dict ℕ → Option (List ℕ)
times_of [] events = some []
times_of (marker ∷ markers) events = elim (lookup marker events) [
  | none ↦ none
  | some time ↦ elim (times_of markers events) [ none ↦ none | some times ↦ some (time ∷ times) ]
]

-- `events['RAPT_SLEEP_PASS'] - events['RAPT_SLEEP_BEGIN']`, where both are there.
unfoldable pub slept : Dict ℕ → ℕ
slept events = elim (lookup (codes "RAPT_SLEEP_PASS") events) [
  | none ↦ 0
  | some pass ↦ elim (lookup (codes "RAPT_SLEEP_BEGIN") events) [
    | none ↦ 0
    | some start ↦ pass - start
  ]
]

-- The tests on the markers, from their times; the time slept.
unfoldable pub acceptance : Option (List ℕ) → ℕ → Result ℕ
acceptance none time = err (runtime_error (codes "missing functional acceptance markers"))
acceptance (some times) time = elim (in_order times) [
  | false ↦ err (runtime_error (codes "acceptance markers arrived out of order"))
  | true ↦ elim (leb 89000000 time) [
    | false ↦ err (runtime_error (codes "90-second sleep returned too early"))
    | true ↦ ok time
  ]
]

-- A command that is not to fail.
abbrev pub has_failed : Text → Bool
has_failed output = contains (codes "failed") (lower output)

-- The tests of `tiny_network_and_exec` on an output.
unfoldable pub network_result : Text → Text → Text → Result Text
network_result command expected output =
    if not (contains expected output) || has_failed output
    then err (
        runtime_error
          (codes "tiny network/exec check failed: " ++ (command ++ (codes ": " ++ output))))
    else if starts_with command (codes "run ")
        && not (contains (own_line (codes "RAPT_EXEC_CHILD")) output)
    then err (runtime_error (codes "downloaded child did not execute"))
    else if text_eq expected (codes "RAPT_NC_PASS")
        && not (contains (own_line (codes "RAPT_NC_PASS")) output)
    then err (runtime_error (codes "BusyBox nc transfer failed"))
    else ok command

-- The tests on the output of a command of the tiny shell, and the time that it took.
unfoldable pub tiny_result : Text → Text → Text → ℕ → Result Timed
tiny_result command expected output elapsed =
    if not (text_eq expected []) && not (contains expected output)
    then err (runtime_error (codes "tiny shell check failed: " ++ command))
    else if text_eq command (codes "sleep 2") && ltb elapsed 1800000
    then err (runtime_error (codes "tiny shell sleep returned too early"))
    else if has_failed output || contains (codes "unknown command") (lower output)
    then err (runtime_error (codes "tiny shell command error: " ++ command))
    else ok (record { command = command; wall = elapsed })

module _ (m : Machine) where
  abbrev pub offset_of : Action Guest ℕ
  offset_of g = (g, ok (length g.raw))

  abbrev pub output_from : ℕ → Action Guest Text
  output_from offset g = (g, ok (text_from m offset g))

  -- A line is sent, and the state waited for is one of what comes behind it.
  unfoldable pub exchange : Text → (Text → Bool) → ℕ → Action Guest Text
  exchange line reached timeout = do
    offset ← offset_of
    send m line
    wait m (λ g. reached (text_from m offset g)) timeout
    output_from offset

  unfoldable pub network_command : Text → Text × Text → Action Guest Text
  network_command prompt (command, expected) = do
    output ← exchange (command ++ (newline ∷ [])) (λ t. ends_with t prompt) 30000000
    lift (network_result command expected output)

  -- The commands in turn; `checked`
  unfoldable pub run_network : Text → List (Text × Text) → Action Guest (List Text)
  run_network prompt [] = give []
  run_network prompt (c ∷ cs) = do
    command ← network_command prompt c
    checked ← run_network prompt cs
    give (command ∷ checked)

  -- The groups from the one of the index.
  unfoldable pub run_groups : ℕ → List Text → Action Guest (Unit {0})
  run_groups index [] = give tt
  run_groups index (script ∷ scripts) = do
    offset ← offset_of
    send m (group_line index script)
    wait m
        (λ g.
          contains (own_line (marker_of index)) (text_from m offset g)
          && ends_with (guest_text m g) (codes "# "))
        30000000
    run_groups (suc index) scripts

  unfoldable pub buildroot_capabilities : Action Guest (Dict Value)
  buildroot_capabilities = do run_groups 0 groups; give capabilities_found

  unfoldable pub tiny_command : Text × Text → Action Guest Timed
  tiny_command (command, expected) = do
    start ← monotonic m
    output ← exchange (command ++ (newline ∷ [])) (λ t. ends_with t tiny_prompt) 15000000
    end ← monotonic m
    lift (tiny_result command expected output (end - start))

  unfoldable pub run_tiny : List (Text × Text) → Action Guest (List Timed)
  run_tiny [] = give []
  run_tiny (c ∷ cs) = do timed ← tiny_command c; rest ← run_tiny cs; give (timed ∷ rest)

  abbrev pub events_now : Action Guest (Dict ℕ)
  events_now g = (g, ok g.events)

  -- The acceptance of Buildroot; the time slept.
  unfoldable pub accept : ℕ → Action Guest ℕ
  accept timeout = do
    send m br_command
    wait m (λ g. has_event (codes "RAPT_ACCEPT_END") g.events) (max timeout 150000000)
    events ← events_now
    lift (acceptance (times_of br_markers events) (slept events))

  module _ (port : ℕ) (probe : Result (Unit {0})) where
    -- `probe` is how the compiler of the downloaded program ends.
    unfoldable pub tiny_network_and_exec : Bool → Action Guest (List Text)
    tiny_network_and_exec tiny = do
      lift probe
      run_network (if tiny then tiny_prompt else codes "# ") (network_commands tiny port)

    unfoldable pub exercise_full : Action Guest Exercise
    exercise_full = do
      capabilities ← buildroot_capabilities
      network ← tiny_network_and_exec false
      give (record {
        network = network;
        capabilities = capabilities;
        child_processes = none;
        sleep_wall = none;
        commands = none;
      })

    unfoldable pub exercise_buildroot : ℕ → Action Guest Exercise
    exercise_buildroot timeout = do
      output ← exchange (codes "root" ++ (newline ∷ [])) (at_prompt (codes "# ")) 30000000
      full ← exercise_full
      time ← accept timeout
      give (record {
        network = full.network;
        capabilities = full.capabilities;
        child_processes = some 100;
        sleep_wall = some time;
        commands = none;
      })

    unfoldable pub exercise_tiny : Action Guest Exercise
    exercise_tiny = do
      timed ← run_tiny tiny_checks
      give (record {
        network = [];
        capabilities = [];
        child_processes = none;
        sleep_wall = none;
        commands = some timed;
      })

    unfoldable pub exercise_split : Action Guest Exercise
    exercise_split = do
      network ← tiny_network_and_exec true
      give (record {
        network = network;
        capabilities = [];
        child_processes = none;
        sleep_wall = none;
        commands = none;
      })

    -- What follows the boot, by the mode and the variant.
    unfoldable pub exercise : Text → Text → ℕ → Action Guest Exercise
    exercise mode variant timeout =
        let tiny = text_eq variant (codes "tiny_shell") in
        elim (text_eq mode (codes "split") && tiny) [
          | true ↦ exercise_split
          | false ↦ elim (text_eq mode (codes "shell")) [
            | true ↦ exercise_full
            | false ↦ elim (text_eq mode (codes "payload")) [
              | true ↦ elim (text_eq variant (codes "buildroot")) [
                | true ↦ exercise_buildroot timeout
                | false ↦ exercise_tiny
              ]
              | false ↦ give no_exercise
            ]
          ]
        ]

-- The package that is booted: of its manifest, what `boot` reads, and the folder of its files.
pub record Booted : Type 0 where
  pub files : Text
  pub bits : ℤ
  pub memory_mib : ℤ
  pub variant : Text

-- What the tests run on. `qemu` finds the machine's program, `probe` is how the compiler of the
-- downloaded program ends, and `port` that of the server that offers it.
pub record Bench : Type 0 where
  pub qemu : ℤ → Option Text
  pub machine : List Text → Machine
  pub port : ℕ
  pub probe : ℤ → Result (Unit {0})
  pub sha : Bytes → Text

-- The arguments that only a split boot has.
unfoldable pub mode_arguments : Booted → Text → List Text
mode_arguments p mode =
    let shell = text_eq mode (codes "shell") in
    if text_eq mode (codes "split") || shell
    then codes "-bios"
      ∷ (p.files ++ codes "/fw_dynamic.bin")
      ∷ codes "-kernel"
      ∷ (p.files ++ codes "/Image")
      ∷ codes "-initrd"
      ∷ (p.files ++ codes "/initramfs.cpio.gz")
      ∷ codes "-append"
      ∷ (codes "root=/dev/ram rdinit="
          ++ ((if shell then codes "/sbin/raptor-shell" else codes "/init")
              ++ (codes " console=ttyS0 earlycon=sbi"
                  ++ (if text_eq p.variant (codes "tiny_shell") || shell
                      then codes " ip=dhcp"
                      else []))))
      ∷ []
    else codes "-bios" ∷ (p.files ++ codes "/fw_payload.bin") ∷ []

-- `command`
unfoldable pub qemu_command : Text → Booted → Text → List Text
qemu_command qemu p mode =
    qemu
    ∷ codes "-M"
    ∷ codes "virt"
    ∷ codes "-m"
    ∷ (int_text p.memory_mib ++ codes "M")
    ∷ codes "-smp"
    ∷ codes "1"
    ∷ codes "-cpu"
    ∷ (codes "rv" ++ (int_text p.bits ++ codes ",h=false,sstc=false,svadu=false"))
    ∷ codes "-nographic"
    ∷ codes "-no-reboot"
    ∷ codes "-netdev"
    ∷ codes "user,id=net0"
    ∷ codes "-device"
    ∷ codes "virtio-net-device,netdev=net0"
    ∷ mode_arguments p mode

-- `ready`
unfoldable pub is_ready : Machine → Text → Text → Guest → Bool
is_ready m variant mode g =
    if text_eq variant (codes "tiny_shell")
    then ends_with (guest_text m g) tiny_prompt
    else at_prompt (if text_eq mode (codes "shell") then codes "# " else codes "login: ")
        (guest_text m g)

-- The session of a boot, from its start.
unfoldable pub session : Bench → Booted → Text → ℕ → Machine → Action Guest Exercise
session bench p mode timeout m = do
  wait m (is_ready m p.variant mode) timeout
  exercise m bench.port (bench.probe p.bits) mode p.variant timeout

-- The log, which is there as soon as the machine is started, and the result, which is given only
-- without an error. Of the result this is what the release gate reads.
pub record BootRun : Type 0 where
  pub log : Option Bytes
  pub result : Result Boot

unfoldable pub result_of : Bench → Text → Guest × Result Exercise → BootRun
result_of bench mode (g, err x) = record { log = some g.log; result = err x }
result_of bench mode (g, ok e) = record {
  log = some g.log;
  result = ok (record {
    mode = mode;
    pass = true;
    checks = [];
    network_exec_commands = e.network;
    capabilities = e.capabilities;
    child_processes = e.child_processes;
    sleep_wall = e.sleep_wall;
    commands = e.commands;
    uart_sha256 = bench.sha g.log;
  });
}

unfoldable pub boot : Bench → Booted → Text → ℕ → BootRun
boot bench p mode timeout = elim (bench.qemu p.bits) [
  | none ↦ record {
    log = none;
    result = err (runtime_error (codes "QEMU RV" ++ (int_text p.bits ++ codes " is unavailable")));
  }
  | some qemu ↦
      result_of bench mode
        (session bench p mode timeout (bench.machine (qemu_command qemu p mode)) new_guest)
]
