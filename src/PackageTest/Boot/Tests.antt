-- ===== src/PackageTest/Boot/Tests.antt =====
-- A boot of scripts/test-packages.py on a machine with a tiny shell.
use linux_build.Base.{
  ℕ, zero, suc, ◌+◌, ◌*◌, ◌<◌, Bool, true, false, List, [], ◌∷◌, ◌++◌, Option, none, some, Text,
  codes, newline, text_eq, text_in, starts_with, Result, ok, err, decimal, pos, ◌≡◌, refl, arith,
  All, bad_value, some-inj, sym,
}
use linux_build.Base.Shell.{lower}
use linux_build.Base.Bytes.{Bytes}
use linux_build.Base.Image.{find}
use linux_build.Base.Dict.{lookup, insert}
use linux_build.Toml.{int_text}
use linux_build.Package.Readme.{Manifest}
use linux_build.Release.Status.{ends_with, under}
use linux_build.Gate.Records.{Boot, Outside, Options, Files}
use linux_build.Gate.Boots.{contains, remove_suffix, log_path, check_boot}
use linux_build.PackageTest.Guest.{
  Machine, Guest, clean_from, escape_length, escape_rest, split_lines, add_char, joined, has_any,
  note, see_lines, see_all, check_failures, absorb, poll, take_output, read, send, wait_until,
  waited, wait, new_guest,
}
use linux_build.PackageTest.Guest.Faithful.{IsAscii, IsFaithful, started, seen, Session-IsFaithful}
use linux_build.PackageTest.Guest.Ends.{IsClock, Ends, wait-Ends}
use linux_build.PackageTest.Boot.{
  Bench, Booted, BootRun, at_prompt, tiny_result, exchange, tiny_command, run_tiny, exercise_tiny,
  exercise, mode_arguments, qemu_command, is_ready, session, result_of, boot,
}
use linux_build.PackageTest.Boot.Accepted.{tiny_payload, boot-check_boot}

abbrev prompt : Text
prompt = codes "tinysh# "

-- What each read receives: the start, in two parts of which the first ends inside a line, and an answer
-- for each command.
abbrev answers : List Text
answers =
    codes "Linux ver"
    ∷ (codes "sion 6 x" ++ (newline ∷ prompt))
    ∷ (codes "Linux" ++ (newline ∷ prompt))
    ∷ prompt
    ∷ (codes "raptor-release-check" ++ (newline ∷ prompt))
    ∷ prompt
    ∷ prompt
    ∷ (codes "RAPT_TINY_END" ++ (newline ∷ prompt))
    ∷ []

abbrev answer : List Text → ℕ → Option Text
answer [] n = none
answer (a ∷ as') zero = some a
answer (a ∷ as') (suc n) = answer as' n

-- A reading of the clock takes a second.
abbrev machine : Machine
machine = record {
  output = λ sent n. answer answers n;
  exit = λ sent n. none;
  clock = λ n. n * 1000000;
  decode = λ bytes. bytes;
  passes = λ t. t;
}

machine-IsClock : IsClock machine
machine-IsClock = record { rises = λ i j h. omega arith; passes = λ t. omega arith }

abbrev IsAsciiText : Text → Type 0
IsAsciiText = All (λ c. c < 128)

answers-IsAscii : All IsAsciiText answers
answers-IsAscii = omega arith

answer-IsAscii :
    (ts : List Text) (n : ℕ) {t : Text} → All IsAsciiText ts → answer ts n ≡ some t → IsAsciiText t
answer-IsAscii [] n a h = cc
answer-IsAscii (a ∷ ts) zero h e = rw (some-inj (sym e)) h.0
answer-IsAscii (a ∷ ts) (suc n) h e = answer-IsAscii ts n h.1 e

machine-IsAscii : IsAscii machine
machine-IsAscii = record {
  decodes = λ bytes h. refl;
  outputs = λ sent n e. answer-IsAscii answers n answers-IsAscii e;
}

abbrev after_read : Guest
after_read = (read machine new_guest).0

read-run : read machine new_guest ≡ (after_read, ok tt)
unfolding read take_output absorb see_all see_lines note check_failures poll split_lines add_char
    joined has_any contains find clean_from escape_length escape_rest starts_with text_in text_eq
    insert lookup
read-run = refl

Session-IsFaithful_example : IsFaithful machine after_read
Session-IsFaithful_example = Session-IsFaithful machine machine-IsAscii (seen started read-run)

abbrev is_prompt : Guest → Bool
is_prompt g = ends_with g.raw prompt

wait-Ends_example :
    Ends machine is_prompt
      (machine.clock new_guest.readings + 5000000)
      (wait machine is_prompt 5000000 new_guest).0
      (wait machine is_prompt 5000000 new_guest).1
wait-Ends_example = wait-Ends machine machine-IsClock is_prompt 5000000 new_guest

abbrev bench : Bench
bench = record {
  qemu = λ bits. some (codes "qemu");
  machine = λ command. machine;
  port = 80;
  probe = λ bits. ok tt;
  sha = λ content. content;
}

abbrev booted : Booted
booted = record {
  files = codes "/t";
  bits = pos 32;
  memory_mib = pos 1024;
  variant = codes "tiny_shell";
}

abbrev run : BootRun
run = boot bench booted (codes "payload") 120000000

abbrev all_of : List Text → Text
all_of [] = []
all_of (t ∷ ts) = t ++ all_of ts

-- All that is received.
abbrev log : Bytes
log = all_of answers

abbrev no_boot : Boot
no_boot = record {
  mode = [];
  pass = false;
  checks = [];
  network_exec_commands = [];
  capabilities = [];
  child_processes = none;
  sleep_wall = none;
  commands = none;
  uart_sha256 = [];
}

abbrev boot_of : Result Boot → Boot
boot_of (ok b) = b
boot_of (err x) = no_boot

abbrev found : Boot
found = boot_of run.result

run-result : run.result ≡ ok found
unfolding boot session result_of exercise exercise_tiny run_tiny tiny_command exchange tiny_result
    is_ready at_prompt qemu_command mode_arguments wait waited wait_until send read take_output
    absorb see_all see_lines note check_failures poll split_lines add_char joined has_any contains
    find clean_from escape_length escape_rest starts_with text_in text_eq insert lookup lower
    ends_with int_text decimal
run-result = refl

run-log : run.log ≡ some log
unfolding boot session result_of exercise exercise_tiny run_tiny tiny_command exchange tiny_result
    is_ready at_prompt qemu_command mode_arguments wait waited wait_until send read take_output
    absorb see_all see_lines note check_failures poll split_lines add_char joined has_any contains
    find clean_from escape_length escape_rest starts_with text_in text_eq insert lookup lower
    ends_with int_text decimal
run-log = refl

abbrev outside : Outside
outside = record {
  sha = λ content. content;
  read_tests = λ content. err bad_value;
  manifest_in = λ content path. err bad_value;
  decode_log = λ content. content;
  dumps = λ c h. h;
  loads = λ content. err bad_value;
}

abbrev options : Options
options = record { root = codes "/r"; dist = codes "/d"; debug = true }

abbrev archive : Text
archive = codes "p.tar.gz"

abbrev files : Files
files = (codes "/r/logs/p-payload.log", log) ∷ []

abbrev manifest : Manifest
manifest = record {
  preset = codes "q32";
  variant = codes "tiny_shell";
  bits = pos 32;
  kernel_version = codes "6";
  kernel_hz = pos 100;
  memory_mib = pos 1024;
  kernel_address = [];
  kernel_memory_end = [];
  kernel_memory_size = 0;
  payload_kernel_offset = 0;
  fdt_offset = pos 0;
  fdt_address = [];
  opensbi_isa = [];
  abi = [];
  build_inputs = [];
  source_commit = [];
  opensbi_commit = [];
  created = 0;
}

log-there :
    lookup (log_path outside options (codes "logs") archive (codes "payload")) files ≡ some log
unfolding lookup log_path remove_suffix under starts_with text_eq
log-there = refl

log-version : contains (codes "Linux version 6 ") log ≡ true
unfolding boot session result_of exercise exercise_tiny run_tiny tiny_command exchange tiny_result
    is_ready at_prompt qemu_command mode_arguments wait waited wait_until send read take_output
    absorb see_all see_lines note check_failures poll split_lines add_char joined has_any contains
    find clean_from escape_length escape_rest starts_with text_in text_eq insert lookup lower
    ends_with int_text decimal
log-version = refl

boot-check_boot_example :
    check_boot outside options files (codes "logs") archive (codes "tiny_shell") manifest found
    ≡ ok tt
boot-check_boot_example =
    boot-check_boot outside options bench booted (codes "payload") 120000000 files (codes "logs")
      archive manifest tiny_payload run-result run-log log-there refl log-version
