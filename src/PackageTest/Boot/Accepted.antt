-- ===== src/PackageTest/Boot/Accepted.antt =====
-- The boots of scripts/test-packages.py as scripts/check-release.py sees them.
use linux_build.Base.{
  ℕ, true, false, not, ◌&&◌, ◌||◌, List, [], ◌∷◌, ◌++◌, Option, none, some, ◌==◌, length, leb, Text,
  codes, text_eq, text_eq_iff, text_in, Result, ok, err, runtime_error, err≢ok, ok-inj, some-inj,
  ◌≡◌, refl, sym, ap, ◌∙◌,
}
use linux_build.Base.State.{bind-eq-ok}
use linux_build.Base.Bytes.{Bytes}
use linux_build.Base.Dict.{lookup}
use linux_build.Toml.{truthy, int_text}
use linux_build.Package.Readme.{Manifest}
use linux_build.Gate.Records.{Timed, Boot, Files, Outside, Options, all_given, is_given}
use linux_build.Gate.Boots.{
  contains, required_capabilities, endured, commands_of, check_baseline, check_endurance,
  check_sleep, log_path, check_log, check_boot,
}
use linux_build.Gate.Boots.Passed.{read-some}
use linux_build.PackageTest.Guest.{Machine, Guest, new_guest, wait}
use linux_build.PackageTest.Boot.{
  Exercise, Booted, Bench, BootRun, capabilities_found, exercise, is_ready, session, result_of,
  qemu_command, boot,
}
use linux_build.PackageTest.Boot.Demands.{split-eq-ok, full-eq-ok, tiny-eq-ok, buildroot-eq-ok}

-- The variants that are booted by `boot`, and their modes.
pub data IsMode : Text → Text → Type 0 where
  tiny_split : IsMode (codes "tiny_shell") (codes "split")
  tiny_payload : IsMode (codes "tiny_shell") (codes "payload")
  buildroot_split : IsMode (codes "buildroot") (codes "split")
  buildroot_payload : IsMode (codes "buildroot") (codes "payload")
  buildroot_shell : IsMode (codes "buildroot") (codes "shell")

-- The checks of the gate on what was exercised.
record Meets (variant name : Text) (b : Boot) : Type 0 where
  pub fetched :
      (not (text_eq b.mode (codes "split") && text_eq variant (codes "tiny_shell"))
        || length b.network_exec_commands == 3)
      ≡ true
  pub distro : text_in variant (codes "alpine" ∷ codes "debian" ∷ []) ≡ false
  pub baseline : check_baseline name variant b ≡ ok tt
  pub endurance : check_endurance name variant b ≡ ok tt
  pub sleep : check_sleep name variant b ≡ ok tt

abbrev boot_with : Text → Text → Exercise → Boot
boot_with mode uart e = record {
  mode = mode;
  pass = true;
  checks = [];
  network_exec_commands = e.network;
  capabilities = e.capabilities;
  child_processes = e.child_processes;
  sleep_wall = e.sleep_wall;
  commands = e.commands;
  uart_sha256 = uart;
}

all_given_found : all_given required_capabilities capabilities_found ≡ true
unfolding all_given is_given lookup text_eq truthy
all_given_found = refl

commands_of-some : (b : Boot) {cs : List Timed} → b.commands ≡ some cs → commands_of b ≡ ok cs
unfolding commands_of
commands_of-some b h = rw (h, commands_of) refl

endured-true :
    (b : Boot) {time : ℕ}
    → b.child_processes ≡ some 100
    → b.sleep_wall ≡ some time
    → leb 89000000 time ≡ true
    → endured b ≡ ok true
unfolding endured
endured-true b c s l = rw (c, s, endured) (rw l refl)

exercise-Meets :
    (m : Machine) (port timeout : ℕ) (probe : Result (Unit {0})) (variant mode uart name : Text)
    (g : Guest) {g' : Guest} {e : Exercise}
    → IsMode variant mode
    → exercise m port probe mode variant timeout g ≡ (g', ok e)
    → Meets variant name (boot_with mode uart e)
unfolding exercise text_eq text_in check_baseline check_endurance check_sleep
exercise-Meets m port timeout probe _ _ uart name g tiny_split h = record {
  fetched = rw (split-eq-ok m port probe g h) refl;
  distro = refl;
  baseline = refl;
  endurance = refl;
  sleep = refl;
}
exercise-Meets m port timeout probe _ _ uart name g {e = e} tiny_payload h =
    let (ts, c, s) = tiny-eq-ok m port probe g h in
    record {
      fetched = refl;
      distro = refl;
      baseline = refl;
      endurance = refl;
      sleep = rw (commands_of-some (boot_with (codes "payload") uart e) c, s) refl;
    }
exercise-Meets m port timeout probe _ _ uart name g buildroot_split h = record {
  fetched = refl;
  distro = refl;
  baseline = refl;
  endurance = refl;
  sleep = refl;
}
exercise-Meets m port timeout probe _ _ uart name g {e = e} buildroot_payload h =
    let (n, c, child, time, slept, long) = buildroot-eq-ok m port probe timeout g h in
    record {
      fetched = refl;
      distro = refl;
      baseline = rw (c, all_given_found, n) refl;
      endurance = rw (endured-true (boot_with (codes "payload") uart e) child slept long) refl;
      sleep = refl;
    }
exercise-Meets m port timeout probe _ _ uart name g buildroot_shell h =
    let (n, c) = full-eq-ok m port probe g h in
    record {
      fetched = refl;
      distro = refl;
      baseline = rw (c, all_given_found, n) refl;
      endurance = refl;
      sleep = refl;
    }

session-eq-ok :
    (bench : Bench) (p : Booted) (mode : Text) (timeout : ℕ) (m : Machine) (g : Guest) {g' : Guest}
    {e : Exercise}
    → session bench p mode timeout m g ≡ (g', ok e)
    → (t : Guest) × (exercise m bench.port (bench.probe p.bits) mode p.variant timeout t
        ≡ (g', ok e))
unfolding session
session-eq-ok bench p mode timeout m g h =
    let (t, u, w, k) =
      bind-eq-ok (wait m (is_ready m p.variant mode) timeout)
        (λ u. exercise m bench.port (bench.probe p.bits) mode p.variant timeout) g h in
    (t, k)

-- What a boot with a result has had.
record Had (bench : Bench) (p : Booted) (mode : Text) (timeout : ℕ) (run : BootRun) (b : Boot)
    : Type 0 where
  machine : Machine
  guest : Guest
  after : Guest
  found : Exercise
  exercised :
      exercise machine bench.port (bench.probe p.bits) mode p.variant timeout guest
      ≡ (after, ok found)
  log : run.log ≡ some after.log
  is : b ≡ boot_with mode (bench.sha after.log) found

result_of-Had :
    (bench : Bench) (p : Booted) (mode : Text) (timeout : ℕ) (m : Machine)
    (r : Guest × Result Exercise) {b : Boot}
    → session bench p mode timeout m new_guest ≡ r
    → (result_of bench mode r).result ≡ ok b
    → Had bench p mode timeout (result_of bench mode r) b
unfolding result_of
result_of-Had bench p mode timeout m (g, err x) s h = cc
result_of-Had bench p mode timeout m (g, ok e) s h =
    let (t, k) = session-eq-ok bench p mode timeout m new_guest s in
    record {
      machine = m;
      guest = t;
      after = g;
      found = e;
      exercised = k;
      log = refl;
      is = sym (ok-inj h);
    }

boot-Had :
    (bench : Bench) (p : Booted) (mode : Text) (timeout : ℕ) {b : Boot}
    → (boot bench p mode timeout).result ≡ ok b
    → Had bench p mode timeout (boot bench p mode timeout) b
unfolding boot
boot-Had bench p mode timeout {b} h = go (bench.qemu p.bits) h
  where
    no_qemu : BootRun
    no_qemu = record {
      log = none;
      result =
          err (runtime_error (codes "QEMU RV" ++ (int_text p.bits ++ codes " is unavailable")));
    }

    run_on : Text → BootRun
    run_on qemu =
        result_of bench mode
          (session bench p mode timeout (bench.machine (qemu_command qemu p mode)) new_guest)

    chosen : Option Text → BootRun
    chosen o = elim o [ none ↦ no_qemu | some qemu ↦ run_on qemu ]

    go : (o : Option Text) → (chosen o).result ≡ ok b → Had bench p mode timeout (chosen o) b
    go none h = absurd (err≢ok h)
    go (some qemu) h =
        let m = bench.machine (qemu_command qemu p mode) in
        result_of-Had bench p mode timeout m (session bench p mode timeout m new_guest) refl h

module _ (out : Outside) (o : Options) where
  -- Let `boot` give a result, in a mode of its variant. Where its log stands as it was written, under its name,
  -- with the hash function that the tests use, and names the version of the kernel, the release gate accepts the boot.
  pub boot-check_boot :
      (bench : Bench) (p : Booted) (mode : Text) (timeout : ℕ) (files : Files) (log_dir name : Text)
      (m : Manifest) {b : Boot} {log : Bytes}
      → IsMode p.variant mode
      → (boot bench p mode timeout).result ≡ ok b
      → (boot bench p mode timeout).log ≡ some log
      → lookup (log_path out o log_dir name mode) files ≡ some log
      → out.sha log ≡ bench.sha log
      → contains (codes "Linux version " ++ (m.kernel_version ++ codes " ")) (out.decode_log log)
        ≡ true
      → check_boot out o files log_dir name p.variant m b ≡ ok tt
  unfolding check_boot check_log
  boot-check_boot bench p mode timeout files log_dir name m {b} {log} is h l there same version =
      let had = boot-Had bench p mode timeout h in
      let own : had.after.log ≡ log = some-inj (sym had.log ∙ l) in
      let meets =
        exercise-Meets had.machine bench.port timeout (bench.probe p.bits) p.variant mode
          (bench.sha had.after.log) name had.guest is had.exercised in
      let hash : text_eq (out.sha log) (bench.sha had.after.log) ≡ true =
        (text_eq_iff _ _).1 (same ∙ ap bench.sha (sym own)) in
      rw
        (
          had.is,
          meets.distro,
          meets.fetched,
          read-some _ files there,
          hash,
          version,
          meets.baseline,
          meets.endurance,
        )
        meets.sleep
