-- ===== src/Gate/Boots/Passed.antt =====
-- The boots that scripts/check-release.py accepts.
use linux_build.Base.{
  ℕ, ◌≤◌, Bool, true, not, ◌&&◌, ◌||◌, List, [], ◌∷◌, ◌++◌, some, ◌==◌, length, Text, codes,
  text_eq, text_in, text_eq_iff, &&_iff, ==_iff, ok, >>=-eq-ok, >>-eq-ok, require-eq-ok,
  Option-cases, inl, inr, refl, ◌≡◌, err≢ok, All, any, arith,
}
use linux_build.Base.Dict.{lookup}
use linux_build.Package.Readme.{Manifest}
use linux_build.Release.Matrix.{distros}
use linux_build.Gate.Records.{
  Timed, Boot, Files, Outside, Options, read, is_checked, is_given, all_set, all_given,
}
use linux_build.Gate.Boots.{
  checks_of, contains, required_capabilities, is_full, is_buildroot, is_tiny, is_slept, endured,
  commands_of, check_baseline, check_endurance, check_sleep, log_path, check_log, check_boot,
  check_boots,
}
use linux_build.Toml.{Value}

all_set-All :
    (ks : List Text) (d : List (Text × Value))
    → all_set ks d ≡ true
    → All (λ k. is_checked k d ≡ true) ks
unfolding all_set
all_set-All [] d h = tt
all_set-All (k ∷ ks) d h = let (first, rest) = (&&_iff _ _).0 h in (first, all_set-All ks d rest)

all_given-All :
    (ks : List Text) (d : List (Text × Value))
    → all_given ks d ≡ true
    → All (λ k. is_given k d ≡ true) ks
unfolding all_given
all_given-All [] d h = tt
all_given-All (k ∷ ks) d h =
    let (first, rest) = (&&_iff _ _).0 h in (first, all_given-All ks d rest)

-- A guarded test that passes, holds where the guard does.
unless : (guard test : Bool) → (not guard || test) ≡ true → guard ≡ true → test ≡ true
unless guard test h g = ground arith

pub read-eq-ok :
    (path : Text) (files : Files) {c : Text} → read path files ≡ ok c → lookup path files ≡ some c
unfolding read
read-eq-ok path files h = elim (Option-cases (lookup path files)) [
  | inl e ↦ absurd (err≢ok (rw (e, read) at h))
  | inr (content, e) ↦ ground arith
]

pub read-some :
    (path : Text) (files : Files) {c : Text} → lookup path files ≡ some c → read path files ≡ ok c
unfolding read
read-some path files h = rw (h, read) refl

endured-eq-true :
    (b : Boot)
    → endured b ≡ ok true
    → (b.child_processes ≡ some 100)
      × (slept : ℕ) × (b.sleep_wall ≡ some slept)
      × (89000000 ≤ slept)
unfolding endured
endured-eq-true b h = elim (Option-cases b.sleep_wall) [
  | inl e ↦ ground arith
  | inr (slept, e) ↦ (ground arith, slept, e, ground arith)
]

check_baseline_lem :
    (name variant : Text) (b : Boot)
    → check_baseline name variant b ≡ ok tt
    → (is_full b.mode && is_buildroot variant) ≡ true
    → All (λ k. is_given k b.capabilities ≡ true) required_capabilities
      × (length b.network_exec_commands ≡ 4)
unfolding check_baseline
check_baseline_lem name variant b h g =
    let h' = rw (g, check_baseline) at h in
    let (given, rest) = >>-eq-ok (all_given required_capabilities b.capabilities) _ _ h' in
    (all_given-All _ _ given, (==_iff _ _).0 (require-eq-ok _ _ rest))

check_endurance_lem :
    (name variant : Text) (b : Boot)
    → check_endurance name variant b ≡ ok tt
    → (text_eq b.mode (codes "payload") && is_buildroot variant) ≡ true
    → (b.child_processes ≡ some 100)
      × (slept : ℕ) × (b.sleep_wall ≡ some slept)
      × (89000000 ≤ slept)
unfolding check_endurance
check_endurance_lem name variant b h g =
    let h' = rw (g, check_endurance) at h in
    let (done, e, rest) = >>=-eq-ok (endured b) _ h' in
    endured-eq-true b (rw (require-eq-ok done _ rest) at e)

commands_of-eq-ok : (b : Boot) {cs : List Timed} → commands_of b ≡ ok cs → b.commands ≡ some cs
unfolding commands_of
commands_of-eq-ok b h = elim (Option-cases b.commands) [
  | inl e ↦ absurd (err≢ok (rw (e, commands_of) at h))
  | inr (cs, e) ↦ ground arith
]

check_sleep_lem :
    (name variant : Text) (b : Boot)
    → check_sleep name variant b ≡ ok tt
    → (text_eq b.mode (codes "payload") && is_tiny variant) ≡ true
    → (cs : List Timed) × (b.commands ≡ some cs) × (any is_slept cs ≡ true)
unfolding check_sleep
check_sleep_lem name variant b h g =
    let h' = rw (g, check_sleep) at h in
    let (cs, e, rest) = >>=-eq-ok (commands_of b) _ h' in
    (cs, commands_of-eq-ok b e, require-eq-ok _ _ rest)

module _ (out : Outside) (o : Options) where
  -- A boot that passed and whose log is there, unchanged, and names the version of the kernel; with
  -- the checks that its mode and its variant call for.
  pub record IsPassed (files : Files) (log_dir name variant : Text) (m : Manifest) (b : Boot)
      : Type 0 where
    pub pass : b.pass ≡ true
    pub distro :
        text_in variant distros ≡ true → All (λ k. is_checked k b.checks ≡ true) (checks_of b.mode)
    pub fetched :
        (text_eq b.mode (codes "split") && is_tiny variant) ≡ true
        → length b.network_exec_commands ≡ 3
    pub log : Text
    pub logged : lookup (log_path out o log_dir name b.mode) files ≡ some log
    pub unchanged : out.sha log ≡ b.uart_sha256
    pub version :
        contains (codes "Linux version " ++ (m.kernel_version ++ codes " ")) (out.decode_log log)
        ≡ true
    pub baseline :
        (is_full b.mode && is_buildroot variant) ≡ true
        → All (λ k. is_given k b.capabilities ≡ true) required_capabilities
          × (length b.network_exec_commands ≡ 4)
    pub endurance :
        (text_eq b.mode (codes "payload") && is_buildroot variant) ≡ true
        → (b.child_processes ≡ some 100)
          × (slept : ℕ) × (b.sleep_wall ≡ some slept)
          × (89000000 ≤ slept)
    pub sleep :
        (text_eq b.mode (codes "payload") && is_tiny variant) ≡ true
        → (cs : List Timed) × (b.commands ≡ some cs) × (any is_slept cs ≡ true)

  check_log_lem :
      (files : Files) (log_dir name : Text) (m : Manifest) (b : Boot)
      → check_log out o files log_dir name m b ≡ ok tt
      → (log : Text) × (lookup (log_path out o log_dir name b.mode) files ≡ some log)
        × (out.sha log ≡ b.uart_sha256)
        × (contains (codes "Linux version " ++ (m.kernel_version ++ codes " ")) (out.decode_log log)
            ≡ true)
  unfolding check_log
  check_log_lem files log_dir name m b h =
      let (log, e, h₁) = >>=-eq-ok (read (log_path out o log_dir name b.mode) files) _ h in
      let (same, h₂) = >>-eq-ok (text_eq (out.sha log) b.uart_sha256) _ _ h₁ in
      (log, read-eq-ok _ files e, (text_eq_iff _ _).0 same, require-eq-ok _ _ h₂)

  pub check_boot-IsPassed :
      (files : Files) (log_dir name variant : Text) (m : Manifest) (b : Boot)
      → check_boot out o files log_dir name variant m b ≡ ok tt
      → IsPassed files log_dir name variant m b
  unfolding check_boot
  check_boot-IsPassed files log_dir name variant m b h =
      let (pass, h₁) = >>-eq-ok b.pass _ _ h in
      let (distro, h₂) =
        >>-eq-ok (not (text_in variant distros) || all_set (checks_of b.mode) b.checks) _ _ h₁ in
      let (fetched, h₃) =
        >>-eq-ok
          (not (text_eq b.mode (codes "split") && is_tiny variant)
            || length b.network_exec_commands == 3)
          _ _ h₂ in
      let (u, logged, h₄) = >>=-eq-ok (check_log out o files log_dir name m b) _ h₃ in
      let (u', baseline, h₅) = >>=-eq-ok (check_baseline name variant b) _ h₄ in
      let (u'', endurance, sleep) = >>=-eq-ok (check_endurance name variant b) _ h₅ in
      let (log, found, unchanged, version) = check_log_lem files log_dir name m b logged in
      record {
        pass = pass;
        distro = λ d. all_set-All _ _ (unless _ _ distro d);
        fetched = λ s. (==_iff _ _).0 (unless _ _ fetched s);
        log = log;
        logged = found;
        unchanged = unchanged;
        version = version;
        baseline = check_baseline_lem name variant b baseline;
        endurance = check_endurance_lem name variant b endurance;
        sleep = check_sleep_lem name variant b sleep;
      }

  pub check_boots-IsPassed :
      (files : Files) (log_dir name variant : Text) (m : Manifest) (bs : List Boot)
      → check_boots out o files log_dir name variant m bs ≡ ok tt
      → All (IsPassed files log_dir name variant m) bs
  unfolding check_boots
  check_boots-IsPassed files log_dir name variant m [] h = tt
  check_boots-IsPassed files log_dir name variant m (b ∷ bs) h =
      let (u, first, rest) = >>=-eq-ok (check_boot out o files log_dir name variant m b) _ h in
      (
        check_boot-IsPassed files log_dir name variant m b first,
        check_boots-IsPassed files log_dir name variant m bs rest,
      )
