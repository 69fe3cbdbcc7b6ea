-- ===== src/PackageTest/Boot/Demands.antt =====
-- A boot that scripts/test-packages.py passes is one that scripts/check-release.py accepts.
use linux_build.Base.{
  max, ℕ, suc, ◌-◌, Bool, true, false, ◌||◌, List, [], ◌∷◌, ◌++◌, Option, none, some, leb,
  if◌then◌else◌, any, length, Text, codes, newline, text_eq, &&_iff, Result, ok, Bool-cases, inl,
  inr, ◌≡◌, refl, sym, ap, ◌∙◌, arith,
}
use linux_build.Base.State.{◌>>=◌, ◌>>◌, give, lift, bind-eq-ok, give-eq-ok, lift-eq-ok}
use linux_build.Base.Dict.{Dict}
use linux_build.Toml.{Value}
use linux_build.Gate.Records.{Timed}
use linux_build.Gate.Boots.{is_slept}
use linux_build.Release.Status.{ends_with}
use linux_build.PackageTest.Guest.{has_event, br_markers, Machine, Guest, wait, send, monotonic}
use linux_build.PackageTest.Commands.{groups, network_commands, tiny_checks, br_command}
use linux_build.PackageTest.Boot.{
  Exercise, capabilities_found, acceptance, tiny_result, network_command, run_network, tiny_command,
  run_tiny, exchange, run_groups, buildroot_capabilities, accept, tiny_network_and_exec,
  exercise_full, exercise_buildroot, exercise_tiny, exercise_split, tiny_prompt, at_prompt,
  events_now, times_of, slept,
}

tiny_result-eq-ok :
    (command expected output : Text) (elapsed : ℕ) {t : Timed}
    → tiny_result command expected output elapsed ≡ ok t
    → (t.command ≡ command) × (text_eq command (codes "sleep 2") ≡ true → leb 1800000 t.wall ≡ true)
unfolding tiny_result
tiny_result-eq-ok command expected output elapsed h = ground arith

acceptance-eq-ok :
    (o : Option (List ℕ)) (time : ℕ) {s : ℕ} → acceptance o time ≡ ok s → leb 89000000 s ≡ true
unfolding acceptance
acceptance-eq-ok none time h = cc
acceptance-eq-ok (some times) time h = ground arith

or_true : (a b : Bool) → b ≡ true → (a || b) ≡ true
or_true a b h = ground arith

module _ (m : Machine) where
  length-run_network :
      (prompt : Text) (cs : List (Text × Text)) (g : Guest) {g' : Guest} {xs : List Text}
      → run_network m prompt cs g ≡ (g', ok xs)
      → length xs ≡ length cs
  unfolding run_network
  length-run_network prompt [] g h = ap length (sym (give-eq-ok h))
  length-run_network prompt (c ∷ cs) g h =
      let (t, command, first, rest) =
        bind-eq-ok (network_command m prompt c)
          (λ x. run_network m prompt cs >>= λ xs. give (x ∷ xs)) g h in
      let (u, xs, more, last) =
        bind-eq-ok (run_network m prompt cs) (λ xs. give (command ∷ xs)) t rest in
      ap length (sym (give-eq-ok last)) ∙ ap suc (length-run_network prompt cs t more)

  -- Whether the command is the one that has to take its time.
  abbrev is_sleep : Text × Text → Bool
  is_sleep c = text_eq c.0 (codes "sleep 2")

  tiny_command-eq-ok :
      (c : Text × Text) (g : Guest) {g' : Guest} {t : Timed}
      → tiny_command m c g ≡ (g', ok t)
      → is_sleep c ≡ true
      → is_slept t ≡ true
  unfolding tiny_command
  tiny_command-eq-ok (command, expected) g h e =
      let after = λ (start : ℕ) (output : Text).
        monotonic m >>= λ end. lift (tiny_result command expected output (end - start)) in
      let say = exchange m (command ++ (newline ∷ [])) (λ t. ends_with t tiny_prompt) 15000000 in
      let (g₁, start, h₁, k₁) = bind-eq-ok (monotonic m) (λ start. say >>= after start) g h in
      let (g₂, output, h₂, k₂) = bind-eq-ok say (after start) g₁ k₁ in
      let (g₃, end, h₃, k₃) =
        bind-eq-ok (monotonic m) (λ end. lift (tiny_result command expected output (end - start)))
          g₂ k₂ in
      let (is, waited) =
        tiny_result-eq-ok command expected output (end - start) (lift-eq-ok _ g₃ k₃).0 in
      (&&_iff _ _).1 (ap (λ x. text_eq x (codes "sleep 2")) is ∙ e, waited e)

  run_tiny-slept :
      (cs : List (Text × Text)) (g : Guest) {g' : Guest} {ts : List Timed}
      → run_tiny m cs g ≡ (g', ok ts)
      → any is_sleep cs ≡ true
      → any is_slept ts ≡ true
  unfolding run_tiny
  run_tiny-slept [] g h e = cc
  run_tiny-slept (c ∷ cs) g h e =
      let (t, timed, first, rest) =
        bind-eq-ok (tiny_command m c) (λ x. run_tiny m cs >>= λ xs. give (x ∷ xs)) g h in
      let (u, ts, more, last) = bind-eq-ok (run_tiny m cs) (λ xs. give (timed ∷ xs)) t rest in
      let own = tiny_command-eq-ok c g first in
      let others = run_tiny-slept cs t more in
      ap (any is_slept) (sym (give-eq-ok last)) ∙ either_slept c cs timed ts own others e
    where
      either_slept :
          (c : Text × Text) (cs : List (Text × Text)) (timed : Timed) (ts : List Timed)
          → (is_sleep c ≡ true → is_slept timed ≡ true)
          → (any is_sleep cs ≡ true → any is_slept ts ≡ true)
          → any is_sleep (c ∷ cs) ≡ true
          → any is_slept (timed ∷ ts) ≡ true
      either_slept c cs timed ts own others e = elim (Bool-cases (is_sleep c)) [
        | inl s ↦ rw (own s) refl
        | inr s ↦ (or_true (is_slept timed) (any is_slept ts) (others (rw s at e)))
      ]

  module _ (port : ℕ) (probe : Result (Unit {0})) where
    length-tiny_network_and_exec :
        (tiny : Bool) (g : Guest) {g' : Guest} {xs : List Text}
        → tiny_network_and_exec m port probe tiny g ≡ (g', ok xs)
        → length xs ≡ length (network_commands tiny port)
    unfolding tiny_network_and_exec
    length-tiny_network_and_exec tiny g h =
        let prompt : Text = if tiny then tiny_prompt else codes "# " in
        let (t, u, p, r) =
          bind-eq-ok (lift probe) (λ x. run_network m prompt (network_commands tiny port)) g h in
        length-run_network prompt (network_commands tiny port) t r

    -- What the checks of each mode leave in the result.
    pub split-eq-ok :
        (g : Guest) {g' : Guest} {e : Exercise}
        → exercise_split m port probe g ≡ (g', ok e)
        → length e.network ≡ 3
    unfolding exercise_split network_commands
    split-eq-ok g h =
        let (t, xs, n, k) =
          bind-eq-ok (tiny_network_and_exec m port probe true) (λ network. give (split_of network))
            g h in
        ap (λ e. length e.network) (sym (give-eq-ok k)) ∙ length-tiny_network_and_exec true g n
      where
        split_of : List Text → Exercise
        split_of network = record {
          network = network;
          capabilities = [];
          child_processes = none;
          sleep_wall = none;
          commands = none;
        }

    pub full-eq-ok :
        (g : Guest) {g' : Guest} {e : Exercise}
        → exercise_full m port probe g ≡ (g', ok e)
        → (length e.network ≡ 4) × (e.capabilities ≡ capabilities_found)
    unfolding exercise_full buildroot_capabilities network_commands
    full-eq-ok g h =
        let (t, c, n, k) =
          bind-eq-ok (run_groups m 0 groups >> give capabilities_found)
            (λ c. tiny_network_and_exec m port probe false >>= λ network. give (full_of c network))
            g h in
        let (t', u, n', k') =
          bind-eq-ok (run_groups m 0 groups) (λ u. give capabilities_found) g n in
        let (t'', xs, n'', k'') =
          bind-eq-ok (tiny_network_and_exec m port probe false)
            (λ network. give (full_of c network)) t k in
        (
          ap (λ e. length e.network) (sym (give-eq-ok k''))
              ∙ length-tiny_network_and_exec false t n'',
          ap (λ e. e.capabilities) (sym (give-eq-ok k'')) ∙ sym (give-eq-ok k'),
        )
      where
        full_of : Dict Value → List Text → Exercise
        full_of c network = record {
          network = network;
          capabilities = c;
          child_processes = none;
          sleep_wall = none;
          commands = none;
        }

    pub tiny-eq-ok :
        (g : Guest) {g' : Guest} {e : Exercise}
        → exercise_tiny m port probe g ≡ (g', ok e)
        → (ts : List Timed) × (e.commands ≡ some ts) × (any is_slept ts ≡ true)
    unfolding exercise_tiny text_eq
    tiny-eq-ok g h =
        let (t, ts, r, k) = bind-eq-ok (run_tiny m tiny_checks) (λ ts. give (tiny_of ts)) g h in
        (ts, ap (λ e. e.commands) (sym (give-eq-ok k)), run_tiny-slept tiny_checks g r refl)
      where
        tiny_of : List Timed → Exercise
        tiny_of ts = record {
          network = [];
          capabilities = [];
          child_processes = none;
          sleep_wall = none;
          commands = some ts;
        }

    accept-eq-ok :
        (timeout : ℕ) (g : Guest) {g' : Guest} {time : ℕ}
        → accept m timeout g ≡ (g', ok time)
        → leb 89000000 time ≡ true
    unfolding accept
    accept-eq-ok timeout g h =
        let reached = λ (g : Guest). has_event (codes "RAPT_ACCEPT_END") g.events in
        let decide = λ (events : Dict ℕ).
          lift {St = Guest} (acceptance (times_of br_markers events) (slept events)) in
        let look = wait m reached (max timeout 150000000) in
        let (t₁, u₁, h₁, k₁) =
          bind-eq-ok (send m br_command) (λ u. look >> (events_now m >>= decide)) g h in
        let (t₂, u₂, h₂, k₂) = bind-eq-ok look (λ u. events_now m >>= decide) t₁ k₁ in
        let (t₃, events, h₃, k₃) = bind-eq-ok (events_now m) decide t₂ k₂ in
        acceptance-eq-ok _ _ (lift-eq-ok _ t₃ k₃).0

    pub buildroot-eq-ok :
        (timeout : ℕ) (g : Guest) {g' : Guest} {e : Exercise}
        → exercise_buildroot m port probe timeout g ≡ (g', ok e)
        → (length e.network ≡ 4)
          × (e.capabilities ≡ capabilities_found)
          × (e.child_processes ≡ some 100)
          × (time : ℕ) × (e.sleep_wall ≡ some time)
          × (leb 89000000 time ≡ true)
    unfolding exercise_buildroot
    buildroot-eq-ok timeout g h =
        let login = exchange m (codes "root" ++ (newline ∷ [])) (at_prompt (codes "# ")) 30000000 in
        let finish = λ (full : Exercise) (time : ℕ). give {St = Guest} (accepted_of full time) in
        let after = λ (full : Exercise). accept m timeout >>= finish full in
        let (t₁, o, h₁, k₁) = bind-eq-ok login (λ o. exercise_full m port probe >>= after) g h in
        let (t₂, full, h₂, k₂) = bind-eq-ok (exercise_full m port probe) after t₁ k₁ in
        let (t₃, time, h₃, k₃) = bind-eq-ok (accept m timeout) (finish full) t₂ k₂ in
        let (network, capabilities) = full-eq-ok t₁ h₂ in
        let is = sym (give-eq-ok k₃) in
        (
          ap (λ e. length e.network) is ∙ network,
          ap (λ e. e.capabilities) is ∙ capabilities,
          ap (λ e. e.child_processes) is,
          time,
          ap (λ e. e.sleep_wall) is,
          accept-eq-ok timeout t₂ h₃,
        )
      where
        accepted_of : Exercise → ℕ → Exercise
        accepted_of full time = record {
          network = full.network;
          capabilities = full.capabilities;
          child_processes = some 100;
          sleep_wall = some time;
          commands = none;
        }
