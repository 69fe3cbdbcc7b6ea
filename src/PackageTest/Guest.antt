-- ===== src/PackageTest/Guest.antt =====
-- `clean` and the class `Guest` of scripts/test-packages.py: a session with a virtual machine, as
-- actions on what has been received. The machine, the clock and the decoding are given.
pub mod Lines
pub mod Faithful
pub mod Ends
use linux_build.Base.{
  ℕ, zero, suc, ◌+◌, Bool, true, false, not, ◌&&◌, ◌||◌, List, [], ◌∷◌, ◌++◌, Option, none, some,
  leb, ltb, ◌==◌, if◌then◌else◌, drop, length, Text, codes, newline, text_eq, text_in, Result, ok,
  err, runtime_error, timed_out, ℤ, any,
}
use linux_build.Base.Bytes.{Bytes}
use linux_build.Base.Dict.{Dict, lookup, insert}
use linux_build.Base.State.{Action, ◌>>=◌, ◌>>◌, give, lift}
use linux_build.Toml.{int_text}
use linux_build.Gate.Boots.{contains}

longer : Option ℕ → Option ℕ
longer none = none
longer (some n) = some (suc n)

-- The length of a match of `[0-?]*[ -/]*[@-~]`; the flag says that the first class is left.
unfoldable pub escape_rest : Bool → Text → Option ℕ
unfolding longer
escape_rest late [] = none
escape_rest late (c ∷ s) =
    let params = longer (escape_rest false s) in
    let intermediates = longer (escape_rest true s) in
    if leb b'0' c && leb c b'?' && not late
    then params
    else if leb 32 c && leb c b'/'
    then intermediates
    else if leb b'@' c && leb c b'~'
    then some 1
    else none

-- The length of what a match has behind its first character.
unfoldable pub escape_length : ℕ → Text → Option ℕ
unfolding longer
escape_length c [] = none
escape_length c (d ∷ s) = if c == 27 && d == b'[' then longer (escape_rest false s) else none

-- `re.sub(escape, '', text).replace('\r', '')`, where the first `skip` characters belong to a match.
unfoldable pub clean_from : ℕ → Text → Text
clean_from skip [] = []
clean_from (suc skip) (c ∷ s) = clean_from skip s
clean_from zero (c ∷ s) = elim (escape_length c s) [
  | some n ↦ clean_from n s
  | none ↦ let rest = clean_from 0 s in if c == 13 then rest else c ∷ rest
]

abbrev pub clean : Text → Text
clean text = clean_from 0 text

-- `FAILURES`
abbrev pub failures : List Text
failures =
    codes "Kernel panic"
    ∷ codes "Oops:"
    ∷ codes "Unable to handle kernel"
    ∷ codes "BUG:"
    ∷ codes "No working init found"
    ∷ codes "Attempted to kill init"
    ∷ codes "rcu: INFO:"
    ∷ []

-- `BR_MARKERS`
abbrev pub br_markers : List Text
br_markers =
    codes "RAPT_ACCEPT_BEGIN"
    ∷ codes "RAPT_CHILD_COUNT=100"
    ∷ codes "RAPT_CHILD_PASS"
    ∷ codes "RAPT_SLEEP_BEGIN"
    ∷ codes "RAPT_SLEEP_PASS"
    ∷ codes "RAPT_ACCEPT_END"
    ∷ []

-- The lines whose first arrival is noted, and the lines that end the session.
abbrev pub noted : List Text
noted = br_markers ++ (codes "RAPT_BASELINE_PASS" ∷ [])

abbrev pub bad_lines : List Text
bad_lines = codes "RAPT_CHILD_FAIL" ∷ codes "RAPT_SLEEP_FAIL" ∷ codes "RAPT_BASELINE_FAIL" ∷ []

-- The complete lines of a text, and what comes behind the last newline.
unfoldable pub add_char : Bool → ℕ → List Text × Text → List Text × Text
add_char true c (ls, rest) = ([] ∷ ls, rest)
add_char false c ([], rest) = ([], c ∷ rest)
add_char false c (l ∷ ls, rest) = ((c ∷ l) ∷ ls, rest)

unfoldable pub split_lines : Text → List Text × Text
split_lines [] = ([], [])
split_lines (c ∷ s) = add_char (c == newline) c (split_lines s)

-- Lines with their newlines, and a rest.
unfoldable pub joined : List Text → Text → Text
joined [] rest = rest
joined (l ∷ ls) rest = l ++ (newline ∷ joined ls rest)

-- What is sent so far and the number of reads decide what the machine does next: `output` is what a
-- read receives, if anything, and `exit` the code of a machine that has stopped.
-- By the reading `passes t` of the clock, `t` has passed. Times are whole microseconds.
pub record Machine : Type 0 where
  pub output : List Text → ℕ → Option Bytes
  pub exit : List Text → ℕ → Option ℤ
  pub clock : ℕ → ℕ
  pub decode : Bytes → Text
  pub passes : ℕ → ℕ

-- `raw` is what `log` has too; `reads` and `readings` count the reads and the readings of the clock.
pub record Guest : Type 0 where
  pub raw : Bytes
  pub log : Bytes
  pub partial : Text
  pub events : Dict ℕ
  pub sent : List Text
  pub reads : ℕ
  pub readings : ℕ

-- Whether one of the parts is in the text.
unfoldable pub has_any : List Text → Text → Bool
has_any [] text = false
has_any (part ∷ parts) text = contains part text || has_any parts text

abbrev pub is_some {ℓ} : {A : Type ℓ} → Option A → Bool
is_some none = false
is_some (some a) = true

abbrev pub has_event : Text → Dict ℕ → Bool
has_event line events = is_some (lookup line events)

abbrev pub with_partial : Guest → Text → Guest
with_partial g text = record {
  raw = g.raw;
  log = g.log;
  partial = text;
  events = g.events;
  sent = g.sent;
  reads = g.reads;
  readings = g.readings;
}

-- How the loop of `wait` ends; `stalled` is no end, but fuel that ran out.
pub data Waited : Type 0 where
  stalled : Waited
  ended : Guest → Result (Unit {0}) → Waited

-- A session whose machine has just been started.
abbrev pub new_guest : Guest
new_guest = record {
  raw = [];
  log = [];
  partial = [];
  events = [];
  sent = [];
  reads = 0;
  readings = 1;
}

module _ (m : Machine) where
  abbrev pub guest_text : Guest → Text
  guest_text g = clean (m.decode g.raw)

  -- `clean(guest.raw[offset:].decode(errors='replace'))`
  abbrev pub text_from : ℕ → Guest → Text
  text_from offset g = clean (m.decode (drop offset g.raw))

  -- `time.monotonic()`
  abbrev pub monotonic : Action Guest ℕ
  monotonic g = (
    record {
      raw = g.raw;
      log = g.log;
      partial = g.partial;
      events = g.events;
      sent = g.sent;
      reads = g.reads;
      readings = suc g.readings;
    },
    ok (m.clock g.readings),
  )

  -- The first arrival of a line is noted.
  unfoldable pub note : Text → Guest → Guest
  note line g =
      if text_in line noted && not (has_event line g.events)
      then record {
        raw = g.raw;
        log = g.log;
        partial = g.partial;
        events = insert line (m.clock g.readings) g.events;
        sent = g.sent;
        reads = g.reads;
        readings = suc g.readings;
      }
      else g

  -- The lines in turn, each cleaned; `rest` stays behind.
  unfoldable pub see_lines : List Text → Text → Action Guest (Unit {0})
  see_lines [] rest g = (with_partial g rest, ok tt)
  see_lines (l ∷ ls) rest g =
      let g' = note (clean l) (with_partial g (joined ls rest)) in
      let more = see_lines ls rest g' in
      elim (text_in (clean l) bad_lines) [
        | true ↦ (g', err (runtime_error (clean l)))
        | false ↦ more
      ]

  abbrev pub received : Bytes → Guest → Guest
  received bytes g = record {
    raw = g.raw ++ bytes;
    log = g.log ++ bytes;
    partial = g.partial ++ m.decode bytes;
    events = g.events;
    sent = g.sent;
    reads = g.reads;
    readings = g.readings;
  }

  unfoldable pub see_all : Action Guest (Unit {0})
  see_all g = let parts = split_lines g.partial in see_lines parts.0 parts.1 g

  unfoldable pub check_failures : Action Guest (Unit {0})
  check_failures g = elim (has_any failures (guest_text g)) [
    | true ↦ (g, err (runtime_error (codes "kernel failure marker in guest log")))
    | false ↦ (g, ok tt)
  ]

  -- What is done with the bytes of a read.
  unfoldable pub absorb : Bytes → Action Guest (Unit {0})
  absorb bytes g = (see_all >> check_failures) (received bytes g)

  -- The machine has stopped, or the next read may come.
  unfoldable pub poll : Action Guest (Unit {0})
  poll g = elim (m.exit g.sent g.reads) [
    | some code ↦ (g, err (runtime_error (codes "QEMU exited with " ++ int_text code)))
    | none ↦ (g, ok tt)
  ]

  -- The output of this read, if there is some.
  unfoldable pub take_output : Option Bytes → Action Guest (Unit {0})
  take_output none g = (g, ok tt)
  take_output (some bytes) g = absorb bytes g

  abbrev pub count_read : Guest → Guest
  count_read g = record {
    raw = g.raw;
    log = g.log;
    partial = g.partial;
    events = g.events;
    sent = g.sent;
    reads = suc g.reads;
    readings = g.readings;
  }

  unfoldable pub read : Action Guest (Unit {0})
  read g = (take_output (m.output g.sent g.reads) >> poll) (count_read g)

  unfoldable pub send : Text → Action Guest (Unit {0})
  send line g = (
    record {
      raw = g.raw;
      log = g.log;
      partial = g.partial;
      events = g.events;
      sent = g.sent ++ (line ∷ []);
      reads = g.reads;
      readings = g.readings;
    },
    ok tt,
  )

  unfoldable pub wait_until : (Guest → Bool) → ℕ → ℕ → Guest → Waited
  wait_until reached end zero g = stalled
  wait_until reached end (suc fuel) g =
      let g' = (monotonic g).0 in
      let after = read g' in
      let more = wait_until reached end fuel after.0 in
      elim (ltb (m.clock g.readings) end) [
        | false ↦ ended g' (err (timed_out (codes "guest did not reach expected state")))
        | true ↦ elim (reached g') [
          | true ↦ ended g' (ok tt)
          | false ↦ elim after.1 [ ok u ↦ more | err fault ↦ ended after.0 (err fault) ]
        ]
      ]

  -- How the waiting ended; by `wait-Ends` it always does.
  unfoldable pub waited : Guest → Waited → Guest × Result (Unit {0})
  waited g stalled = (g, err (timed_out []))
  waited g (ended g' r) = (g', r)

  unfoldable pub wait : (Guest → Bool) → ℕ → Action Guest (Unit {0})
  wait reached timeout g =
      let end = m.clock g.readings + timeout in
      let g' = (monotonic g).0 in waited g (wait_until reached end (suc (m.passes end)) g')
