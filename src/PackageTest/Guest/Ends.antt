-- ===== src/PackageTest/Guest/Ends.antt =====
-- Every wait of a session ends.
use linux_build.Base.{
  ◌+◌, ◌∷◌, [], List, Bool, true, not, ◌&&◌, Option, none, some, Text, Result, ok, err, ◌≡◌, refl,
  ap, Bool-cases, Option-cases, Result-cases, inl, inr, ℕ, zero, suc, ◌≤◌, ◌<◌, ltb, ltb→lt,
  text_in, arith, Fault, timed_out, codes,
}
use linux_build.Base.Bytes.{Bytes}
use linux_build.Base.State.{Action, ◌>>=◌}
use linux_build.PackageTest.Guest.{
  Machine, Guest, clean, noted, bad_lines, failures, has_any, has_event, guest_text, monotonic,
  note, see_lines, see_all, joined, with_partial, split_lines, received, check_failures, absorb,
  poll, take_output, count_read, read, Waited, stalled, ended, wait_until, waited, wait,
}

module _ (m : Machine) where
  note-le : (l : Text) (g : Guest) → g.readings ≤ (note m l g).readings
  unfolding note
  note-le l g = elim (Bool-cases (text_in l noted && not (has_event l g.events))) [
    | inl e ↦ rw e (omega arith)
    | inr e ↦ rw e (omega arith)
  ]

  see_lines-le :
      (ls : List Text) (rest : Text) (g : Guest) → g.readings ≤ (see_lines m ls rest g).0.readings
  unfolding see_lines
  see_lines-le [] rest g = omega arith
  see_lines-le (l ∷ ls) rest g =
      let g₁ = with_partial g (joined ls rest) in
      elim (Bool-cases (text_in (clean l) bad_lines)) [
        | inl e ↦ rw (e, see_lines) (note-le (clean l) g₁)
        | inr e ↦
            rw (e, see_lines)
              (omega (arith, note-le (clean l) g₁, see_lines-le ls rest (note m (clean l) g₁)))
      ]

  check_failures-same : (g : Guest) → (check_failures m g).0 ≡ g
  unfolding check_failures
  check_failures-same g = elim (Bool-cases (has_any failures (guest_text m g))) [
    | inl e ↦ rw (e, check_failures) refl
    | inr e ↦ rw (e, check_failures) refl
  ]

  poll-same : (g : Guest) → (poll m g).0 ≡ g
  unfolding poll
  poll-same g = elim (Option-cases (m.exit g.sent g.reads)) [
    | inl e ↦ rw (e, poll) refl
    | inr (code, e) ↦ rw (e, poll) refl
  ]

  bind-le :
      (act : Action Guest (Unit {0})) (next : Unit {0} → Action Guest (Unit {0})) (g : Guest)
      → g.readings ≤ (act g).0.readings
      → ((a : Unit {0}) (t : Guest) → t.readings ≤ (next a t).0.readings)
      → g.readings ≤ ((act >>= next) g).0.readings
  bind-le act next g h k = go (act g) h
    where
      go :
          (p : Guest × Result (Unit {0}))
          → g.readings ≤ p.0.readings
          → g.readings
            ≤ (◌>>=◌ {St = Guest} {A = Unit {0}} {B = Unit {0}} (λ t. p) next g).0.readings
      go (t, ok u) l = omega (arith, l, k u t)
      go (t, err x) l = l

  take_output-le : (o : Option Bytes) (g : Guest) → g.readings ≤ (take_output m o g).0.readings
  unfolding take_output absorb see_all
  take_output-le none g = omega arith
  take_output-le (some bytes) g =
      let r = received m bytes g in
      let parts = split_lines r.partial in
      let seen : r.readings ≤ (see_all m r).0.readings = see_lines-le parts.0 parts.1 r in
      bind-le (see_all m) (λ x. check_failures m) r seen
        (λ a t. rw (check_failures-same t) (omega arith))

  read-le : (g : Guest) → g.readings ≤ (read m g).0.readings
  unfolding read
  read-le g =
      bind-le (take_output m (m.output g.sent g.reads)) (λ x. poll m) (count_read m g)
        (take_output-le (m.output g.sent g.reads) (count_read m g))
        (λ a t. rw (poll-same t) (omega arith))

  -- The clock does not go back, and time passes.
  pub record IsClock : Type 0 where
    pub rises : (i j : ℕ) → i ≤ j → m.clock i ≤ m.clock j
    pub passes : (t : ℕ) → t ≤ m.clock (m.passes t)

  -- How a wait up to a time may end: the state is reached, or the time has passed, or a read has failed.
  pub data Ends (reached : Guest → Bool) (end : ℕ) (g : Guest) (r : Result (Unit {0}))
      : Type 0 where
    met : r ≡ ok tt → reached g ≡ true → Ends reached end g r
    late :
        (n : ℕ)
        → end ≤ m.clock n
        → n < g.readings
        → r ≡ err (timed_out (codes "guest did not reach expected state"))
        → Ends reached end g r
    broken : (t : Guest) (x : Fault) → read m t ≡ (g, err x) → r ≡ err x → Ends reached end g r

  -- The wait is over, and how.
  abbrev pub IsOver : (Guest → Bool) → ℕ → Waited → Type 0
  IsOver reached end stalled = ⊥
  IsOver reached end (ended g r) = Ends reached end g r

  before : IsClock → (end n : ℕ) → m.clock n < end → n < m.passes end
  before is end n h = elim (Bool-cases (ltb n (m.passes end))) [
    | inl l ↦ ltb→lt _ _ l
    | inr l ↦
        let later : m.passes end ≤ n = ground arith in
        absurd (omega (arith, h, is.passes end, is.rises (m.passes end) n later))
  ]

  wait_until-IsOver :
      IsClock
      → (reached : Guest → Bool) (end fuel : ℕ) (g : Guest) → m.passes end < g.readings + fuel
      → 0 < fuel
      → IsOver reached end (wait_until m reached end fuel g)
  unfolding wait_until
  wait_until-IsOver is reached end zero g h p = absurd (omega (arith, p))
  wait_until-IsOver is reached end (suc fuel) g h p =
      let g₁ = (monotonic m g).0 in
      elim (Bool-cases (ltb (m.clock g.readings) end)) [
        | inr e ↦ rw (e, wait_until) (late g.readings (ground arith) (omega arith) refl)
        | inl e ↦ elim (Bool-cases (reached g₁)) [
          | inl q ↦ rw (e, q, wait_until) (met refl q)
          | inr q ↦ elim (Result-cases (read m g₁).1) [
            | inr (x, b) ↦
                rw (e, q, b, wait_until) (broken g₁ x (ap (λ r. ((read m g₁).0, r)) b) refl)
            | inl (u, b) ↦
                let n = before is end g.readings (ltb→lt _ _ e) in
                rw (e, q, b, wait_until)
                  (wait_until-IsOver is reached end fuel (read m g₁).0
                    (omega (arith, h, n, read-le g₁)) (omega (arith, h, n)))
          ]
        ]
      ]

  waited-Ends :
      (reached : Guest → Bool) (end : ℕ) (g : Guest) (w : Waited)
      → IsOver reached end w
      → Ends reached end (waited m g w).0 (waited m g w).1
  unfolding waited
  waited-Ends reached end g stalled h = absurd h
  waited-Ends reached end g (ended g' r) h = h

  -- With a clock that does not go back and time that passes, a wait ends: in a state that was waited for, with
  -- success, or with an error, which is the time-out, not before that time has passed, or that of a read.
  pub wait-Ends :
      IsClock
      → (reached : Guest → Bool) (timeout : ℕ) (g : Guest)
      → Ends reached
          (m.clock g.readings + timeout)
          (wait m reached timeout g).0
          (wait m reached timeout g).1
  unfolding wait
  wait-Ends is reached timeout g =
      let end = m.clock g.readings + timeout in
      waited-Ends reached end g _ (
        wait_until-IsOver is reached end (suc (m.passes end)) (monotonic m g).0 (omega arith)
          (omega arith))
