-- ===== src/PackageTest/Guest/Faithful.antt =====
-- What a session has noted, whatever the parts in which its output came.
use linux_build.Base.{
  ◌++◌, Bool, true, false, not, ◌&&◌, ◌||◌, List, [], ◌∷◌, Option, none, some, Text, ok, ◌≡◌, refl,
  ap, sym, ◌∙◌, Bool-cases, inl, inr, ℕ, ◌≤◌, ◌<◌, All, All-append, any, map, text_in, text_eq,
  text_eq_iff, &&_iff, arith, Option-cases, starts_with,
}
use mathlib.Core.List.{map-append}
use linux_build.Base.Bytes.{Bytes}
use linux_build.Base.Dict.{Dict, lookup, insert, lookup-insert}
use linux_build.Base.State.{fault-gives_nothing, bind-eq-ok}
use linux_build.PackageTest.Guest.{
  Machine, Guest, clean, joined, with_partial, noted, bad_lines, failures, split_lines, has_any,
  has_event, guest_text, monotonic, note, see_lines, see_all, received, check_failures, new_guest,
  count_read, clean_from, absorb, poll, take_output, read, send,
}
use linux_build.Gate.Boots.{contains}
use linux_build.Base.Image.{find}
use linux_build.PackageTest.Guest.Lines.{onto, split_lines-append}

-- A line that is cleaned ends the session.
abbrev pub is_bad : Text → Bool
is_bad l = text_in (clean l) bad_lines

text_in-append : (s : Text) (a b : List Text) → text_in s (a ++ b) ≡ (text_in s a || text_in s b)
unfolding text_in
text_in-append s [] b = refl
text_in-append s (t ∷ a) b = ground (arith, text_in-append s a b)

any-append : (p : Text → Bool) (a b : List Text) → any p (a ++ b) ≡ (any p a || any p b)
any-append p [] b = refl
any-append p (t ∷ a) b = ground (arith, any-append p a b)

has_event-insert :
    (line l : Text) (time : ℕ) (d : Dict ℕ)
    → has_event line (insert l time d) ≡ (text_eq line l || has_event line d)
has_event-insert line l time d = elim (Bool-cases (text_eq line l)) [
  | inl e ↦ rw (lookup-insert l line time d, e) refl
  | inr e ↦ rw (lookup-insert l line time d, e) refl
]

-- A noted line that is seen again changes nothing.
noted_first : (e h n : Bool) → (e ≡ true → n ≡ true) → (e || h) ≡ (h || (n && e))
noted_first e h n f = ground arith

noted_again : (e h n : Bool) → (e ≡ true → (n && not h) ≡ false) → h ≡ (h || (n && e))
noted_again e h n f = ground arith

noted_both : (h n e t : Bool) → ((h || (n && e)) || (n && t)) ≡ (h || (n && (e || t)))
noted_both h n e t = ground arith

noted_each : (n a b : Bool) → ((n && a) || (n && b)) ≡ (n && (a || b))
noted_each n a b = ground arith

module _ (m : Machine) where
  -- What a step leaves alone.
  record IsQuiet (g g' : Guest) : Type 0 where
    raw : g'.raw ≡ g.raw
    log : g'.log ≡ g.log
    sent : g'.sent ≡ g.sent
    reads : g'.reads ≡ g.reads
    readings : g.readings ≤ g'.readings

  note-IsQuiet : (l : Text) (g : Guest) → IsQuiet g (note m l g)
  unfolding note
  note-IsQuiet l g = elim (Bool-cases (text_in l noted && not (has_event l g.events))) [
    | inl e ↦
        rw e (record { raw = refl; log = refl; sent = refl; reads = refl; readings = omega arith })
    | inr e ↦
        rw e (record { raw = refl; log = refl; sent = refl; reads = refl; readings = omega arith })
  ]

  has_event-note :
      (line l : Text) (g : Guest)
      → has_event line (note m l g).events
        ≡ (has_event line g.events || (text_in line noted && text_eq line l))
  unfolding note
  has_event-note line l g = elim (Bool-cases (text_in l noted && not (has_event l g.events))) [
    | inl e ↦
        rw (e, has_event-insert line l (m.clock g.readings) g.events)
          (noted_first _ _ _
            (λ q. ap (λ t. text_in t noted) ((text_eq_iff line l).0 q) ∙ ((&&_iff _ _).0 e).0))
    | inr e ↦ rw e (
        noted_again _ _ _ (λ q.
          ap (λ t. text_in t noted && not (has_event t g.events)) ((text_eq_iff line l).0 q) ∙ e))
  ]

  -- What has become of a session that saw lines and left a rest.
  record HasSeen (ls : List Text) (rest : Text) (g g' : Guest) : Type 0 where
    raw : g'.raw ≡ g.raw
    log : g'.log ≡ g.log
    sent : g'.sent ≡ g.sent
    reads : g'.reads ≡ g.reads
    readings : g.readings ≤ g'.readings
    partial : g'.partial ≡ rest
    good : any is_bad ls ≡ false
    events :
        (line : Text)
        → has_event line g'.events
          ≡ (has_event line g.events || (text_in line noted && text_in line (map clean ls)))

  see_lines-HasSeen :
      (ls : List Text) (rest : Text) (g : Guest) {g' : Guest}
      → see_lines m ls rest g ≡ (g', ok tt)
      → HasSeen ls rest g g'
  unfolding see_lines text_in
  see_lines-HasSeen [] rest g h = rw (ap (λ p. p.0) (sym h)) (record {
    raw = refl;
    log = refl;
    sent = refl;
    reads = refl;
    readings = omega arith;
    partial = refl;
    good = refl;
    events = λ line. ground arith;
  })
  see_lines-HasSeen (l ∷ ls) rest g h =
      let g₁ = with_partial g (joined ls rest) in
      elim (Bool-cases (text_in (clean l) bad_lines)) [
        | inl e ↦ absurd (fault-gives_nothing (rw (e, see_lines) at h))
        | inr e ↦
            let quiet = note-IsQuiet (clean l) g₁ in
            let more = see_lines-HasSeen ls rest (note m (clean l) g₁) (rw (e, see_lines) at h) in
            record {
              raw = more.raw ∙ quiet.raw;
              log = more.log ∙ quiet.log;
              sent = more.sent ∙ quiet.sent;
              reads = more.reads ∙ quiet.reads;
              readings = omega (arith, quiet.readings, more.readings);
              partial = more.partial;
              good = rw e more.good;
              events = λ line.
                  more.events line
                  ∙ ap (λ b. b || (text_in line noted && text_in line (map clean ls)))
                      (has_event-note line (clean l) g₁)
                  ∙ noted_both (has_event line g.events) (text_in line noted)
                      (text_eq line (clean l)) (text_in line (map clean ls));
            }
      ]

  -- The output is in ASCII, which is decoded as it is.
  pub record IsAscii : Type 0 where
    pub decodes : (bytes : Bytes) → All (λ c. c < 128) bytes → m.decode bytes ≡ bytes
    pub outputs :
        (sent : List Text) (n : ℕ) {bytes : Bytes}
        → m.output sent n ≡ some bytes
        → All (λ c. c < 128) bytes

  -- Nothing is lost in the log; the partial line and the events are those of the whole output: a line is noted
  -- exactly if it is asked for and stands, once cleaned, among the complete lines; and no complete line and no
  -- text is one that ends the session.
  pub record IsFaithful (g : Guest) : Type 0 where
    pub logged : g.log ≡ g.raw
    pub ascii : All (λ c. c < 128) g.raw
    pub partial : g.partial ≡ (split_lines g.raw).1
    pub events :
        (line : Text)
        → has_event line g.events
          ≡ (text_in line noted && text_in line (map clean (split_lines g.raw).0))
    pub good : any is_bad (split_lines g.raw).0 ≡ false
    pub sound : has_any failures (clean g.raw) ≡ false

  see_all-HasSeen :
      (g : Guest) {g' : Guest}
      → see_all m g ≡ (g', ok tt)
      → HasSeen (split_lines g.partial).0 (split_lines g.partial).1 g g'
  unfolding see_all
  see_all-HasSeen g h = see_lines-HasSeen _ _ g h

  check_failures-eq-ok :
      (g : Guest) {g' : Guest}
      → check_failures m g ≡ (g', ok tt)
      → (g' ≡ g) × (has_any failures (guest_text m g) ≡ false)
  unfolding check_failures
  check_failures-eq-ok g h = elim (Bool-cases (has_any failures (guest_text m g))) [
    | inl e ↦ absurd (fault-gives_nothing (rw (e, check_failures) at h))
    | inr e ↦ (ap (λ p. p.0) (sym (rw (e, check_failures) at h)), e)
  ]

  absorb-IsFaithful :
      IsAscii
      → (bytes : Bytes) (g : Guest) {g' : Guest} → All (λ c. c < 128) bytes
      → IsFaithful g
      → absorb m bytes g ≡ (g', ok tt)
      → IsFaithful g' × (g.readings ≤ g'.readings)
  unfolding absorb
  absorb-IsFaithful is bytes g {g'} a f h =
      let (t, u, s, c) = bind-eq-ok (see_all m) (λ x. check_failures m) (received m bytes g) h in
      let seen = see_all-HasSeen (received m bytes g) s in
      let (same, sound) = check_failures-eq-ok t c in
      let ls : List Text = (split_lines g.raw).0 in
      let arrived : List Text × Text = split_lines (received m bytes g).partial in
      let whole : split_lines t.raw ≡ onto ls arrived =
        ap split_lines seen.raw
        ∙ split_lines-append g.raw bytes
        ∙ ap (λ x. onto ls (split_lines x)) (rw (f.partial, is.decodes bytes a) refl) in
      let ascii : All (λ c. c < 128) t.raw =
        rw seen.raw (All-append (λ c. c < 128) g.raw bytes f.ascii a) in
      let faithful : IsFaithful t = record {
        logged = seen.log ∙ ap (λ x. x ++ bytes) f.logged ∙ sym seen.raw;
        ascii = ascii;
        partial = seen.partial ∙ ap (λ x. x.1) (sym whole);
        events = λ line.
            seen.events line
            ∙ ap (λ b. b || (text_in line noted && text_in line (map clean arrived.0)))
                (f.events line)
            ∙ noted_each (text_in line noted) _ _
            ∙ sym (
                ap (λ x. text_in line noted && text_in line (map clean x.0)) whole
                ∙ ap (λ x. text_in line noted && text_in line x) (map-append clean ls arrived.0)
                ∙ ap (λ b. text_in line noted && b)
                    (text_in-append line (map clean ls) (map clean arrived.0)));
        good =
            ap (λ x. any is_bad x.0) whole ∙ any-append is_bad ls arrived.0 ∙ rw f.good seen.good;
        sound = ap (λ x. has_any failures (clean x)) (sym (is.decodes t.raw ascii)) ∙ sound;
      } in
      rw same (faithful, seen.readings)

  -- The same but for the clock, the counts and what was sent.
  moved-IsFaithful :
      (g g' : Guest)
      → g'.raw ≡ g.raw
      → g'.log ≡ g.log
      → g'.partial ≡ g.partial
      → g'.events ≡ g.events
      → IsFaithful g
      → IsFaithful g'
  moved-IsFaithful g g' r l p e f = record {
    logged = l ∙ f.logged ∙ sym r;
    ascii = rw r f.ascii;
    partial = p ∙ f.partial ∙ ap (λ x. (split_lines x).1) (sym r);
    events = λ line. rw (e, r) (f.events line);
    good = rw r f.good;
    sound = rw r f.sound;
  }

  take_output-IsFaithful :
      IsAscii
      → (o : Option Bytes) (g : Guest) {g' : Guest}
      → ((bytes : Bytes) → o ≡ some bytes → All (λ c. c < 128) bytes)
      → IsFaithful g
      → take_output m o g ≡ (g', ok tt)
      → IsFaithful g' × (g.readings ≤ g'.readings)
  unfolding take_output
  take_output-IsFaithful is none g a f h = rw (ap (λ p. p.0) (sym h)) (f, omega arith)
  take_output-IsFaithful is (some bytes) g a f h = absorb-IsFaithful is bytes g (a bytes refl) f h

  poll-eq-ok : (g : Guest) {g' : Guest} → poll m g ≡ (g', ok tt) → g' ≡ g
  unfolding poll
  poll-eq-ok g h = elim (Option-cases (m.exit g.sent g.reads)) [
    | inl e ↦ ap (λ p. p.0) (sym (rw (e, poll) at h))
    | inr (code, e) ↦ absurd (fault-gives_nothing (rw (e, poll) at h))
  ]

  pub read-IsFaithful :
      IsAscii
      → (g : Guest) {g' : Guest} → IsFaithful g
      → read m g ≡ (g', ok tt)
      → IsFaithful g' × (g.readings ≤ g'.readings)
  unfolding read
  read-IsFaithful is g f h =
      let (t, u, o, p) =
        bind-eq-ok (take_output m (m.output g.sent g.reads)) (λ x. poll m) (count_read m g) h in
      let moved : IsFaithful (count_read m g) =
        moved-IsFaithful g (count_read m g) refl refl refl refl f in
      let after =
        take_output-IsFaithful is (m.output g.sent g.reads) (count_read m g)
          (λ bytes e. is.outputs g.sent g.reads e) moved o in
      rw (poll-eq-ok t p) after

  send-IsFaithful : (g : Guest) (line : Text) → IsFaithful g → IsFaithful (send m line g).0
  unfolding send
  send-IsFaithful g line f = moved-IsFaithful g (send m line g).0 refl refl refl refl f

  -- The sessions that the runner can have: it starts the machine, reads without an error, sends lines, and
  -- looks at the clock.
  pub data Session : Guest → Type 0 where
    started : Session new_guest
    seen : {g g' : Guest} → Session g → read m g ≡ (g', ok tt) → Session g'
    told : {g : Guest} (line : Text) → Session g → Session (send m line g).0
    timed : {g : Guest} → Session g → Session (monotonic m g).0

  new_guest-IsFaithful : IsFaithful new_guest
  unfolding split_lines has_any lookup text_in clean_from contains find starts_with
  new_guest-IsFaithful = record {
    logged = refl;
    ascii = tt;
    partial = refl;
    events = λ line. ground arith;
    good = refl;
    sound = refl;
  }

  -- In every session with a machine whose output is in ASCII, however the output was cut into reads: the log
  -- is what was received, the partial line is what stands behind the last newline, a line has an event exactly
  -- if it is asked for and stands, once cleaned, among the complete lines, no complete line reports a failed check,
  -- and the text has no failure marker of the kernel.
  pub Session-IsFaithful : IsAscii → {g : Guest} → Session g → IsFaithful g
  Session-IsFaithful is started = new_guest-IsFaithful
  Session-IsFaithful is (seen {g} {g'} s h) = (read-IsFaithful is g (Session-IsFaithful is s) h).0
  Session-IsFaithful is (told {g} line s) = send-IsFaithful g line (Session-IsFaithful is s)
  Session-IsFaithful is (timed {g} s) =
      moved-IsFaithful g (monotonic m g).0 refl refl refl refl (Session-IsFaithful is s)
