-- ===== src/Util.antt =====
-- src/util.c: the counter that its own lock guards, for threads that interleave in any order, and the
-- helpers on strings.
pub mod Atomic
pub mod Strings
pub mod Names
pub mod Throttler
mod Tests
use sizigy.Base.{
  ℕ, ◌+◌, ◌%◌, ◌^◌, ◌==◌, ◌≡◌, Option, none, some, List, [], ◌∷◌, ◌++◌, take, set, if◌then◌else◌,
}
use sizigy.Buffer.{strlen}

-- The functions on an `Atomic`, between the locking and the unlocking: what becomes of the value.
unfoldable pub increment_by : ℕ → ℕ → ℕ
increment_by by value = (value + by) % 2 ^ 64

unfoldable pub increment : ℕ → ℕ
unfolding increment_by
increment value = increment_by 1 value

unfoldable pub incr_read_atomic : ℕ → ℕ
incr_read_atomic value = (value + 1) % 2 ^ 64

unfoldable pub write_atomic : ℕ → ℕ → ℕ
write_atomic new value = new

unfoldable pub read_atomic : ℕ → ℕ
read_atomic value = value

pub data Call : Type 0 where
  adding : ℕ → Call
  counting counting_and_reading : Call
  writing : ℕ → Call
  reading : Call

unfoldable pub after : Call → ℕ → ℕ
unfolding increment_by increment incr_read_atomic write_atomic read_atomic
after (adding by) value = increment_by by value
after counting value = increment value
after counting_and_reading value = incr_read_atomic value
after (writing new) value = write_atomic new value
after reading value = read_atomic value

-- Where a thread is in a call: outside, behind the locking, with the value it has read, or with its result
-- before the unlocking.
pub data Phase : Type 0 where
  idle : Phase
  inside : Call → Phase
  fetched : Call → ℕ → Phase
  answered : Call → ℕ → Phase

-- The counter, its lock with the thread that holds it, the threads, and the calls that have had their
-- effect, newest first.
pub record System : Type 0 where
  pub value : ℕ
  pub lock : Option ℕ
  pub phase : ℕ → Phase
  pub log : List Call

unfoldable pub update : (ℕ → Phase) → ℕ → Phase → ℕ → Phase
update phases t p u = if t == u then p else phases u

-- `c->value` is stored by every call but read_atomic.
unfoldable pub stored : Call → ℕ → ℕ → ℕ
unfolding after
stored (adding by) value now = after (adding by) value
stored counting value now = after counting value
stored counting_and_reading value now = after counting_and_reading value
stored (writing new) value now = after (writing new) value
stored reading value now = now

-- One thread locks, reads the value, stores a value, or unlocks.
pub data Step (s : System) : System → Type 0 where
  locks :
      (t : ℕ) (call : Call)
      → s.lock ≡ none
      → s.phase t ≡ idle
      → Step s (record s { lock = some t; phase = update s.phase t (inside call) })
  fetches :
      (t : ℕ) (call : Call)
      → s.phase t ≡ inside call
      → Step s (record s { phase = update s.phase t (fetched call s.value) })
  stores :
      (t : ℕ) (call : Call) (value : ℕ)
      → s.phase t ≡ fetched call value
      → Step s (record s {
        value = stored call value s.value;
        phase = update s.phase t (answered call (after call value));
        log = call ∷ s.log;
      })
  unlocks :
      (t : ℕ) (call : Call) (result : ℕ)
      → s.phase t ≡ answered call result
      → Step s (record s { lock = none; phase = update s.phase t idle })

-- init_atomic
unfoldable pub init_atomic : System
init_atomic = record { value = 0; lock = none; phase = λ t. idle; log = [] }

pub data Reach : System → Type 0 where
  start : Reach init_atomic
  later : {s s' : System} → Reach s → Step s s' → Reach s'

-- The two `memcpy` of append_string; the second copies the terminator as well.
unfoldable pub append_string : List ℕ → List ℕ → List ℕ
append_string s1 s2 = take (strlen s1) s1 ++ take (strlen s2 + 1) s2

-- `strcspn(str, "\n")`
unfoldable pub strcspn_newline : List ℕ → ℕ
strcspn_newline [] = 0
strcspn_newline (x ∷ xs) = if x == 0 then 0 else (if x == 10 then 0 else strcspn_newline xs + 1)

unfoldable pub remove_newline : List ℕ → List ℕ
unfolding strcspn_newline
remove_newline str = set str (strcspn_newline str) 0
