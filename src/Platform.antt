-- ===== src/Platform.antt =====
-- packages/worker-manager/src/platform.ts: the detection of SO_REUSEPORT. The two servers and the
-- timer of the probe act in its events.
pub mod Probe
pub mod Cached
use Prim.Native.Char.{Char, code}
use Prim.Native.String.{String, [] as end, ◌∷◌ as ◌⊳◌}
use clusterkit.Common.{
  ℕ, ◌+◌, ◌-◌, ◌*◌, Bool, true, false, not, ◌&&◌, ◌||◌, Option, none, some, List, [], ◌∷◌,
  if◌then◌else◌, ltb, leb, ◌==◌,
}
use clusterkit.Sizing.{is_digit}

pub data System : Type 0 where
  win32 darwin linux other : System

-- `/^(\d+)\.(\d+)/`: the digits from here on, and what follows them.
unfoldable pub leading_number : ℕ → String → ℕ × String
leading_number n end = (n, end)
leading_number n (c ⊳ s) =
    let more = leading_number (10 * n + (code c - 48)) s in if is_digit c then more else (n, c ⊳ s)

unfoldable pub starts_with_digit : String → Bool
starts_with_digit end = false
starts_with_digit (c ⊳ s) = is_digit c

unfoldable pub minor_version : ℕ → String → Option (ℕ × ℕ)
unfolding leading_number starts_with_digit
minor_version major end = none
minor_version major (c ⊳ s) =
    if (code c == 46) && starts_with_digit s then some (major, (leading_number 0 s).0) else none

unfoldable pub parse_kernel_version : String → Option (ℕ × ℕ)
unfolding minor_version leading_number starts_with_digit
parse_kernel_version s =
    if starts_with_digit s
    then minor_version (leading_number 0 s).0 (leading_number 0 s).1
    else none

-- Kernel 3.9 or later, or a version that cannot be read.
unfoldable pub may_support : Option (ℕ × ℕ) → Bool
may_support none = true
may_support (some (major, minor)) = ltb 3 major || ((major == 3) && leb 9 minor)

-- False where the answer is no without a probe.
unfoldable pub wants_probe : System → String → Bool
unfolding may_support parse_kernel_version
wants_probe win32 release = false
wants_probe darwin release = false
wants_probe linux release = may_support (parse_kernel_version release)
wants_probe other release = true

-- How the probe's promise settles.
pub data Outcome : Type 0 where
  resolved : Bool → Outcome
  timed_out : Outcome  -- ReusePortProbeTimeoutError
  failed : Outcome  -- any other error

-- `cachedReusePortSupport` and whether `detectionPromise` is set.
pub record Detection : Type 0 where
  pub cached : Option Bool
  pub detecting : Bool

-- What a call gets.
pub data Answer : Type 0 where
  answers : Bool → Answer
  joins begins : Answer

-- A call of `detectReusePortSupport`. Where no probe is wanted the body runs to its end before
-- `detectionPromise` is assigned, so that the promise stays set; the cache answers from then on.
unfoldable pub detect_by : System → String → Option Bool → Bool → Detection → Answer × Detection
unfolding wants_probe
detect_by system release (some b) detecting d = (answers b, d)
detect_by system release none true d = (joins, d)
detect_by system release none false d =
    if wants_probe system release
    then (begins, record d { detecting = true })
    else (answers false, record { cached = some false; detecting = true })

unfoldable pub detect_reuse_port_support : System → String → Detection → Answer × Detection
unfolding detect_by
detect_reuse_port_support system release d = detect_by system release d.cached d.detecting d

-- The probe settles; an inconclusive one leaves the cache as it is.
unfoldable pub probed : Outcome → Detection → Bool × Detection
probed (resolved b) d = (b, record { cached = some b; detecting = false })
probed timed_out d = (false, record d { detecting = false })
probed failed d = (false, record { cached = some false; detecting = false })

-- The probe of the process is running, or it settles.
pub data Event : Type 0 where
  called : Event
  settles : Outcome → Event

unfoldable pub step : System → String → Event → Detection → Detection
unfolding detect_reuse_port_support probed
step system release called d = (detect_reuse_port_support system release d).1
step system release (settles o) d = (probed o d).1

unfoldable pub run : System → String → List Event → Detection → Detection
unfolding step
run system release [] d = d
run system release (e ∷ es) d = run system release es (step system release e d)
