-- ===== src/Validation/Workers.antt =====
-- packages/worker-manager/src/validation.ts: the numbers of the workers' options.
use clusterkit.Common.{
  ◌≡◌, refl, true, false, not, ◌||◌, Option, none, some, ◌⊎◌, inl, inr, Bool-cases, arith,
}
use clusterkit.Config.{Count, auto, fixed, WorkersConfig}
use clusterkit.Validation.Numbers.{Num, whole, is_finite, lt}
use clusterkit.Validation.Record.{WorkersOptions}
use clusterkit.Validation.{
  if_given, default_to, infinity, is_zero, assert_range, check_count, check_max_age,
  validate_workers_options,
}
use clusterkit.Validation.Resolve.{resolved_count, resolve_workers}
use clusterkit.Validation.Checks.{
  AllPass, throw_if-false, IsWhole, positive-default, non_negative-default,
}

-- A count of workers, where it is given as a number.
abbrev pub IsValidCount : Count Num → Type 0
IsValidCount auto = Unit
IsValidCount (fixed n) = IsWhole 1 n

-- The age can be a fraction; 0 switches the limit off.
pub record IsValidWorkers (w : WorkersConfig Num) : Type 0 where
  pub count : IsValidCount w.count
  pub finite_age : is_finite w.max_age_ms ≡ true
  pub age :
      ((lt w.max_age_ms (whole 0) ≡ false) × (lt (whole 0) w.max_age_ms ≡ false))
      ⊎ (lt w.max_age_ms (whole 1000) ≡ false)
  pub rss : IsWhole 0 w.max_rss_mb

count-IsValidCount :
    (o : Option (Count Num)) → check_count o ≡ none → IsValidCount (resolved_count o)
unfolding check_count resolved_count if_given default_to
count-IsValidCount none h = tt
count-IsValidCount (some auto) h = tt
count-IsValidCount (some (fixed n)) h = positive-default "workers.count" 1 (some n) (omega arith) h

age_lem :
    (x : Num)
    → check_max_age x ≡ none
    → (is_finite x ≡ true)
      × (((lt x (whole 0) ≡ false) × (lt (whole 0) x ≡ false)) ⊎ (lt x (whole 1000) ≡ false))
unfolding check_max_age assert_range
age_lem x h = elim (Bool-cases (is_zero x)) [
  | inl z ↦ (ground (arith, z), inl (ground (arith, z)))
  | inr n ↦
      let q =
        throw_if-false (not (is_finite x) || (lt x (whole 1000) || lt infinity x))
          "workers.maxAgeMs" (ground (arith, h, n)) in
      (ground (arith, q), inr (ground (arith, q)))
]

max_age_lem :
    (o : Option Num)
    → if_given check_max_age o ≡ none
    → (is_finite (default_to o 0) ≡ true)
      × (((lt (default_to o 0) (whole 0) ≡ false) × (lt (whole 0) (default_to o 0) ≡ false))
          ⊎ (lt (default_to o 0) (whole 1000) ≡ false))
unfolding if_given default_to
max_age_lem none h = (refl, inl (unfold lt in (refl, refl)))
max_age_lem (some x) h = age_lem x h

pub workers-IsValidWorkers :
    (w : WorkersOptions) → AllPass (validate_workers_options w) → IsValidWorkers (resolve_workers w)
unfolding validate_workers_options resolve_workers
workers-IsValidWorkers w (a, (b, (c, _))) = record {
  count = count-IsValidCount w.count a;
  finite_age = (max_age_lem w.max_age_ms b).0;
  age = (max_age_lem w.max_age_ms b).1;
  rss = non_negative-default "workers.maxRssMb" 0 w.max_rss_mb c;
}
