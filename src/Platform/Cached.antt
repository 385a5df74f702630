-- ===== src/Platform/Cached.antt =====
-- packages/worker-manager/src/platform.ts: what `detectReusePortSupport` answers once and for all.
use Prim.Native.String.{String}
use clusterkit.Common.{◌≡◌, List, [], ◌∷◌}
use clusterkit.Platform.{System, timed_out, Event, called, settles}

-- Calls, and probes that time out.
abbrev pub IsInconclusive : List Event → Type 0
IsInconclusive [] = Unit
IsInconclusive (called ∷ es) = IsInconclusive es
IsInconclusive (settles o ∷ es) = (o ≡ timed_out) × IsInconclusive es

module _ (system : System) (release : String) where
  -- Calls alone leave a definitive answer as it is.
  abbrev pub IsCalls : List Event → Type 0
  IsCalls [] = Unit
  IsCalls (called ∷ es) = IsCalls es
  IsCalls (settles o ∷ es) = ⊥
