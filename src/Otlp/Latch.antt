-- ===== src/Otlp/Latch.antt =====
-- packages/plugin-otlp-meter/src/index.ts: each meter provider is shut down once.
use clusterkit.Common.{
  ℕ, zero, suc, ◌≡◌, refl, ap, ◌∙◌, sym, Bool, true, false, not, ◌&&◌, Option, none, some, List, [],
  ◌∷◌, if◌then◌else◌, if_cases,
}
use clusterkit.Otlp.{
  Provider, shut_down_by, begin_shutdown_provider, end_shutdown_provider, is_some,
  shutdown_provider, renewed, install, uninstall, Call, installs, uninstalls, shuts_down,
  app_registers, step, run, no_provider,
}

-- n - 1, ..., 0.
abbrev pub below : ℕ → List ℕ
below zero = []
below (suc n) = n ∷ below n

-- Every provider created has been shut down once, but for a current one that has not been.
abbrev pub Ended : Option ℕ → Bool → ℕ → List ℕ → Type 0
Ended (some n) false created ended = (created ≡ suc n) × (ended ≡ below n)
Ended (some n) true created ended = ended ≡ below created
Ended none latch created ended = ended ≡ below created

abbrev pub IsTidy : Provider → Type 0
IsTidy p = Ended p.meter_provider p.is_shutdown p.created p.ended

-- All of them have been.
abbrev pub IsOver : Provider → Type 0
IsOver p = p.ended ≡ below p.created

-- The provider with its two guards written out.
abbrev at : Option ℕ → Bool → Provider → Provider
at m b p = record p { meter_provider = m; is_shutdown = b }

shut_lem :
    (m : Option ℕ) (b r : Bool) (p : Provider)
    → Ended m b p.created p.ended
    → IsOver (shutdown_provider r (at m b p)) × IsTidy (shutdown_provider r (at m b p))
unfolding shutdown_provider begin_shutdown_provider shut_down_by end_shutdown_provider is_some
shut_lem none true r p h = (h, h)
shut_lem none false r p h = (h, h)
shut_lem (some n) true r p h = (h, h)
shut_lem (some n) false true p h = (
  ap (λ (l : List ℕ). n ∷ l) h.1 ∙ sym (ap below h.0),
  ap (λ (l : List ℕ). n ∷ l) h.1 ∙ sym (ap below h.0),
)
shut_lem (some n) false false p h = (
  ap (λ (l : List ℕ). n ∷ l) h.1 ∙ sym (ap below h.0),
  ap (λ (l : List ℕ). n ∷ l) h.1 ∙ sym (ap below h.0),
)

shutdown_lem :
    (r : Bool) (p : Provider)
    → IsTidy p
    → IsOver (shutdown_provider r p) × IsTidy (shutdown_provider r p)
shutdown_lem r p h = shut_lem p.meter_provider p.is_shutdown r p h

renewed-IsTidy : (p : Provider) → IsOver p → IsTidy (renewed p)
unfolding renewed
renewed-IsTidy p h = if_cases IsTidy p.global_registered _ _ (λ _. (refl, h)) (λ _. (refl, h))

released-IsTidy :
    (p : Provider)
    → IsTidy p
    → IsTidy (
        if p.plugin_set_global_provider
        then record p { plugin_set_global_provider = false; global_registered = false }
        else p)
released-IsTidy p h = if_cases IsTidy p.plugin_set_global_provider _ _ (λ _. h) (λ _. h)

uninstall_lem :
    (r : Bool) (p : Provider) → IsTidy p → IsOver (uninstall r p) × IsTidy (uninstall r p)
unfolding uninstall
uninstall_lem r p h = shutdown_lem r _ (released-IsTidy p h)

step-IsTidy : (c : Call) (p : Provider) → IsTidy p → IsTidy (step c p)
unfolding step install
step-IsTidy (installs r) p h =
    if_cases IsTidy ((not p.is_shutdown && is_some p.meter_provider) && not r) _ _
      (λ _. (shutdown_lem false p h).1)
      (λ _. renewed-IsTidy (shutdown_provider true p) (shutdown_lem true p h).0)
step-IsTidy (uninstalls r) p h = (uninstall_lem r p h).1
step-IsTidy (shuts_down r) p h = (shutdown_lem r p h).1
step-IsTidy (app_registers b) p h = h

run-IsTidy : (cs : List Call) (p : Provider) → IsTidy p → IsTidy (run cs p)
unfolding run
run-IsTidy [] p h = h
run-IsTidy (c ∷ cs) p h = run-IsTidy cs (step c p) (step-IsTidy c p h)

-- Whatever sequence of installations, shutdowns and uninstallations came before, also with
-- shutdowns that the SDK rejects, by the time the plugin is uninstalled every meter provider that
-- it created has been shut down, and each exactly once; the exporters of the installations can be
-- created.
pub uninstall_ends_all :
    (cs : List Call) (resolves : Bool) → IsOver (uninstall resolves (run cs no_provider))
uninstall_ends_all cs r = (uninstall_lem r (run cs no_provider) (run-IsTidy cs no_provider refl)).0
