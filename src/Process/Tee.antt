-- ===== src/Process/Tee.antt =====
-- The two listeners of the readiness loop: the default health service and the leadership.
use ens_provider.Prelude.{ℕ, ◌≡◌, Bool, true, false, Option, none, some}
use ens_provider.Config.{Config}
use ens_provider.Metrics.{Metrics}
use ens_provider.Leader.{Leadership}
use ens_provider.Leader.Steps.{
  Step, reachable, begins, routed, cancels, ends, closes, demotes, stops, shuts,
}
use ens_provider.Process.{Teed, tee_primary, tee_lead, stop_services}

-- A step of the leadership that is neither a report of the readiness loop nor the shutdown of the
-- health server.
abbrev IsOther : {s t : Leadership} {n : ℕ} → Step s t n → Type 0
IsOther (reachable ok e z) = ⊥
IsOther (begins e z) = Unit
IsOther (routed n e z) = Unit
IsOther (cancels h e z) = Unit
IsOther (ends h e z) = Unit
IsOther (closes h e z) = Unit
IsOther (demotes e z) = Unit
IsOther (stops e z) = ⊥
IsOther (shuts e z) = Unit

-- What the process does to both: the goroutine of the readiness loop tells the default service, then
-- the leadership; the health server is shut down; and the leadership moves by itself in between.
pub data TeeRun (s : Teed) : Teed → Type 0 where
  start : TeeRun s s
  tells : {t : Teed} (ok : Bool) → t.pending ≡ none → TeeRun s t → TeeRun s (tee_primary ok t)
  passes : {t : Teed} → TeeRun s t → TeeRun s (tee_lead t)
  halts : {t : Teed} → TeeRun s t → TeeRun s (stop_services t)
  moves :
      {t : Teed} {l : Leadership} {n : ℕ} (st : Step t.lead l n)
      → IsOther st
      → TeeRun s t
      → TeeRun s (record t { lead = l })

-- The last report: the one on its way to the leadership, or what the leadership holds.
abbrev pub last_report : Option Bool → Bool → Bool
last_report none k8s_ok = k8s_ok
last_report (some ok) k8s_ok = ok

pub record IsTold (t : Teed) : Type 0 where
  pub running : t.lead.health_stopped ≡ false → t.primary ≡ last_report t.pending t.lead.k8s_ok
  pub over : t.lead.health_stopped ≡ true → t.primary ≡ false
