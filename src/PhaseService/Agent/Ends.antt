-- ===== src/PhaseService/Agent/Ends.antt =====
-- The flow of a single agent ends its phase on every branch.
use sophia_orchestrator.Envelope.Validation.{Known→valid}
use sophia_orchestrator.Phase.{Phase}
use sophia_orchestrator.Change.{Change}
use sophia_orchestrator.Discipline.Validator.Coercion.{validated_completes}
use sophia_orchestrator.Store.{Store}
use sophia_orchestrator.PhaseService.{Answers, RunPhaseInput, find_failing, save_failed}
use sophia_orchestrator.PhaseService.Failing.Blocked.{
  Ready, Ready-Kept, Ended, fail_phase_with_reason_ends,
}
use sophia_orchestrator.PhaseService.Finish.Ends.{Works, conclude-Ended}
use sophia_orchestrator.PhaseService.Agent.{run_agent}
use sophia_orchestrator.PhaseService.Agent.Flow.{run_agent_good}

pub run_agent-Ended :
    (a : Answers) (c : Change) (input : RunPhaseInput) (p : Phase) (w : Store)
    → Works a
    → Ready p w
    → Ended p.id (run_agent a c input p w)
run_agent-Ended a c input p w h r =
    run_agent_good a c input p w (Ended p.id)
      (λ rule reason v k.
        fail_phase_with_reason_ends a p rule reason v (h find_failing) (h save_failed)
          (Ready-Kept p w v r k))
      (λ usage e v k (raw, accepted).
        let (formed, _) = validated_completes a.unmarshal raw a.now p accepted r.running in
        conclude-Ended a c input.context_overrides usage e p v h (Ready-Kept p w v r k)
          (Known→valid e.status formed.status))
