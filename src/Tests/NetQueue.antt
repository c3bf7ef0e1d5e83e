-- ===== src/Tests/NetQueue.antt =====
-- The queue of netq.go at concrete states.
use vidya_god_ipfs.Prelude.{◌≡◌, refl, true, false, [], ◌∷◌, arith}
use vidya_god_ipfs.NetQueue.{NetQueue, new_net_queue, acquire}
use vidya_god_ipfs.NetQueue.Invariant.{IsValid, new_net_queue-IsValid}
use vidya_god_ipfs.NetQueue.Steps.{Reach, Steps, Step, Reach-IsValid, IsBounded, Steps-IsBounded}

-- Two slots, a background job in one, a foreground job in the other, one more of each waiting.
abbrev busy : NetQueue
busy = (acquire false (acquire true (acquire true (acquire false (new_net_queue 2)).0).0).0).0

busy_state : (busy.active ≡ 2) × (busy.fg ≡ 0 ∷ []) × (busy.bg ≡ 1 ∷ [])
unfolding acquire new_net_queue
busy_state = (refl, refl, refl)

busy_reached : Reach 2 busy
busy_reached =
    Reach.steps
      (Reach.steps
        (Reach.steps (Reach.steps Reach.start (Step.acquires false)) (Step.acquires true))
        (Step.acquires true))
      (Step.acquires false)

Reach-IsValid_example : IsValid busy
Reach-IsValid_example = Reach-IsValid (omega arith) busy_reached

new_net_queue-IsBounded : IsBounded (new_net_queue 2)
unfolding new_net_queue
new_net_queue-IsBounded = omega arith

Steps-IsBounded_example : IsValid busy × IsBounded busy
Steps-IsBounded_example =
    Steps-IsBounded (new_net_queue-IsValid 2 (omega arith)) new_net_queue-IsBounded (
      Steps.next
        (Steps.next (Steps.next (Steps.next Steps.here (Step.acquires false)) (Step.acquires true))
          (Step.acquires true))
        (Step.acquires false))
