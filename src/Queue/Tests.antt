-- ===== src/Queue/Tests.antt =====
-- Runs of the queue of crates/peko-core/src/task_queue.rs.
use peko_agent.Base.{◌≡◌, refl, arith, true, none, [], ◌∷◌, ◌↔◌}
use peko_agent.Base.Results.{err}
use peko_agent.Text.{text}
use peko_agent.Queue.{
  TaskRequest, Queue, receiving, new, submit, accept, receive, claim, finish, panic, reply, settle,
  is_idle, web_ui, internal,
}
use peko_agent.Queue.Steps.{
  Reach, here, later, submits, accepts, receives, claims, finishes, replies, settles,
}
use peko_agent.Queue.Invariant.{IsConsistent}
use peko_agent.Queue.Kept.{Reach-IsConsistent}
use peko_agent.Queue.Idle.{HasFinished, is_idle_iff}
use peko_agent.Queue.Work.{AtRest, Inevitably, rests}

abbrev ask : TaskRequest
ask = record { input = text "hello"; session_id = none; source = web_ui }

abbrev explore : TaskRequest
explore = record { input = text "look"; session_id = none; source = internal (text "explore") [] }

-- Two tasks are submitted, and the first is taken from the channel.
abbrev two_submitted : Queue
two_submitted = submit explore (submit ask new)

abbrev one_received : Queue
one_received = receive ask [] (accept [] ask (explore ∷ []) two_submitted)

abbrev one_executing : Queue
one_executing = claim ask one_received

two_submitted-Reach : Reach 1 true true new two_submitted
two_submitted-Reach = later (later here (submits ask)) (submits explore)

one_executing-Reach : Reach 1 true true new one_executing
unfolding submit accept receive claim new
one_executing-Reach =
    later
      (later (later two_submitted-Reach (accepts [] ask (explore ∷ []) refl refl (omega arith)))
        (receives ask [] refl refl))
      (claims ask refl)

Reach-IsConsistent_example : IsConsistent 1 true one_executing
unfolding submit accept receive claim new
Reach-IsConsistent_example = Reach-IsConsistent 1 true true one_executing-Reach (omega arith)

-- The first task is done.
abbrev first_done : Queue
first_done = settle (
    reply ask (err (text "no model")) (
      finish true true ask (err (text "no model"))
        (claim ask (receive ask [] (accept [] ask [] (submit ask new))))))

first_done-Reach : Reach 1 true true new first_done
unfolding submit accept receive claim finish reply settle new
first_done-Reach =
    later
      (later
        (later
          (later
            (later (later (later here (submits ask)) (accepts [] ask [] refl refl (omega arith)))
              (receives ask [] refl refl))
            (claims ask refl))
          (finishes ask (err (text "no model")) refl))
        (replies ask (err (text "no model")) refl))
      (settles ask refl)

is_idle_iff_example : (is_idle first_done ≡ true) ↔ HasFinished first_done receiving
unfolding submit accept receive claim finish reply settle new
is_idle_iff_example = is_idle_iff 1 true true first_done-Reach (omega arith)

abbrev after_panic : Queue
after_panic = panic ask one_executing

rests_example : Inevitably 1 true true (AtRest 1 true true) two_submitted
rests_example = rests 1 true true two_submitted (omega arith)
