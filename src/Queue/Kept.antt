-- ===== src/Queue/Kept.antt =====
-- Every step of the queue of crates/peko-core/src/task_queue.rs from a consistent state.
use peko_agent.Base.{
  ℕ, ◌≤◌, ◌<◌, ◌≡◌, refl, sym, ◌∙◌, ap, subst, arith, Bool, true, not, ◌&&◌, List, [], ◌∷◌, ◌++◌,
  map, length, length-append, if◌then◌else◌,
}
use mathlib.Core.List.{append-nil, append_assoc}
use peko_agent.Budget.{usize_mod}
use peko_agent.Queue.{
  TaskRequest, TaskResult, receiving, received, executing, executed, answered, Queue, new, submit,
  accept, refuse, receive, claim, finish, panic, reply, settle, is_ok, is_internal,
}
use peko_agent.Queue.Steps.{
  Step, submits, accepts, refuses, receives, claims, finishes, panics, replies, settles, Reach,
  here, later, is_stopped,
}
use peko_agent.Queue.Invariant.{
  IsAt, IsConsistent, held, to_reflect, to_reflect-append, map-append, unclaimed-held,
  length-accepted,
}

module _ (size : ℕ) (reflector : Bool) where
  new-IsConsistent : IsConsistent size reflector new
  unfolding new
  new-IsConsistent = record {
    counted = λ _. refl;
    busy = refl;
    total = refl;
    order = refl;
    tally = refl;
    room = omega arith;
    reflected = ground arith;
  }

  submit-IsAt :
      (r : TaskRequest) (q : Queue)
      → (submit r q).submitted < usize_mod
      → IsConsistent size reflector q
      → IsConsistent size reflector (submit r q)
  unfolding submit
  submit-IsAt r q h i = record {
    counted = λ z. omega (
      arith,
      h,
      i.counted z,
      i.tally,
      length-append q.waiting (r ∷ []),
      length-accepted size reflector q q.executor i,
      unclaimed-held q.executor,
    );
    busy = i.busy;
    total = i.total;
    order = i.order;
    tally = omega (arith, i.tally, length-append q.waiting (r ∷ []));
    room = i.room;
    reflected = i.reflected;
  }

  accept-IsAt :
      (front : List TaskRequest) (r : TaskRequest) (back : List TaskRequest) (q : Queue)
      → q.waiting ≡ front ++ (r ∷ back)
      → length q.channel < size
      → IsConsistent size reflector q
      → IsConsistent size reflector (accept front r back q)
  unfolding accept
  accept-IsAt front r back q e h i =
      let w = ap length e ∙ length-append front (r ∷ back) in
      let v = length-append front back in
      let c = length-append q.channel (r ∷ []) in
      let a = length-append q.accepted (r ∷ []) in
      record {
        counted = λ z. omega (arith, i.counted z, w, v, c);
        busy = i.busy;
        total = i.total;
        order =
            ap (λ z. z ++ (r ∷ [])) i.order
            ∙ (append_assoc (map (λ p. p.0) q.results) (held q.executor ++ q.channel) (r ∷ [])
                ∙ ap (λ z. map (λ p. p.0) q.results ++ z)
                    (append_assoc (held q.executor) q.channel (r ∷ [])));
        tally = omega (arith, i.tally, w, v, a);
        room = omega (arith, c, h);
        reflected = i.reflected;
      }

  refuse-IsAt :
      (front : List TaskRequest) (r : TaskRequest) (back : List TaskRequest) (q : Queue)
      → q.waiting ≡ front ++ (r ∷ back)
      → is_stopped q.executor ≡ true
      → IsConsistent size reflector q
      → IsConsistent size reflector (refuse front back q)
  unfolding refuse
  refuse-IsAt front r back q e h i =
      let w = ap length e ∙ length-append front (r ∷ back) in
      let v = length-append front back in
      record {
        counted = λ z. cc;
        busy = i.busy;
        total = i.total;
        order = i.order;
        tally = omega (arith, i.tally, w, v);
        room = i.room;
        reflected = i.reflected;
      }

  receive-IsAt :
      (r : TaskRequest) (rest : List TaskRequest) (q : Queue)
      → q.channel ≡ r ∷ rest
      → IsAt size reflector q receiving
      → IsConsistent size reflector (receive r rest q)
  unfolding receive
  receive-IsAt r rest q e i = record {
    counted = λ z. omega (arith, i.counted z, ap length e);
    busy = i.busy;
    total = i.total;
    order = i.order ∙ ap (λ z. map (λ p. p.0) q.results ++ z) e;
    tally = i.tally;
    room = omega (arith, i.room, ap length e);
    reflected = i.reflected;
  }

  claim-IsAt :
      (r : TaskRequest) (q : Queue)
      → IsAt size reflector q (received r)
      → IsConsistent size reflector (claim r q)
  unfolding claim
  claim-IsAt r q i = record {
    counted = λ z. omega (arith, i.counted refl);
    busy = refl;
    total = i.total;
    order = i.order;
    tally = i.tally;
    room = i.room;
    reflected = i.reflected;
  }

  finish-IsAt :
      (motivation : Bool) (r : TaskRequest) (result : TaskResult) (q : Queue)
      → IsAt size reflector q (executing r)
      → IsConsistent size reflector (finish motivation reflector r result q)
  unfolding finish
  finish-IsAt motivation r result q i = record {
    counted = i.counted;
    busy = i.busy;
    total = i.total;
    order = i.order;
    tally = i.tally;
    room = i.room;
    reflected =
        ap
          (λ z.
            if is_ok result && not (is_internal r.source) && reflector then z ++ (r ∷ []) else z)
          (i.reflected ∙ ap (to_reflect reflector) (append-nil q.results))
        ∙ sym (to_reflect-append reflector q.results r result);
  }

  panic-IsAt :
      (r : TaskRequest) (q : Queue)
      → IsAt size reflector q (executing r)
      → IsConsistent size reflector (panic r q)
  unfolding panic
  panic-IsAt r q i = record {
    counted = λ z. cc;
    busy = i.busy;
    total = i.total;
    order = i.order ∙ ap (λ z. map (λ p. p.0) q.results ++ (r ∷ z)) (sym (append-nil q.channel));
    tally = i.tally;
    room = omega arith;
    reflected = i.reflected;
  }

  reply-IsAt :
      (r : TaskRequest) (result : TaskResult) (q : Queue)
      → IsAt size reflector q (executed r result)
      → IsConsistent size reflector (reply r result q)
  unfolding reply
  reply-IsAt r result q i = record {
    counted = i.counted;
    busy = i.busy;
    total = omega (arith, i.total, length-append q.results ((r, result) ∷ []));
    order =
        i.order
        ∙ (sym (append_assoc (map (λ p. p.0) q.results) (r ∷ []) q.channel)
            ∙ ap (λ z. z ++ q.channel) (sym (map-append (λ p. p.0) q.results ((r, result) ∷ []))));
    tally = i.tally;
    room = i.room;
    reflected =
        i.reflected
        ∙ ap (to_reflect reflector) (sym (append-nil (q.results ++ ((r, result) ∷ []))));
  }

  settle-IsAt :
      (r : TaskRequest) (q : Queue)
      → (settle q).submitted < usize_mod
      → IsAt size reflector q (answered r)
      → IsConsistent size reflector (settle q)
  unfolding settle
  settle-IsAt r q h i = record {
    counted = i.counted;
    busy = refl;
    total = omega (arith, h, i.total, i.tally, length-accepted size reflector q (answered r) i);
    order = i.order;
    tally = i.tally;
    room = i.room;
    reflected = i.reflected;
  }

  Step-IsConsistent :
      (motivation : Bool) {s t : Queue}
      → Step size motivation reflector s t
      → t.submitted < usize_mod
      → IsConsistent size reflector s
      → IsConsistent size reflector t
  Step-IsConsistent m {s} (submits r) h i = submit-IsAt r s h i
  Step-IsConsistent m {s} (accepts front r back e n k) h i = accept-IsAt front r back s e k i
  Step-IsConsistent m {s} (refuses front r back e k) h i = refuse-IsAt front r back s e k i
  Step-IsConsistent m {s} (receives r rest e k) h i =
      receive-IsAt r rest s k (subst (IsAt size reflector s) e i)
  Step-IsConsistent m {s} (claims r e) h i = claim-IsAt r s (subst (IsAt size reflector s) e i)
  Step-IsConsistent m {s} (finishes r result e) h i =
      finish-IsAt m r result s (subst (IsAt size reflector s) e i)
  Step-IsConsistent m {s} (panics r e) h i = panic-IsAt r s (subst (IsAt size reflector s) e i)
  Step-IsConsistent m {s} (replies r result e) h i =
      reply-IsAt r result s (subst (IsAt size reflector s) e i)
  Step-IsConsistent m {s} (settles r e) h i = settle-IsAt r s h (subst (IsAt size reflector s) e i)

  Step-submitted :
      (motivation : Bool) {s t : Queue}
      → Step size motivation reflector s t
      → s.submitted ≤ t.submitted
  unfolding submit accept refuse receive claim finish panic reply settle
  Step-submitted m (submits r) = omega arith
  Step-submitted m (accepts front r back e n k) = omega arith
  Step-submitted m (refuses front r back e k) = omega arith
  Step-submitted m (receives r rest e k) = omega arith
  Step-submitted m (claims r e) = omega arith
  Step-submitted m (finishes r result e) = omega arith
  Step-submitted m (panics r e) = omega arith
  Step-submitted m (replies r result e) = omega arith
  Step-submitted m (settles r e) = omega arith

  -- In every state that the callers and the executor reach, with fewer than 2^64 tasks submitted,
  -- the channel is within its size; every task that the channel took is, in the order it was taken,
  -- one with a result, the one at hand, one in the channel or, after a panic, one that was dropped;
  -- every other task submitted waits or was refused; `pending` counts, unless a panic ended the
  -- executor, exactly the tasks that are not started, `processing` tells whether one is, and
  -- `total_processed` counts the results, apart from the last one until it is settled; and the
  -- reflections are, in order, on exactly the tasks of users that succeeded, if there is a
  -- reflector.
  pub Reach-IsConsistent :
      (motivation : Bool) {q : Queue}
      → Reach size motivation reflector new q
      → q.submitted < usize_mod
      → IsConsistent size reflector q
  Reach-IsConsistent m here h = new-IsConsistent
  Reach-IsConsistent m (later r st) h =
      Step-IsConsistent m st h (Reach-IsConsistent m r (omega (arith, h, Step-submitted m st)))
