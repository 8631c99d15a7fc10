-- ===== src/Motivation.antt =====
-- crates/peko-core/src/motivation.rs: the four drives of the life loop, and the events that move them.
--
-- `F` is f32 with the operations that the code uses; a literal is given in hundredths. The drives'
-- names, which the code passes as texts, are a type of their own: no other name occurs.
use peko_agent.Base.{ℕ, ◌+◌, ◌-◌, ◌%◌, Bool, true, false, Option, none, some, if◌then◌else◌}
use peko_agent.Budget.{usize_mod}
use peko_agent.Text.{Text, text}

pub data DriveEvent : Type 0 where
  task_succeeded task_failed task_escalated user_engaged user_rejected : DriveEvent
  new_tool_used stale_patterns behavior_coherent behavior_incoherent : DriveEvent

pub data Drive : Type 0 where
  curiosity competence social coherence : Drive

pub data LifeAction : Type 0 where
  explore review_failures propose_helpful review_behavior : LifeAction

unfoldable pub action_name : LifeAction → Text
action_name explore = text "explore"
action_name review_failures = text "review-failures"
action_name propose_helpful = text "propose-helpful"
action_name review_behavior = text "review-behavior"

pub record Float (F : Type 0) : Type 0 where
  pub hundredths : ℕ → F
  pub minus_hundredths : ℕ → F
  pub of_seconds : ℕ → F
  pub add : F → F → F
  pub sub : F → F → F
  pub mul : F → F → F
  pub div : F → F → F
  pub at_most : F → F → F
  -- `v.clamp(0.0, 1.0)`
  pub clamp : F → F
  pub lt : F → F → Bool
  pub le : F → F → Bool

pub record Motivation (F : Type 0) : Type 0 where
  pub curiosity_level : F
  pub competence_level : F
  pub social_level : F
  pub coherence_level : F
  pub updated_at : ℕ
  pub tick_count : ℕ

module _ {F : Type 0} (f : Float F) where
  unfoldable pub default : ℕ → Motivation F
  default now = record {
    curiosity_level = f.hundredths 50;
    competence_level = f.hundredths 50;
    social_level = f.hundredths 50;
    coherence_level = f.hundredths 50;
    updated_at = now;
    tick_count = 0;
  }

  unfoldable pub get : Drive → Motivation F → F
  get curiosity m = m.curiosity_level
  get competence m = m.competence_level
  get social m = m.social_level
  get coherence m = m.coherence_level

  unfoldable pub set : Drive → F → Motivation F → Motivation F
  set curiosity v m = record m { curiosity_level = f.clamp v }
  set competence v m = record m { competence_level = f.clamp v }
  set social v m = record m { social_level = f.clamp v }
  set coherence v m = record m { coherence_level = f.clamp v }

  -- The drive that an event moves, whether up, and by how many hundredths.
  unfoldable pub moved : DriveEvent → Drive × Bool × ℕ
  moved task_succeeded = (competence, true, 5)
  moved task_failed = (competence, false, 5)
  moved task_escalated = (competence, false, 3)
  moved user_engaged = (social, true, 5)
  moved user_rejected = (social, false, 5)
  moved new_tool_used = (curiosity, false, 10)
  moved stale_patterns = (curiosity, true, 2)
  moved behavior_coherent = (coherence, true, 2)
  moved behavior_incoherent = (coherence, false, 5)

  -- No literal of `moved` is 0, at which the code would return. The room is up to the end towards
  -- which the drive moves.
  unfoldable pub adjust : Drive → Bool → ℕ → Motivation F → Motivation F
  unfolding get set
  adjust d up n m =
      let v = get d m in
      let delta = if up then f.hundredths n else f.minus_hundredths n in
      let room = if up then f.sub (f.hundredths 100) v else v in
      set d (f.add v (f.mul (f.mul delta (f.hundredths 200)) room)) m

  unfoldable pub record_event : ℕ → DriveEvent → Motivation F → Motivation F
  unfolding adjust moved
  record_event now e m = let (d, up, n) = moved e in record (adjust d up n m) { updated_at = now }

  unfoldable pub pull : F → Drive → Motivation F → Motivation F
  unfolding get set
  pull rate d m =
      let v = get d m in
      set d (f.add v (f.mul (f.sub (f.hundredths 50) v) (f.at_most rate (f.hundredths 100)))) m

  -- A clock that went back leaves the drives as they are.
  unfoldable pub decay : ℕ → Motivation F → Motivation F
  unfolding pull
  decay now m =
      let hours = f.div (f.of_seconds (now - m.updated_at)) (f.of_seconds 3600) in
      let rate = f.mul (f.hundredths 1) hours in
      if f.le hours (f.hundredths 0)
      then m
      else record (pull rate coherence
          (pull rate social (pull rate competence (pull rate curiosity m)))) {
            updated_at = now;
            tick_count = (m.tick_count + 1) % usize_mod;
          }

  unfoldable pub suggest_action : Motivation F → Option LifeAction
  suggest_action m =
      if f.lt (f.hundredths 70) m.curiosity_level
      then some explore
      else if f.lt m.competence_level (f.hundredths 30)
      then some review_failures
      else if f.lt (f.hundredths 70) m.social_level
      then some propose_helpful
      else if f.lt m.coherence_level (f.hundredths 30)
      then some review_behavior
      else none
