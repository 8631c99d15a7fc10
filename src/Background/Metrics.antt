-- ===== src/Background/Metrics.antt =====
-- The daily counters of the job store.
use peko_agent.Base.{
  ℕ, ◌+◌, ◌≡◌, refl, ◌∙◌, arith, false, ◌&&◌, Option, List, [], ◌∷◌, if◌then◌else◌,
}
use peko_agent.Text.{Text, text, text_eq}
use peko_agent.Text.Equality.{text_eq_iff, text_eq_refl}
use peko_agent.Background.{Stat, BgStore, add_stat, get_stat}
use peko_agent.Background.Writes.{write_job}
use peko_agent.Background.Operations.{bump_metric, tokens_used_today, mark_done}

get_stat-add_stat :
    (date metric date2 metric2 : Text) (n : ℕ) (ss : List Stat)
    → get_stat date2 metric2 (add_stat date metric n ss)
      ≡ get_stat date2 metric2 ss + (if text_eq date date2 && text_eq metric metric2 then n else 0)
unfolding get_stat add_stat
get_stat-add_stat date metric date2 metric2 n [] = ground arith
get_stat-add_stat date metric date2 metric2 n (s ∷ ss) = ground (
  arith,
  get_stat-add_stat date metric date2 metric2 n ss,
  text_eq_iff s.date date,
  text_eq_iff s.metric metric,
  text_eq_iff s.date date2,
  text_eq_iff s.metric metric2,
  text_eq_iff date date2,
  text_eq_iff metric metric2,
)

other_metrics :
    (text_eq (text "iterations") (text "tokens_used") ≡ false)
    × (text_eq (text "completed") (text "tokens_used") ≡ false)
unfolding text_eq
other_metrics = (refl, refl)

-- The three counters of a finished job, read at `tokens_used`.
get_stat-three :
    (d e : Text) (n m : ℕ) (ss : List Stat)
    → get_stat e (text "tokens_used") (
        add_stat d
          (text "iterations")
          n
          (add_stat d (text "tokens_used") m (add_stat d (text "completed") 1 ss)))
      ≡ get_stat e (text "tokens_used") ss + (if text_eq d e then m else 0)
get_stat-three d e n m ss =
    let s1 = add_stat d (text "completed") 1 ss in
    let s2 = add_stat d (text "tokens_used") m s1 in
    let (f, g) = other_metrics in
    let p1 : get_stat e (text "tokens_used") s1 ≡ get_stat e (text "tokens_used") ss =
      get_stat-add_stat d (text "completed") e (text "tokens_used") 1 ss ∙ ground (arith, g) in
    let p2 : get_stat e (text "tokens_used") s2
        ≡ get_stat e (text "tokens_used") s1 + (if text_eq d e then m else 0) =
      get_stat-add_stat d (text "tokens_used") e (text "tokens_used") m s1
      ∙ ground (arith, text_eq_refl (text "tokens_used")) in
    get_stat-add_stat d (text "iterations") e (text "tokens_used") n s2 ∙ ground (arith, f, p1, p2)

module _ {B : Type 0} (today : ℕ → Text) where
  -- A finished job adds its tokens to the counter of the day on which it finished, and to no other
  -- day's.
  pub tokens_used_today-mark_done :
      (id : Text) (now later : ℕ) (result : Text) (session_id : Option Text)
      (iterations tokens_used : ℕ) (s : BgStore B)
      → tokens_used_today today later
          (mark_done today id now result session_id iterations tokens_used s)
        ≡ tokens_used_today today later s
          + (if text_eq (today now) (today later) then tokens_used else 0)
  unfolding mark_done bump_metric tokens_used_today write_job
  tokens_used_today-mark_done id now later result session_id iterations tokens_used s =
      get_stat-three (today now) (today later) iterations tokens_used s.stats
