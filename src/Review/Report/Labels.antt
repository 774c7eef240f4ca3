-- ===== src/Review/Report/Labels.antt =====
-- What the label of a move in internal/review/review.go stands for.
use blundernet.Base.{ℕ, ◌≡◌, refl, text_eq, Bool, true, false, ◌&&◌, ◌⊎◌, inl, inr, if◌then◌else◌}
use blundernet.Float.{Float64}
use blundernet.Review.{
  Boards, Analysis, Judgement, brilliant, great, best, excellent, good, inaccuracy, mistake,
  blunder, is_best, is_fine, num, win_percent, judge,
}
use blundernet.Review.Report.{Step, win_after, is_brilliant, is_great, label, judge_step}

-- What a judgement says of a move: whether it is the engine's, whether it lost less than 2 and less
-- than 10 points, gave material up with a game left, and was the only one.
pub data Says (engine cheap bearable gift only : Bool) : Judgement → Type 0 where
  is_gift :
      (engine ≡ true) ⊎ (cheap ≡ true)
      → gift ≡ true
      → Says engine cheap bearable gift only brilliant
  is_only : engine ≡ true → only ≡ true → gift ≡ false → Says engine cheap bearable gift only great
  is_engine :
      engine ≡ true → only ≡ false → gift ≡ false → Says engine cheap bearable gift only best
  is_cheap :
      engine ≡ false → cheap ≡ true → gift ≡ false → Says engine cheap bearable gift only excellent
  is_good : engine ≡ false → cheap ≡ false → Says engine cheap bearable gift only good
  is_inaccurate : engine ≡ false → cheap ≡ false → Says engine cheap bearable gift only inaccuracy
  is_mistake :
      engine ≡ false
      → cheap ≡ false
      → bearable ≡ false
      → Says engine cheap bearable gift only mistake
  is_blunder :
      engine ≡ false
      → cheap ≡ false
      → bearable ≡ false
      → Says engine cheap bearable gift only blunder

module _ (fl : Float64) (boards : Boards) where
  open fl use {F, sub, lt, le}

  labelled :
      (engine cheap : Bool) (gift only : Bool) (five ten twenty : Bool)
      → Says engine cheap ten gift only (
          let j =
            if engine
            then best
            else if cheap
            then excellent
            else if five
            then good
            else if ten
            then inaccuracy
            else if twenty
            then mistake
            else blunder in
          let j = if is_fine j && gift then brilliant else j in
          if is_best j && only then great else j)
  labelled true cheap true only five ten twenty = is_gift (inl refl) refl
  labelled true cheap false true five ten twenty = is_only refl refl refl
  labelled true cheap false false five ten twenty = is_engine refl refl refl
  labelled false true true only five ten twenty = is_gift (inr refl) refl
  labelled false true false only five ten twenty = is_cheap refl refl refl
  labelled false false gift only true ten twenty = is_good refl refl
  labelled false false gift only false true twenty = is_inaccurate refl refl
  labelled false false gift only false false true = is_mistake refl refl refl
  labelled false false gift only false false false = is_blunder refl refl refl

  pub judge_step-Says :
      (i : ℕ) (s : Step fl boards) (e next : Analysis)
      → let before = win_percent fl e.cp e.mate in
        let after = win_after fl boards (boards.status s.after) next in
        Says
          (text_eq s.uci e.best)
          (lt (sub before after) (num fl 2))
          (lt (sub before after) (num fl 10))
          (is_brilliant fl boards s after)
          (is_great fl boards before e.second)
          (judge_step fl boards i s e next).judgement
  unfolding judge_step label judge
  judge_step-Says i s e next =
      let before = win_percent fl e.cp e.mate in
      let lost = sub before (win_after fl boards (boards.status s.after) next) in
      labelled (text_eq s.uci e.best) (lt lost (num fl 2))
        (is_brilliant fl boards s (win_after fl boards (boards.status s.after) next))
        (is_great fl boards before e.second) (lt lost (num fl 5)) (lt lost (num fl 10))
        (lt lost (num fl 20))
