-- ===== src/Store/Progress.antt =====
-- internal/store/puzzleprogress.go, puzzleranked.go, puzzlestreak.go and puzzleseen.go: what Redis holds of a user's puzzle in
-- progress and of a run, and the script that replaces it. The script compares the JSON of two
-- states, which is equal when their fields are.
use blundernet.Base.{
  ℕ, ◌+◌, ◌*◌, Text, text_eq, Bool, true, false, ◌&&◌, Option, none, some, ltb, ◌==◌, if◌then◌else◌,
}
use blundernet.Errors.{Except, ok, err, conflict, backend}
use blundernet.Store.Sessions.{Entry, fresh}

pub record InProgress : Type 0 where
  pub puzzle_id : Text
  pub step : ℕ
  pub started : ℕ

pub record StreakState : Type 0 where
  pub puzzle_id : Text
  pub step : ℕ
  pub count : ℕ
  pub started : ℕ

abbrev pub ranked_ttl : ℕ
ranked_ttl = 7200

abbrev pub streak_ttl : ℕ
streak_ttl = 86400

-- RatingFor
unfoldable pub rating_for : StreakState → ℕ
rating_for s = if ltb 2800 (700 + s.count * 40) then 2800 else 700 + s.count * 40

abbrev pub same_progress : InProgress → InProgress → Bool
same_progress a b =
    text_eq a.puzzle_id b.puzzle_id && (a.step == b.step) && (a.started == b.started)

abbrev pub same_streak : StreakState → StreakState → Bool
same_streak a b =
    text_eq a.puzzle_id b.puzzle_id
    && (a.step == b.step)
    && (a.count == b.count)
    && (a.started == b.started)

abbrev pub entry_value : {A : Type 0} → Option (Entry A) → Option A
entry_value none = none
entry_value (some e) = some e.value

-- GET
abbrev pub value : {A : Type 0} → ℕ → Option (Entry A) → Option A
value now e = entry_value (fresh now e)

-- SET with an expiry, or DEL.
abbrev pub put_entry : {A : Type 0} → ℕ → ℕ → Option A → Option (Entry A)
put_entry ttl now none = none
put_entry ttl now (some a) = some (record { value = a; expires = now + ttl })

module _ {A : Type 0} (same : A → A → Bool) where
  abbrev pub same_option : Option A → Option A → Bool
  same_option none none = true
  same_option none (some b) = false
  same_option (some a) none = false
  same_option (some a) (some b) = same a b

  -- The script of replaceProgress on one key.
  unfoldable pub replace :
      ℕ → Bool → ℕ → Option A → Option A → Option (Entry A) → Option (Entry A) × Except (Unit {0})
  replace ttl lost now before after key =
      if lost
      then (key, err backend)
      else if same_option (value now key) before
      then (put_entry ttl now after, ok tt)
      else (key, err conflict)
