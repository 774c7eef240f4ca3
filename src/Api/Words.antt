-- ===== src/Api/Words.antt =====
-- What the words of a request of handleCreate in internal/httpapi/server.go ask for.
use blundernet.Base.{
  ℕ, ◌≡◌, refl, subst, String, str_eq, eq_iff, Bool, true, false, Option, none, some, if-cases,
  arith,
}
use mathlib.Core.Option.{some-injective}
use blundernet.Base.Int.{ℤ, pos}
use blundernet.Chess.{Color, white, black}
use blundernet.Api.Create.{Mode, rated_mode, learning_mode, friend_mode, parse_color, parse_mode}

-- The colour that the text of a request asks for, and the mode.
pub data Asks (text : String) : Color → Type 0 where
  any_color : text ≡ "" → Asks text white
  as_white : text ≡ "white" → Asks text white
  as_black : text ≡ "black" → Asks text black

pub data Means (text : String) : Mode → Type 0 where
  any_mode : text ≡ "" → Means text rated_mode
  as_rated : text ≡ "rated" → Means text rated_mode
  as_learning : text ≡ "learning" → Means text learning_mode
  as_friend : text ≡ "friend" → Means text friend_mode

-- Whether a game is rated and a friend game, and its level.
pub data Terms (rung : Option ℕ) (level : ℤ) : Mode → Bool → Bool → ℤ → Type 0 where
  on_ladder : (n : ℕ) → rung ≡ some n → Terms rung level rated_mode true false (pos n)
  by_default : rung ≡ none → Terms rung level rated_mode true false (pos 3)
  as_asked : Terms rung level learning_mode false false level
  between : Terms rung level friend_mode false true level

same_text : (a b : String) → str_eq a b ≡ true → a ≡ b
same_text a b h = ground (arith, h, eq_iff a b)

pub parse_color-Asks : (text : String) (c : Color) → parse_color text ≡ some c → Asks text c
unfolding parse_color
parse_color-Asks text c =
    if-cases (str_eq text "") P
      (λ t h. subst (Asks text) (some-injective white c h) (any_color (same_text text "" t)))
      (λ _.
        if-cases (str_eq text "white") P
          (λ t h.
            subst (Asks text) (some-injective white c h) (as_white (same_text text "white" t)))
          (λ _.
            if-cases (str_eq text "black") P
              (λ t h.
                subst (Asks text) (some-injective black c h) (as_black (same_text text "black" t)))
              (λ _ h. absurd (ground (arith, h)))))
  where
    P : Option Color → Type 0
    P o = o ≡ some c → Asks text c

pub parse_mode-Means : (text : String) (m : Mode) → parse_mode text ≡ some m → Means text m
unfolding parse_mode
parse_mode-Means text m =
    if-cases (str_eq text "") P
      (λ t h. subst (Means text) (some-injective rated_mode m h) (any_mode (same_text text "" t)))
      (λ _.
        if-cases (str_eq text "rated") P
          (λ t h.
            subst (Means text) (some-injective rated_mode m h)
              (as_rated (same_text text "rated" t)))
          (λ _.
            if-cases (str_eq text "learning") P
              (λ t h.
                subst (Means text) (some-injective learning_mode m h)
                  (as_learning (same_text text "learning" t)))
              (λ _.
                if-cases (str_eq text "friend") P
                  (λ t h.
                    subst (Means text) (some-injective friend_mode m h)
                      (as_friend (same_text text "friend" t)))
                  (λ _ h. absurd (ground (arith, h))))))
  where
    P : Option Mode → Type 0
    P o = o ≡ some m → Means text m

pub Asks-parse_color : (text : String) (c : Color) → Asks text c → parse_color text ≡ some c
unfolding parse_color
Asks-parse_color text c (any_color e) = rw e refl
Asks-parse_color text c (as_white e) = rw e refl
Asks-parse_color text c (as_black e) = rw e refl

pub Means-parse_mode : (text : String) (m : Mode) → Means text m → parse_mode text ≡ some m
unfolding parse_mode
Means-parse_mode text m (any_mode e) = rw e refl
Means-parse_mode text m (as_rated e) = rw e refl
Means-parse_mode text m (as_learning e) = rw e refl
Means-parse_mode text m (as_friend e) = rw e refl
