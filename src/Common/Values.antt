-- ===== src/Common/Values.antt =====
-- str2bool, bool2str and ConstructTimeout of lib/common.cc.
use hector_core.Prelude.{
  ℕ, ◌+◌, ◌-◌, ◌*◌, ◌/◌, ◌%◌, ◌≤◌, ◌<◌, Bool, true, false, ◌||◌, Option, none, some, List, [], ◌∷◌,
  ◌≡◌, ◌↔◌, refl, if◌then◌else◌, ltb, ◌==◌, arith,
}

-- `strcmp` with a string of one character.
abbrev is_char : ℕ → List ℕ → Bool
is_char c [] = false
is_char c (x ∷ []) = x == c
is_char c (x ∷ y ∷ s) = false

-- `value[0] == c`, where the end of the string is 0.
abbrev starts : ℕ → List ℕ → Bool
starts c [] = c == 0
starts c (x ∷ s) = x == c

-- `none` is -1.
unfoldable pub str2bool : List ℕ → Option Bool
str2bool value =
    if is_char 48 value || starts 102 value || starts 70 value
    then some false
    else if is_char 49 value || starts 116 value || starts 84 value
    then some true
    else none

unfoldable pub bool2str : Bool → List ℕ
bool2str value = if value then 49 ∷ [] else 48 ∷ []

-- What `bool2str` writes, `str2bool` reads.
pub str2bool-bool2str : (b : Bool) → str2bool (bool2str b) ≡ some b
unfolding str2bool bool2str
str2bool-bool2str true = refl
str2bool-bool2str false = refl

-- `struct timeval`.
pub record Timeval : Type 0 where
  pub tv_sec : ℕ
  pub tv_usec : ℕ

-- `now` is what `gettimeofday` yields. `usec` is not negative.
unfoldable pub construct_timeout : Timeval → ℕ → Timeval
construct_timeout now usec =
    let sec = now.tv_sec + usec / 1000000 in
    let rest = now.tv_usec + usec % 1000000 in
    if ltb 1000000 rest
    then record { tv_sec = sec + 1; tv_usec = rest - 1000000 }
    else record { tv_sec = sec; tv_usec = rest }

abbrev pub microseconds : Timeval → ℕ
microseconds t = t.tv_sec * 1000000 + t.tv_usec

-- The timeout is `usec` microseconds behind `now`, and its microseconds are at most a million: a million
-- itself, which is no proper value of the field, exactly where the microseconds add up to it.
pub construct_timeout_lem :
    (now : Timeval) (usec : ℕ)
    → now.tv_usec < 1000000
    → (microseconds (construct_timeout now usec) ≡ microseconds now + usec)
      × ((construct_timeout now usec).tv_usec ≤ 1000000)
      × (((construct_timeout now usec).tv_usec ≡ 1000000)
          ↔ (now.tv_usec + usec % 1000000 ≡ 1000000))
unfolding construct_timeout
construct_timeout_lem now usec h = ground arith
