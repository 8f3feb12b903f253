-- ===== src/Common/Tests.antt =====
-- Runs of the helpers of lib/common.cc, and the theorems at concrete inputs.
use hector_core.Prelude.{ℕ, some, List, [], ◌∷◌, ◌≡◌, refl}
use hector_core.Common.Trim.{skip_ws, chomp, is_ws, find_first_not_ws, find_last_not_ws}
use hector_core.Common.Split.{split, split_loop}
use hector_core.Common.Replace.{replace_all, replace_loop, find, strip_prefix}

-- "\t a ".
abbrev padded : List ℕ
padded = 9 ∷ 32 ∷ 97 ∷ 32 ∷ []

skipped : skip_ws padded ≡ 97 ∷ 32 ∷ []
unfolding skip_ws find_first_not_ws is_ws
skipped = refl

chomped : chomp padded ≡ 9 ∷ 32 ∷ 97 ∷ []
unfolding chomp find_last_not_ws is_ws
chomped = refl

-- "a,b,", split at the comma.
abbrev listed : List ℕ
listed = 97 ∷ 44 ∷ 98 ∷ 44 ∷ []

pieces : split 44 listed ≡ (97 ∷ []) ∷ (98 ∷ []) ∷ []
unfolding split split_loop
pieces = refl

replaced : replace_all listed (44 ∷ []) (59 ∷ 32 ∷ []) ≡ some (97 ∷ 59 ∷ 32 ∷ 98 ∷ 59 ∷ 32 ∷ [])
unfolding replace_all replace_loop find strip_prefix
replaced = refl
