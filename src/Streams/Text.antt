-- ===== src/Streams/Text.antt =====
-- WriteString of lib/processing_engine/ResourceOutputStreamText.h and ReadString of
-- lib/processing_engine/ResourceInputStreamText.h, which escape and restore backslashes and newlines.
pub mod RoundTrip
use hector_core.Prelude.{
  ◌>>=◌, ℕ, Bool, true, false, Option, none, some, List, [], ◌∷◌, ◌++◌, ◌≡◌, ◌≢◌, ◌↔◌, refl, sym,
  ap, ◌∙◌, arith, if◌then◌else◌, ◌==◌, ◌&&◌, ◌||◌, inl, inr, Bool-cases, append-nil, append_assoc,
  ==_iff, subst,
}
use hector_core.Common.Replace.{
  replace_all, replace_byte, replace_pair, replace_all-IsReplaced, replace_byte-IsReplaced,
  replace_pair-IsReplaced,
}

abbrev pub backslash : ℕ
backslash = 92

abbrev pub newline : ℕ
newline = 10

abbrev pub letter_n : ℕ
letter_n = 110

-- The two replacements of `WriteString`, and then the newline that ends the line.
unfoldable pub write_string : List ℕ → Option (List ℕ)
write_string s = do
  s₁ ← replace_all s (backslash ∷ []) (backslash ∷ backslash ∷ [])
  s₂ ← replace_all s₁ (newline ∷ []) (backslash ∷ letter_n ∷ [])
  some (s₂ ++ newline ∷ [])

abbrev cons_line : ℕ → List ℕ × List ℕ → List ℕ × List ℕ
cons_line c (line, rest) = (c ∷ line, rest)

-- `getline`: the bytes before the first newline, and those behind it.
unfoldable pub getline : List ℕ → List ℕ × List ℕ
getline [] = ([], [])
getline (c ∷ s) = let more = cons_line c (getline s) in if c == newline then ([], s) else more

-- `ReadString` on the bytes of the stream: it fails where the stream is at its end.
unfoldable pub read_string : List ℕ → Option (List ℕ × List ℕ)
read_string [] = none
read_string (c ∷ s) = do
  let (line, rest) = getline (c ∷ s)
  s₁ ← replace_all line (backslash ∷ letter_n ∷ []) (newline ∷ [])
  s₂ ← replace_all s₁ (backslash ∷ backslash ∷ []) (backslash ∷ [])
  some (s₂, rest)
