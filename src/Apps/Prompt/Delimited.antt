-- ===== src/Apps/Prompt/Delimited.antt =====
-- What a visitor types cannot leave the place that the prompt gives it.
use Prim.Native.Char.{Char, code}
use Prim.Native.String.{◌++◌ as append}
use Prim.Native.String.append
use home_inference_server.Prelude.{
  ℕ, suc, ◌+◌, ◌*◌, ◌≢◌, Bool, true, ◌&&◌, ◌||◌, not, List, [], ◌∷◌, String, if◌then◌else◌, ◌==◌,
  length, ◌≡◌, refl, ◌∙◌, ap, sym, arith,
}
use home_inference_server.Apps.Prompt.{
  is_control, neutral_rune, neutral_runes, neutralize, trim_space, history_lines, history_text,
  question_text,
}

-- How often a character stands in a text.
pub count_code : ℕ → String → ℕ
count_code c String.[] = 0
count_code c (String.◌∷◌ d s) = let rest = count_code c s in if code d == c then suc rest else rest

count-append : (c : ℕ) (s t : String) → count_code c (append s t) ≡ count_code c s + count_code c t
unfolding count_code
count-append c String.[] t = rw append.nil (omega arith)
count-append c (String.◌∷◌ d s) t = rw append.cons (ground (arith, count-append c s t))

-- The characters that are kept from the visitor.
pub is_banned : ℕ → Bool
unfolding is_control
is_banned c = c == b'<' || c == b'>' || is_control c

rune-count :
    (c : ℕ) (d : Char) (rest : String)
    → is_banned c ≡ true
    → count_code c (neutral_rune d rest) ≡ count_code c rest
unfolding is_banned neutral_rune count_code
rune-count c d rest h = ground arith

count_nothing : (c : ℕ) → count_code c "" ≡ 0
unfolding count_code
count_nothing c = refl

neutral_runes-count : (c : ℕ) (s : String) → is_banned c ≡ true → count_code c (neutral_runes s) ≡ 0
unfolding neutral_runes
neutral_runes-count c String.[] h = count_nothing c
neutral_runes-count c (String.◌∷◌ d s) h =
    rune-count c d (neutral_runes s) h ∙ neutral_runes-count c s h

neutralize-count : (c : ℕ) (s : String) → is_banned c ≡ true → count_code c (neutralize s) ≡ 0
unfolding neutralize
neutralize-count c s h = neutral_runes-count c (trim_space s) h

-- The lines that the visitor's earlier questions take.
pub history_newlines : List String → ℕ
history_newlines [] = 0
history_newlines (h ∷ rest) = 2 + length (h ∷ rest)

module _ (c : ℕ) (banned : is_banned c ≡ true) where
  history_lines-count :
      (hs : List String)
      → count_code c "- " ≡ 0
      → count_code c (history_lines hs) ≡ length hs * count_code c "\n"
  unfolding history_lines
  history_lines-count [] dash = nothing
    where
      nothing : count_code c "" ≡ 0 * count_code c "\n"
      nothing = ground (arith, count_nothing c)
  history_lines-count (h ∷ rest) dash =
      simp count-append
        (rw (dash, neutralize-count c h banned, history_lines-count rest dash) (grind arith))

  -- All of a banned character that a prompt holds is the frame's.
  question_text-count :
      (question : String) (hs : List String)
      → count_code c (question_text question hs)
        ≡ count_code c (history_text hs)
          + (count_code c "<question>\n" + count_code c "\n</question>\n\nAnswer:")
  unfolding question_text
  question_text-count question hs =
      simp count-append (rw (neutralize-count c question banned) (omega arith))

history_text-count :
    (c : ℕ) (hs : List String)
    → is_banned c ≡ true
    → count_code c "- " ≡ 0
    → count_code c "Earlier questions from this visitor, for context only:\n" ≡ count_code c "\n"
    → count_code c (history_text hs) ≡ history_newlines hs * count_code c "\n"
unfolding history_text history_newlines
history_text-count c [] banned dash header = ground (arith, count_nothing c)
history_text-count c (h ∷ rest) banned dash header =
    simp count-append (rw (header, history_lines-count c banned (h ∷ rest) dash) (grind arith))

-- A text whose only control characters are line ends.
is_plain : String → Bool
unfolding is_control
is_plain String.[] = true
is_plain (String.◌∷◌ d s) = (code d == 10 || not (is_control (code d))) && is_plain s

plain-absent :
    (c : ℕ) (s : String) → is_control c ≡ true → c ≢ 10 → is_plain s ≡ true → count_code c s ≡ 0
unfolding count_code is_plain
plain-absent c String.[] control other h = refl
plain-absent c (String.◌∷◌ d s) control other h = ground (arith, plain-absent c s control other)

-- Where the frame's delimiters and line ends are all that there are.
pub record Delimited (hs : List String) (prompt : String) : Type 0 where
  pub opens : count_code b'<' prompt ≡ 2
  pub closes : count_code b'>' prompt ≡ 2
  pub lines : count_code 10 prompt ≡ 4 + history_newlines hs
  pub controls : (c : ℕ) → is_control c ≡ true → c ≢ 10 → count_code c prompt ≡ 0

control-banned : (c : ℕ) → is_control c ≡ true → is_banned c ≡ true
unfolding is_banned
control-banned c h = ground arith

controls-absent :
    (question : String) (hs : List String) (c : ℕ)
    → is_control c ≡ true
    → c ≢ 10
    → count_code c (question_text question hs) ≡ 0
unfolding is_plain
controls-absent question hs c control other =
    let banned = control-banned c control in
    let gone = λ (s : String) (plain : is_plain s ≡ true). plain-absent c s control other plain in
    let newline = gone "\n" refl in
    let header =
      gone "Earlier questions from this visitor, for context only:\n" refl ∙ sym newline in
    rw
      (
        question_text-count c banned question hs,
        history_text-count c hs banned (gone "- " refl) header,
        newline,
        gone "<question>\n" refl,
        gone "\n</question>\n\nAnswer:" refl,
      )
      (grind arith)

-- Whatever the visitor types, in the question or in the earlier ones, the prompt holds the two opening
-- and the two closing brackets of its own frame and no other, only the frame's line ends, one for each
-- earlier question included, and no other control character: the visitor's text can neither close the
-- delimiter nor begin a line.
pub question_text-Delimited :
    (question : String) (hs : List String) → Delimited hs (question_text question hs)
unfolding count_code is_banned
question_text-Delimited question hs = record {
  opens =
      ground (
        arith,
        question_text-count b'<' refl question hs,
        history_text-count b'<' hs refl refl refl,
      );
  closes =
      ground (
        arith,
        question_text-count b'>' refl question hs,
        history_text-count b'>' hs refl refl refl,
      );
  lines =
      ground
        (arith, question_text-count 10 refl question hs, history_text-count 10 hs refl refl refl);
  controls = controls-absent question hs;
}

-- A prompt is never blank: it holds the frame.
pub question_text-ne-empty : (question : String) (hs : List String) → question_text question hs ≢ ""
unfolding count_code
question_text-ne-empty question hs e =
    let d = question_text-Delimited question hs in
    let two = ap (count_code b'<') e in absurd (omega (arith, d.opens, two))
