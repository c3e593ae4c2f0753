-- ===== src/Room/Modes/Shown.antt =====
-- The mode line that `buildModeString` of channel/Channel.cpp makes for the reply 324, read by a
-- client.
use ft_irc.Channel.Decimal.{atoi_from-decimal, no_space-decimal}
use ft_irc.Channel.{key_char, all_key_chars, build_mode_string, is_valid_key, Channel}
use ft_irc.Room.{Settings}
use ft_irc.Room.Modes.{begin, read_modes, spaced, settings_of}
use ft_irc.Base.{
  ◌==◌, if◌then◌else◌, All, Text, codes, find, ℕ, ◌≡◌, refl, ap, ◌∙◌, true, false, none, List, [],
  ◌∷◌, ◌++◌, append-nil, arith, ltb, not, is_empty, decimal, ◌||◌, if_both, All-append,
}

abbrev pub push_front : ℕ → List Text → List Text
push_front c [] = (c ∷ []) ∷ []
push_front c (word ∷ more) = (c ∷ word) ∷ more

-- The words between the spaces.
unfoldable pub words : Text → List Text
words [] = [] ∷ []
words (c ∷ s) = if c == b' ' then [] ∷ words s else push_front c (words s)

abbrev pub read_words : List Text → Settings → Settings
read_words [] s = s
read_words (letters ∷ params) s = (read_modes letters (begin params s)).settings

unfoldable pub read_mode_line : Text → Settings → Settings
read_mode_line line s = read_words (words line) s

-- A channel of that name and topic without modes.
abbrev pub unset : Settings → Settings
unset s = record s { key = []; user_limit = 0; invite_only = false; topic_by_op_only = false }

words-last : (w : Text) → find b' ' w ≡ none → words w ≡ w ∷ []
unfolding words find
words-last [] e = refl
words-last (c ∷ w) e = ground (arith, e, words-last w)

words-first : (w rest : Text) → find b' ' w ≡ none → words (w ++ b' ' ∷ rest) ≡ w ∷ words rest
unfolding words find
words-first [] rest e = refl
words-first (c ∷ w) rest e = ground (arith, e, words-first w rest)

-- The words of a line that is letters and parameters.
words-spaced :
    (letters : Text) (params : List Text)
    → find b' ' letters ≡ none
    → All (λ p. find b' ' p ≡ none) params
    → words (letters ++ spaced params) ≡ letters ∷ params
unfolding codes
words-spaced letters [] e a = rw (append-nil letters) (words-last letters e)
words-spaced letters (p ∷ params) e a =
    words-first letters _ e ∙ ap (λ ws. letters ∷ ws) (words-spaced p params a.0 a.1)

no_space-key : (key : Text) → all_key_chars key ≡ true → find b' ' key ≡ none
unfolding all_key_chars find key_char
no_space-key [] e = refl
no_space-key (c ∷ key) e = ground (arith, e, no_space-key key)

module _ (c : Channel) where
  shown_letters : Text
  shown_letters =
      codes "+"
      ++ (if c.invite_only then codes "i" else [])
      ++ (if c.topic_by_op_only then codes "t" else [])
      ++ (if not (is_empty c.key) then codes "k" else [])
      ++ (if ltb 0 c.user_limit then codes "l" else [])

  shown_params : List Text
  shown_params =
      (if not (is_empty c.key) then c.key ∷ [] else [])
      ++ (if ltb 0 c.user_limit then decimal c.user_limit ∷ [] else [])

  build_mode_string-shown : build_mode_string c ≡ shown_letters ++ spaced shown_params
  unfolding build_mode_string codes shown_letters shown_params
  build_mode_string-shown = ground (arith, append-nil c.key, append-nil (decimal c.user_limit))

  no_space-shown_letters : find b' ' shown_letters ≡ none
  unfolding codes shown_letters find
  no_space-shown_letters = ground arith

  no_space-shown_params :
      (is_empty c.key || is_valid_key c.key) ≡ true → All (λ p. find b' ' p ≡ none) shown_params
  unfolding is_valid_key shown_params
  no_space-shown_params valid =
      All-append (λ p. find b' ' p ≡ none) _ _
        (if_both (All (λ p. find b' ' p ≡ none)) (not (is_empty c.key)) _ _
          (λ e. (no_space-key c.key (ground (arith, e, valid)), tt)) (λ e. tt))
        (if_both (All (λ p. find b' ' p ≡ none)) (ltb 0 c.user_limit) _ _
          (λ e. (no_space-decimal c.user_limit, tt)) (λ e. tt))

  read_modes-shown :
      (read_modes shown_letters (begin shown_params (unset (settings_of c)))).settings
      ≡ settings_of c
  unfolding codes shown_letters shown_params read_modes
  read_modes-shown = ground (arith, atoi_from-decimal c.user_limit)

  pub build_mode_string-reads :
      (is_empty c.key || is_valid_key c.key) ≡ true
      → read_mode_line (build_mode_string c) (unset (settings_of c)) ≡ settings_of c
  unfolding read_mode_line
  build_mode_string-reads valid = rw build_mode_string-shown (
      rw
        (words-spaced shown_letters shown_params no_space-shown_letters
          (no_space-shown_params valid))
        read_modes-shown)
