-- ===== src/Base/Texts.antt =====
-- Texts as lists of code points: `split`, `startswith`, `in`, `lower` of ASCII letters, and `int` of a
-- sequence of digits.
use Prim.Native.Char.{code}
use Prim.Native.String.{String}
use Prim.Native.Nat.{ℕ, ◌+◌, ◌-◌, ◌*◌}
use mathlib.Core.Bool.{Bool, true, false, ◌&&◌, ◌||◌}
use mathlib.Core.List.{List, [], ◌∷◌}
use polara_quant.Base.Tests.{leb, nat_beq, if◌then◌else◌}
use polara_quant.Base.Effects.{Result, ok, err, value_error}

abbrev pub codes : String → List ℕ
codes String.[] = []
codes (String.◌∷◌ c s) = code c ∷ codes s

unfoldable pub to_lower : ℕ → ℕ
to_lower c = if leb b'A' c && leb c b'Z' then c + 32 else c

-- `text.startswith(word)` and `word in text`
abbrev pub starts_with : List ℕ → List ℕ → Bool
starts_with [] cs = true
starts_with (w ∷ ws) [] = false
starts_with (w ∷ ws) (c ∷ cs) = nat_beq w c && starts_with ws cs

abbrev pub contains_word : List ℕ → List ℕ → Bool
contains_word w [] = starts_with w []
contains_word w (c ∷ cs) = starts_with w (c ∷ cs) || contains_word w cs

abbrev pub is_space : ℕ → Bool
is_space c = nat_beq c 32 || (leb 9 c && leb c 13)

abbrev pub skip_space : List ℕ → List ℕ
skip_space [] = []
skip_space (c ∷ cs) = if is_space c then skip_space cs else c ∷ cs

abbrev pub take_word : List ℕ → List ℕ
take_word [] = []
take_word (c ∷ cs) = if is_space c then [] else c ∷ take_word cs

-- `text.split()[0]`
abbrev pub first_word : List ℕ → List ℕ
first_word cs = take_word (skip_space cs)

-- What follows the first word.
abbrev pub drop_word : List ℕ → List ℕ
drop_word [] = []
drop_word (c ∷ cs) = if is_space c then c ∷ cs else drop_word cs

abbrev pub rest_after : List ℕ → List ℕ
rest_after cs = drop_word (skip_space cs)

abbrev pub is_blank : List ℕ → Bool
is_blank [] = true
is_blank (c ∷ cs) = is_space c && is_blank cs

-- `a == b`
abbrev pub same_word : List ℕ → List ℕ → Bool
same_word [] [] = true
same_word (c ∷ cs) (e ∷ es) = nat_beq c e && same_word cs es
same_word _ _ = false

abbrev pub digits_from : ℕ → List ℕ → Result ℕ
digits_from acc [] = ok acc
digits_from acc (c ∷ cs) =
    let rest = digits_from (acc * 10 + (c - b'0')) cs in
    if leb b'0' c && leb c b'9' then rest else err value_error

-- `int(text)`
unfoldable pub int_of : List ℕ → Result ℕ
int_of [] = err value_error
int_of (c ∷ cs) = digits_from 0 (c ∷ cs)
