-- ===== src/Base/Regex.antt =====
-- The regular expressions of the source, by the backtracking that the language prescribes: all the ways
-- to match, the preferred one first. `.` is any character but a line end.
use Prim.Native.Nat.{ℕ, zero, suc, ◌-◌}
use mathlib.Core.Bool.{Bool, true, false, not, ◌&&◌, ◌||◌}
use mathlib.Core.Option.{Option, none, some}
use mathlib.Core.List.{List, [], ◌∷◌, ◌++◌}
use Prim.Native.String.{String}
use the_cinder_project.Base.Tests.{ltb, leb, ◌==◌, if◌then◌else◌}
use the_cinder_project.Base.Lists.{length, take}
use the_cinder_project.Base.Strings.{Text, codes, is_space, lower}

pub data Regex : Type 0 where
  -- one character of a class
  one : (ℕ → Bool) → Regex
  then_ : Regex → Regex → Regex
  -- `r|s`, with `r` tried first
  or_ : Regex → Regex → Regex
  empty : Regex
  -- `r*` and `r*?`
  many few : Regex → Regex
  -- `(r)`, by its number
  group : ℕ → Regex → Regex
  -- `^`, `$` and `\b`
  start end_ boundary : Regex

-- `r?`, `r+`
abbrev pub maybe : Regex → Regex
maybe r = or_ r empty

abbrev pub some_of : Regex → Regex
some_of r = then_ r (many r)

abbrev pub is_line_end : ℕ → Bool
is_line_end c = c == 10 || c == 13 || c == 0x2028 || c == 0x2029

abbrev pub any_char : Regex
any_char = one (λ c. not (is_line_end c))

abbrev pub is_digit_char : ℕ → Bool
is_digit_char c = leb b'0' c && leb c b'9'

abbrev pub digit : Regex
digit = one is_digit_char

abbrev pub space : Regex
unfolding is_space
space = one is_space

-- `\w`, for word boundaries
abbrev pub is_word : ℕ → Bool
is_word c = (leb b'a' (lower c) && leb (lower c) b'z') || is_digit_char c || c == b'_'

-- A literal, whatever the case of its letters; it is written in lower case.
abbrev pub letter : ℕ → Regex
letter k = one (λ c. lower c == k)

abbrev pub literal : Text → Regex
literal [] = empty
literal (k ∷ ks) = then_ (letter k) (literal ks)

abbrev pub word : String → Regex
word s = literal (codes s)

-- A literal where the flag `i` is missing
abbrev pub exactly : Text → Regex
exactly [] = empty
exactly (k ∷ ks) = then_ (one (λ c. c == k)) (exactly ks)

abbrev pub exact : String → Regex
exact s = exactly (codes s)

-- One of several literals
abbrev pub any_of : List Regex → Regex
any_of [] = one (λ c. false)
any_of (r ∷ []) = r
any_of (r ∷ (s ∷ rs)) = or_ r (any_of (s ∷ rs))

-- A place in the text: the character before, the rest, and the groups so far.
pub record Place : Type 0 where
  pub before : Option ℕ
  pub rest : Text
  pub groups : List (ℕ × Text)

abbrev pub step_over : (ℕ → Bool) → Place → Text → List Place
step_over p l [] = []
step_over p l (c ∷ s) = if p c then record l { before = some c; rest = s } ∷ [] else []

abbrev pub word_before : Option ℕ → Bool
word_before none = false
word_before (some c) = is_word c

abbrev pub word_after : Text → Bool
word_after [] = false
word_after (c ∷ _) = is_word c

abbrev pub differs : Bool → Bool → Bool
differs true b = not b
differs false b = b

abbrev pub at_start : Option ℕ → Bool
at_start none = true
at_start (some _) = false

abbrev pub at_end : Text → Bool
at_end [] = true
at_end (_ ∷ _) = false

unfoldable pub each : (Place → List Place) → List Place → List Place
each f [] = []
each f (l ∷ ls) = f l ++ each f ls

-- The places after a turn that took some character.
unfoldable pub forward : ℕ → List Place → List Place
forward n [] = []
forward n (l ∷ ls) = if ltb (length l.rest) n then l ∷ forward n ls else forward n ls

-- Repetition; each turn takes a character, so there are at most as many as the text has.
unfoldable pub repeat : Bool → (Place → List Place) → ℕ → Place → List Place
unfolding each forward
repeat greedy f zero l = l ∷ []
repeat greedy f (suc fuel) l =
    let more = each (repeat greedy f fuel) (forward (length l.rest) (f l)) in
    if greedy then more ++ (l ∷ []) else l ∷ more

abbrev pub capture : ℕ → Text → Place → Place
capture n from l = record l { groups = (n, take (length from - length l.rest) from) ∷ l.groups }

unfoldable pub captures : ℕ → Text → List Place → List Place
captures n from [] = []
captures n from (l ∷ ls) = capture n from l ∷ captures n from ls

unfoldable pub ways : Regex → Place → List Place
unfolding each repeat captures
ways (one p) l = step_over p l l.rest
ways (then_ r s) l = each (ways s) (ways r l)
ways (or_ r s) l = ways r l ++ ways s l
ways empty l = l ∷ []
ways (many r) l = repeat true (ways r) (length l.rest) l
ways (few r) l = repeat false (ways r) (length l.rest) l
ways (group n r) l = captures n l.rest (ways r l)
ways start l = if at_start l.before then l ∷ [] else []
ways end_ l = if at_end l.rest then l ∷ [] else []
ways boundary l = if differs (word_before l.before) (word_after l.rest) then l ∷ [] else []

abbrev pub first : List Place → Option (List (ℕ × Text))
first [] = none
first (l ∷ _) = some l.groups

abbrev pub or_else : Option (List (ℕ × Text)) → Option (List (ℕ × Text)) → Option (List (ℕ × Text))
or_else none o = o
or_else (some g) o = some g

unfoldable pub exec_from : Regex → Option ℕ → Text → Option (List (ℕ × Text))
unfolding ways
exec_from r before [] = first (ways r (record { before = before; rest = []; groups = [] }))
exec_from r before (c ∷ s) =
    let later = exec_from r (some c) s in
    or_else (first (ways r (record { before = before; rest = c ∷ s; groups = [] }))) later

-- `r.exec(text)`: the groups of the first match.
unfoldable pub exec : Regex → Text → Option (List (ℕ × Text))
unfolding exec_from
exec r text = exec_from r none text

abbrev pub found : Option (List (ℕ × Text)) → Bool
found none = false
found (some _) = true

unfoldable pub test : Regex → Text → Bool
unfolding exec
test r text = found (exec r text)

-- A group that took part, by its number
unfoldable pub group_of : ℕ → List (ℕ × Text) → Option Text
group_of n [] = none
group_of n ((k, t) ∷ gs) = if k == n then some t else group_of n gs
