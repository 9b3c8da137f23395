-- ===== src/Prelude/Strings.antt =====
-- Python's `str` as its code points, over the ASCII letters and blanks: `strip`, `lower`, `in`,
-- `==` and `<=`.
use Prim.Native.Nat.{ℕ, ◌+◌}
use Prim.Native.Char.{code}
use Prim.Native.String.{String}
use mathlib.Core.Path.{◌≡◌, refl, ap}
use mathlib.Core.Logic.{◌↔◌, inl, inr}
use mathlib.Core.Bool.{Bool, true, false, ◌&&◌, ◌||◌}
use mathlib.Core.Option.{Option, none, some}
use mathlib.Core.List.{List, [], ◌∷◌, ◌++◌, reverse}
use native.Mathlib.Omega.{arith}
use incident.Prelude.Tests.{ltb, leb, ◌==◌, if◌then◌else◌, Bool-cases}

abbrev pub Text : Type 0
Text = List ℕ

-- The code points of a literal.
abbrev pub codes : String → Text
codes String.[] = []
codes (String.◌∷◌ c s) = code c ∷ codes s

unfoldable pub text_eq : Text → Text → Bool
text_eq [] [] = true
text_eq (c ∷ s) (d ∷ t) = (c == d) && text_eq s t
text_eq _ _ = false

-- The order of `sorted` and `min` on strings.
unfoldable pub text_le : Text → Text → Bool
text_le [] t = true
text_le (c ∷ s) [] = false
text_le (c ∷ s) (d ∷ t) = ltb c d || ((c == d) && text_le s t)

is_space : ℕ → Bool
is_space c = (c == b' ') || (leb 9 c && leb c 13) || (leb 28 c && leb c 31)

drop_spaces : Text → Text
drop_spaces [] = []
drop_spaces (c ∷ s) = let rest = drop_spaces s in if is_space c then rest else c ∷ s

unfoldable pub strip : Text → Text
unfolding is_space drop_spaces
strip s = reverse (drop_spaces (reverse (drop_spaces s)))

lower_code : ℕ → ℕ
lower_code c = if leb b'A' c && leb c b'Z' then c + 32 else c

unfoldable pub lower : Text → Text
unfolding lower_code
lower [] = []
lower (c ∷ s) = lower_code c ∷ lower s

unfoldable pub is_prefix : Text → Text → Bool
is_prefix [] t = true
is_prefix (c ∷ s) [] = false
is_prefix (c ∷ s) (d ∷ t) = (c == d) && is_prefix s t

-- `s in t`.
unfoldable pub contains : Text → Text → Bool
unfolding is_prefix
contains s [] = is_prefix s []
contains s (d ∷ t) = is_prefix s (d ∷ t) || contains s t

-- The text after a prefix.
unfoldable pub after : Text → Text → Text
after [] s = s
after (c ∷ p) [] = []
after (c ∷ p) (d ∷ s) = after p s

-- `o or ""`.
abbrev pub or_empty : Option Text → Text
or_empty none = []
or_empty (some t) = t

-- The truth value of a string.
abbrev pub truthy : Text → Bool
truthy [] = false
truthy (c ∷ s) = true

pub text_eq_refl : (s : Text) → text_eq s s ≡ true
unfolding text_eq
text_eq_refl [] = refl
text_eq_refl (c ∷ s) = ground (arith, text_eq_refl s)

pub text_eq→eq : (s t : Text) → text_eq s t ≡ true → s ≡ t
unfolding text_eq
text_eq→eq [] [] h = refl
text_eq→eq [] (d ∷ t) h = cc
text_eq→eq (c ∷ s) [] h = cc
text_eq→eq (c ∷ s) (d ∷ t) h = ground (arith, text_eq→eq s t)

pub text_le-total : (s t : Text) → text_le s t ≡ false → text_le t s ≡ true
unfolding text_le
text_le-total [] t h = cc
text_le-total (c ∷ s) [] h = refl
text_le-total (c ∷ s) (d ∷ t) h = ground (arith, text_le-total s t)

pub text_le_trans : (s t u : Text) → text_le s t ≡ true → text_le t u ≡ true → text_le s u ≡ true
unfolding text_le
text_le_trans [] t u h k = refl
text_le_trans (c ∷ s) [] u h k = cc
text_le_trans (c ∷ s) (d ∷ t) [] h k = cc
text_le_trans (c ∷ s) (d ∷ t) (e ∷ u) h k = ground (arith, text_le_trans s t u)

-- The empty text is a part of every text.
pub contains-nil : (t : Text) → contains [] t ≡ true
unfolding contains
contains-nil [] = refl
contains-nil (d ∷ t) = refl

pub after-append : (p s : Text) → after p (p ++ s) ≡ s
unfolding after
after-append [] s = refl
after-append (c ∷ p) s = after-append p s

prefix-append : (s t : Text) → is_prefix s (s ++ t) ≡ true
unfolding is_prefix
prefix-append [] t = refl
prefix-append (c ∷ s) t = ground (arith, prefix-append s t)

prefix_rest : (s t : Text) → is_prefix s t ≡ true → (rest : Text) × (t ≡ s ++ rest)
unfolding is_prefix
prefix_rest [] t h = (t, refl)
prefix_rest (c ∷ s) [] h = cc
prefix_rest (c ∷ s) (d ∷ t) h =
    let (rest, e) = prefix_rest s t (ground arith) in
    let same : c ≡ d = ground arith in (rest, cc (same, e))

contains-append : (s before rest : Text) → contains s (before ++ (s ++ rest)) ≡ true
unfolding contains
contains-append [] [] [] = refl
contains-append [] [] (d ∷ rest) = refl
contains-append (c ∷ s) [] rest = rw (prefix-append (c ∷ s) rest) refl
contains-append s (d ∷ before) rest = ground (arith, contains-append s before rest)

contains_split :
    (s t : Text)
    → contains s t ≡ true
    → (before : Text) × (rest : Text) × (t ≡ before ++ (s ++ rest))
unfolding contains
contains_split s [] h = let (rest, e) = prefix_rest s [] h in ([], rest, e)
contains_split s (d ∷ t) h = elim (Bool-cases (is_prefix s (d ∷ t))) [
  | inl p ↦ let (rest, e) = prefix_rest s (d ∷ t) p in ([], rest, e)
  | inr p ↦
      let (before, rest, e) = contains_split s t (ground arith) in (d ∷ before, rest, ap (◌∷◌ d) e)
]

pub contains_iff :
    (s t : Text)
    → (contains s t ≡ true) ↔ ((before : Text) × (rest : Text) × (t ≡ before ++ (s ++ rest)))
contains_iff s t =
    (contains_split s t, λ h. let (before, rest, e) = h in rw e (contains-append s before rest))
