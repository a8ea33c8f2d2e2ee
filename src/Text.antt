-- ===== src/Text.antt =====
-- Python's `str` where the program walks its characters: the list of its code points. The case
-- mapping and the white space are those of ASCII. Texts that are only compared are native strings.
use Prim.Native.Char.{code}
use Prim.Native.String.{String}
use mathlib.Core.List.{reverse}
use nl2sqlcopy.Prelude.{
  ℕ, zero, suc, ◌+◌, ◌/◌, ◌%◌, ◌≡◌, ◌↔◌, refl, Bool, true, false, ◌&&◌, ◌||◌, List, [], ◌∷◌, ◌++◌,
  map, arith, ltb, leb, eqb, Eq, if◌then◌else◌,
}

abbrev pub Text : Type 0
Text = List ℕ

abbrev pub codes : String → Text
codes String.[] = []
codes (String.◌∷◌ c s) = code c ∷ codes s

abbrev pub text_beq : Text → Text → Bool
text_beq [] [] = true
text_beq [] (d ∷ t) = false
text_beq (c ∷ s) [] = false
text_beq (c ∷ s) (d ∷ t) = eqb c d && text_beq s t

pub text_beq_iff : (s t : Text) → (text_beq s t ≡ true) ↔ (s ≡ t)
text_beq_iff [] [] = ground arith
text_beq_iff [] (d ∷ t) = ground arith
text_beq_iff (c ∷ s) [] = ground arith
text_beq_iff (c ∷ s) (d ∷ t) = ground (arith, text_beq_iff s t)

instance abbrev pub text_eq : Eq Text
text_eq = record { beq = text_beq; beq_iff = text_beq_iff }

-- `if text`
abbrev pub nonempty : Text → Bool
nonempty [] = false
nonempty (c ∷ s) = true

-- `a or b` on texts
abbrev pub or_else : Text → Text → Text
or_else [] b = b
or_else (c ∷ s) b = c ∷ s

unfoldable pub is_space : ℕ → Bool
is_space c = (leb 9 c && leb c 13) || (leb 28 c && leb c 32)

unfoldable pub lower_char : ℕ → ℕ
lower_char c = if leb b'A' c && leb c b'Z' then c + 32 else c

-- `text.lower()`
abbrev pub lower : Text → Text
lower = map lower_char

unfoldable pub drop_while : (ℕ → Bool) → Text → Text
drop_while test [] = []
drop_while test (c ∷ s) = let rest = drop_while test s in if test c then rest else c ∷ s

-- `text.strip()`, and `text.strip(chars)` for the characters that meet the test
abbrev pub strip_of : (ℕ → Bool) → Text → Text
strip_of test s = reverse (drop_while test (reverse (drop_while test s)))

abbrev pub strip : Text → Text
strip = strip_of is_space

abbrev pub onto_first : ℕ → List Text → List Text
onto_first c [] = (c ∷ []) ∷ []
onto_first c (w ∷ words) = (c ∷ w) ∷ words

-- What a split by `is_sep` finds: the word under construction stands in front.
unfoldable pub split_on : (ℕ → Bool) → Text → List Text
split_on is_sep [] = [] ∷ []
split_on is_sep (c ∷ s) =
    let words = split_on is_sep s in if is_sep c then [] ∷ words else onto_first c words

unfoldable pub keep_nonempty : List Text → List Text
keep_nonempty [] = []
keep_nonempty (w ∷ words) = let rest = keep_nonempty words in if nonempty w then w ∷ rest else rest

-- `text.split()`
abbrev pub split : Text → List Text
split s = keep_nonempty (split_on is_space s)

-- `sep.join(words)`
unfoldable pub join : Text → List Text → Text
join sep [] = []
join sep (w ∷ []) = w
join sep (w ∷ v ∷ words) = w ++ (sep ++ join sep (v ∷ words))

-- `text.replace(old, new)` for two characters
abbrev pub replace : ℕ → ℕ → Text → Text
replace old new = map (λ c. if eqb c old then new else c)

-- `str(n)`: with more fuel than `n` there is always a digit left to write
digits_onto : ℕ → ℕ → Text → Text
digits_onto zero n acc = acc
digits_onto (suc fuel) n acc =
    let rest = digits_onto fuel (n / 10) ((48 + n % 10) ∷ acc) in
    if ltb n 10 then (48 + n) ∷ acc else rest

unfoldable pub decimal : ℕ → Text
unfolding digits_onto
decimal n = digits_onto (suc n) n []

decimal_407 : decimal 407 ≡ codes "407"
unfolding decimal
decimal_407 = refl

split_words : split (codes "  a bc\td ") ≡ codes "a" ∷ codes "bc" ∷ codes "d" ∷ []
unfolding split_on keep_nonempty is_space
split_words = refl

strip_both : strip_of (λ c. eqb c b'.') (codes "..a.b.") ≡ codes "a.b"
unfolding drop_while
strip_both = refl
