-- ===== src/Base/Text.antt =====
-- Text as the list of its UTF-16 code units, with the operations of JavaScript's `String` that
-- the program uses: `===`, `trim`, `split` and `join`.
use Prim.Native.Char.{code}
use Prim.Native.String.{String}
use mathlib.Core.List.{reverse-reverse}
use wireguard_panel.Base.{
  ℕ, ◌≡◌, refl, ◌≢◌, ◌↔◌, Bool, true, false, ◌&&◌, ◌||◌, List, [], ◌∷◌, ◌++◌, reverse, arith, leb,
  ◌==◌, if◌then◌else◌, All, All-reverse,
}

abbrev pub Text : Type 0
Text = List ℕ

-- A literal of the source, which is ASCII.
abbrev pub codes : String → Text
codes String.[] = []
codes (String.◌∷◌ c s) = code c ∷ codes s

-- `a === b` on strings.
unfoldable pub text_eq : Text → Text → Bool
text_eq [] [] = true
text_eq (a ∷ s) (b ∷ t) = (a == b) && text_eq s t
text_eq _ _ = false

pub text_eq_refl : (s : Text) → text_eq s s ≡ true
unfolding text_eq
text_eq_refl [] = refl
text_eq_refl (a ∷ s) = ground (arith, text_eq_refl s)

pub text_eq→eq : (s t : Text) → text_eq s t ≡ true → s ≡ t
unfolding text_eq
text_eq→eq [] [] h = refl
text_eq→eq [] (b ∷ t) h = cc
text_eq→eq (a ∷ s) [] h = cc
text_eq→eq (a ∷ s) (b ∷ t) h = ground (arith, text_eq→eq s t)

pub text_eq_iff : (s t : Text) → (text_eq s t ≡ true) ↔ (s ≡ t)
text_eq_iff s t = (text_eq→eq s t, λ e. rw e (text_eq_refl t))

-- White space and line terminators, as `String.prototype.trim` removes them.
unfoldable pub is_space : ℕ → Bool
is_space c =
    (leb 9 c && leb c 13)
    || c == 32
    || c == 160
    || c == 0x1680
    || (leb 0x2000 c && leb c 0x200a)
    || c == 0x2028
    || c == 0x2029
    || c == 0x202f
    || c == 0x205f
    || c == 0x3000
    || c == 0xfeff

unfoldable pub trim_start : Text → Text
trim_start [] = []
trim_start (c ∷ s) = elim (is_space c) [ true ↦ trim_start s | false ↦ c ∷ s ]

unfoldable pub trim : Text → Text
unfolding trim_start is_space
trim s = reverse (trim_start (reverse (trim_start s)))

abbrev pub NoSpace : Text → Type 0
NoSpace = All (λ c. is_space c ≡ false)

trim_start_plain : (s : Text) → NoSpace s → trim_start s ≡ s
unfolding trim_start
trim_start_plain [] h = refl
trim_start_plain (c ∷ s) (p, h) = rw (p, trim_start) refl

-- Text with no white space is its own trim.
pub trim_plain : (s : Text) → NoSpace s → trim s ≡ s
unfolding trim
trim_plain s h =
    rw (trim_start_plain s h)
      (rw (trim_start_plain (reverse s) (All-reverse _ s h)) (reverse-reverse s))

-- `s.split(sep)` for a separator of one character.
split_cons : Text → List Text → List Text
split_cons cur [] = cur ∷ []
split_cons cur (part ∷ parts) = (cur ++ part) ∷ parts

unfoldable pub split : ℕ → Text → List Text
unfolding split_cons
split sep [] = [] ∷ []
split sep (c ∷ s) =
    let rest = split sep s in if c == sep then [] ∷ rest else split_cons (c ∷ []) rest

-- `parts.join(sep)`.
unfoldable pub join : Text → List Text → Text
join sep [] = []
join sep (part ∷ []) = part
join sep (part ∷ next ∷ parts) = part ++ (sep ++ join sep (next ∷ parts))

abbrev pub Without : ℕ → Text → Type 0
Without sep = All (λ c. c ≢ sep)

pub split_plain : (sep : ℕ) (s : Text) → Without sep s → split sep s ≡ s ∷ []
unfolding split
split_plain sep [] h = refl
split_plain sep (c ∷ s) (p, h) = rw (split_plain sep s h, split) (ground arith)

pub split_append :
    (sep : ℕ) (s t : Text) → Without sep s → split sep (s ++ sep ∷ t) ≡ s ∷ split sep t
unfolding split
split_append sep [] t h = ground arith
split_append sep (c ∷ s) t (p, h) = rw (split_append sep s t h, split) (ground arith)
