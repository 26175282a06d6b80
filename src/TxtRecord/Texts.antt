-- ===== src/TxtRecord/Texts.antt =====
-- The string operations that dnsid/models.py uses on records, on lists of code points.
use dnsid_py.Base.{
  ℕ, Bool, true, false, ◌&&◌, ◌||◌, Option, none, some, List, [], ◌∷◌, ◌++◌, bytes_eq, leb, ltb,
  ◌==◌, if◌then◌else◌,
}
use dnsid_py.Base.Decimal.{Text}

-- `t in ts`
unfoldable pub mem : Text → List Text → Bool
mem t [] = false
mem t (x ∷ xs) = bytes_eq t x || mem t xs

unfoldable pub is_nil : {A : Type 0} → List A → Bool
is_nil [] = true
is_nil (x ∷ xs) = false

unfoldable pub filter : {A : Type 0} → (A → Bool) → List A → List A
filter p [] = []
filter p (x ∷ xs) = let rest = filter p xs in if p x then x ∷ rest else rest

unfoldable pub all_of : {A : Type 0} → (A → Bool) → List A → Bool
all_of p [] = true
all_of p (x ∷ xs) = p x && all_of p xs

abbrev push : ℕ → List Text → List Text
push x [] = (x ∷ []) ∷ []
push x (t ∷ ts) = (x ∷ t) ∷ ts

-- `t.split(c)`
unfoldable pub split : ℕ → Text → List Text
split c [] = [] ∷ []
split c (x ∷ xs) = let rest = split c xs in if x == c then [] ∷ rest else push x rest

-- `c.join(ts)`
unfoldable pub join : ℕ → List Text → Text
join c [] = []
join c (t ∷ []) = t
join c (t ∷ u ∷ us) = t ++ (c ∷ join c (u ∷ us))

abbrev prepend : ℕ → Option (Text × Text) → Option (Text × Text)
prepend x none = none
prepend x (some (a, b)) = some (x ∷ a, b)

-- `t.partition(c)`, where `c` occurs.
unfoldable pub cut : ℕ → Text → Option (Text × Text)
cut c [] = none
cut c (x ∷ xs) = let rest = cut c xs in if x == c then some ([], xs) else prepend x rest

-- `str.isspace` of one code point.
abbrev pub is_space : ℕ → Bool
is_space c =
    (leb 9 c && leb c 13)
    || ((leb 28 c && leb c 32)
        || (c == 133
            || (c == 160
                || (c == 5760
                    || ((leb 8192 c && leb c 8202)
                        || (c == 8232
                            || (c == 8233 || (c == 8239 || (c == 8287 || c == 12288)))))))))

unfoldable pub lstrip : Text → Text
lstrip [] = []
lstrip (c ∷ cs) = let rest = lstrip cs in if is_space c then rest else c ∷ cs

unfoldable pub rstrip : Text → Text
rstrip [] = []
rstrip (c ∷ cs) = let rest = rstrip cs in if is_space c && is_nil rest then [] else c ∷ rest

-- `t.strip()`
abbrev pub strip : Text → Text
strip t = rstrip (lstrip t)

-- `t.startswith(p)`
unfoldable pub starts_with : Text → Text → Bool
starts_with [] t = true
starts_with (p ∷ ps) [] = false
starts_with (p ∷ ps) (c ∷ cs) = p == c && starts_with ps cs

-- The order of strings, by code points.
unfoldable pub text_le : Text → Text → Bool
text_le [] u = true
text_le (c ∷ cs) [] = false
text_le (c ∷ cs) (d ∷ ds) =
    let later = text_le cs ds in if ltb c d then true else if c == d then later else false
