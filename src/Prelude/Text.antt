-- ===== src/Prelude/Text.antt =====
-- Python's str as its list of code points, with the operations that the program calls.
use Prim.Native.Char.{code}
use Prim.Native.Nat.{ℕ}
use Prim.Native.String.{String}
use mathlib.Core.Path.{◌≡◌, refl}
use mathlib.Core.Logic.{◌↔◌, inl, inr}
use mathlib.Core.Bool.{Bool, true, false, ◌&&◌, ◌||◌}
use mathlib.Core.List.{List, [], ◌∷◌, ◌++◌, reverse}
use native.Mathlib.Omega.{arith}
use wootpilot.Prelude.Tests.{ltb, leb, ◌==◌, if◌then◌else◌, Bool-cases}
use wootpilot.Prelude.Lists.{any, ◌∈◌, any-exists, any-of_mem}

abbrev pub Text : Type 0
Text = List ℕ

abbrev pub codes : String → Text
codes String.[] = []
codes (String.◌∷◌ c s) = code c ∷ codes s

-- bool(value)
abbrev pub truthy : Text → Bool
truthy [] = false
truthy (_ ∷ _) = true

unfoldable pub str_eq : Text → Text → Bool
str_eq [] [] = true
str_eq [] (_ ∷ _) = false
str_eq (_ ∷ _) [] = false
str_eq (a ∷ s) (b ∷ t) = a == b && str_eq s t

pub str_eq_iff : (s t : Text) → (str_eq s t ≡ true) ↔ (s ≡ t)
unfolding str_eq
str_eq_iff [] [] = (λ _. refl, λ _. refl)
str_eq_iff [] (_ ∷ _) = (λ h. cc, λ h. cc)
str_eq_iff (_ ∷ _) [] = (λ h. cc, λ h. cc)
str_eq_iff (a ∷ s) (b ∷ t) =
    (λ h. ground (arith, (str_eq_iff s t).0), λ h. ground (arith, (str_eq_iff s t).1))

pub str_eq_refl : (s : Text) → str_eq s s ≡ true
str_eq_refl s = (str_eq_iff s s).1 refl

-- `candidate > source` on str, by code points.
unfoldable pub str_gt : Text → Text → Bool
str_gt [] t = false
str_gt (a ∷ s) [] = true
str_gt (a ∷ s) (b ∷ t) = ltb b a || (a == b && str_gt s t)

unfoldable pub mem_text : Text → List Text → Bool
mem_text t ts = any (str_eq t) ts

pub mem_text_iff : (t : Text) (ts : List Text) → (mem_text t ts ≡ true) ↔ (t ∈ ts)
unfolding mem_text
mem_text_iff t ts = (forth, λ m. any-of_mem (str_eq t) t ts m (str_eq_refl t))
  where
    forth : mem_text t ts ≡ true → t ∈ ts
    forth h =
        let found = any-exists (str_eq t) ts h in rw ((str_eq_iff t found.0).0 found.2) found.1

-- prefix and substring tests: s.startswith(p), `needle in hay`
unfoldable pub starts_with : Text → Text → Bool
starts_with s [] = true
starts_with [] (_ ∷ _) = false
starts_with (c ∷ s) (p ∷ ps) = c == p && starts_with s ps

unfoldable pub contains : Text → Text → Bool
unfolding starts_with
contains [] needle = starts_with [] needle
contains (c ∷ s) needle = starts_with (c ∷ s) needle || contains s needle

-- str.isspace on one character (the White_Space characters and U+001C to U+001F)
unfoldable pub is_space : ℕ → Bool
is_space c =
    leb 9 c && leb c 13
    || leb 28 c && leb c 32
    || c == 133
    || c == 160
    || c == 5760
    || leb 8192 c && leb c 8202
    || c == 8232
    || c == 8233
    || c == 8239
    || c == 8287
    || c == 12288

unfoldable pub lstrip : Text → Text
unfolding is_space
lstrip [] = []
lstrip (c ∷ s) = let rest = lstrip s in if is_space c then rest else c ∷ s

unfoldable pub strip : Text → Text
unfolding lstrip
strip s = reverse (lstrip (reverse (lstrip s)))

-- " ".join(s.split()): words separated by one space. `pending` says that a word has ended.
unfoldable pub squeeze : Bool → Text → Text
unfolding is_space
squeeze pending [] = []
squeeze pending (c ∷ s) =
    let skip = squeeze true s in
    let keep = squeeze false s in
    if is_space c then skip else (if pending then 32 ∷ c ∷ keep else c ∷ keep)

unfoldable pub collapse : Text → Text
unfolding squeeze lstrip
collapse s = squeeze false (lstrip s)

-- sep.join(parts)
unfoldable pub join : Text → List Text → Text
join sep [] = []
join sep (p ∷ []) = p
join sep (p ∷ q ∷ ps) = p ++ (sep ++ join sep (q ∷ ps))

-- sorted(texts), stable
unfoldable pub insert_sorted : Text → List Text → List Text
unfolding str_gt
insert_sorted t [] = t ∷ []
insert_sorted t (u ∷ us) =
    let rest = insert_sorted t us in if str_gt t u then u ∷ rest else t ∷ u ∷ us

unfoldable pub sorted : List Text → List Text
unfolding insert_sorted
sorted [] = []
sorted (t ∷ ts) = insert_sorted t (sorted ts)

-- set(texts) as the list of its elements, the last occurrence kept
unfoldable pub dedup : List Text → List Text
unfolding mem_text
dedup [] = []
dedup (t ∷ ts) = let rest = dedup ts in if mem_text t ts then rest else t ∷ rest

pub mem-insert_sorted : (x t : Text) (us : List Text) → (x ∈ insert_sorted t us) ↔ (x ∈ (t ∷ us))
unfolding insert_sorted
mem-insert_sorted x t [] = (λ m. m, λ m. m)
mem-insert_sorted x t (u ∷ us) = (
  λ m. ground (arith, (mem-insert_sorted x t us).0),
  λ m. ground (arith, (mem-insert_sorted x t us).1),
)

pub mem-sorted : (x : Text) (ts : List Text) → (x ∈ sorted ts) ↔ (x ∈ ts)
unfolding sorted
mem-sorted x [] = (λ m. m, λ m. m)
mem-sorted x (t ∷ ts) = (
  λ m. ground (arith, (mem-insert_sorted x t (sorted ts)).0 m, (mem-sorted x ts).0),
  λ m. (mem-insert_sorted x t (sorted ts)).1 (ground (arith, (mem-sorted x ts).1)),
)

pub mem-dedup : (x : Text) (ts : List Text) → (x ∈ dedup ts) ↔ (x ∈ ts)
unfolding dedup
mem-dedup x [] = (λ m. m, λ m. m)
mem-dedup x (t ∷ ts) = (
  λ m. ground (arith, (mem-dedup x ts).0),
  λ m. elim (Bool-cases (mem_text t ts)) [
    | inl again ↦ elim m [
      | inl same ↦ rw again ((mem-dedup x ts).1 (rw same ((mem_text_iff t ts).0 again)))
      | inr later ↦ rw again ((mem-dedup x ts).1 later)
    ]
    | inr new ↦ elim m [
      | inl same ↦ rw new (inl same)
      | inr later ↦ rw new (inr ((mem-dedup x ts).1 later))
    ]
  ],
)
