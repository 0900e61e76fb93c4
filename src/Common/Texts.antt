-- ===== src/Common/Texts.antt =====
-- Go strings as lists of byte values, with their equality, their order and membership in slices.
use Prim.Native.Char.{code}
use Prim.Native.String.{String}
use Prim.Native.Nat.{ℕ}
use mathlib.Core.Path.{◌≡◌, refl}
use mathlib.Core.Logic.{◌↔◌}
use mathlib.Core.Bool.{Bool, true, false, not, ◌&&◌, ◌||◌}
use mathlib.Core.List.{List, [], ◌∷◌, ◌++◌}
use native.Mathlib.Omega.{arith}
use kubernetes_resource_orch.Common.Tests.{ltb, ◌==◌, if◌then◌else◌}

abbrev pub Text : Type 0
Text = List ℕ

-- The bytes of a literal, which is ASCII. `String` has its own `[]` and `∷`.
abbrev pub codes : String → Text
codes String.[] = []
codes (String.◌∷◌ c s) = code c ∷ codes s

-- `a == b` on strings.
unfoldable pub text_eq : Text → Text → Bool
text_eq [] [] = true
text_eq (a ∷ s) (b ∷ t) = a == b && text_eq s t
text_eq _ _ = false

pub text_eq_iff : (s t : Text) → (text_eq s t ≡ true) ↔ (s ≡ t)
unfolding text_eq
text_eq_iff (a ∷ s) (b ∷ t) = ground (arith, text_eq_iff s t)
text_eq_iff _ _ = ground arith

pub text_eq_refl : (s : Text) → text_eq s s ≡ true
text_eq_refl s = (text_eq_iff s s).1 refl

-- `a <= b` on strings, byte by byte.
unfoldable pub text_le : Text → Text → Bool
text_le [] t = true
text_le (a ∷ s) [] = false
text_le (a ∷ s) (b ∷ t) = ltb a b || (a == b && text_le s t)

pub text_le_total : (s t : Text) → text_le s t ≡ false → text_le t s ≡ true
unfolding text_le
text_le_total [] t h = cc
text_le_total (a ∷ s) [] h = refl
text_le_total (a ∷ s) (b ∷ t) h = ground (arith, text_le_total s t)

-- `slices.Contains`, and a key's presence in a set that is kept as the list of its keys.
unfoldable pub mem : Text → List Text → Bool
mem x [] = false
mem x (y ∷ ys) = text_eq x y || mem x ys

abbrev pub Subset : List Text → List Text → Type 0
Subset xs ys = (x : Text) → mem x xs ≡ true → mem x ys ≡ true

-- No key twice.
abbrev pub Nodup : List Text → Type 0
Nodup [] = Unit
Nodup (x ∷ xs) = (mem x xs ≡ false) × Nodup xs

pub mem-append : (x : Text) (xs ys : List Text) → mem x (xs ++ ys) ≡ (mem x xs || mem x ys)
unfolding mem
mem-append x [] ys = refl
mem-append x (y ∷ xs) ys = ground (arith, mem-append x xs ys)

pub mem-cons_self : (x : Text) (xs : List Text) → mem x (x ∷ xs) ≡ true
unfolding mem
mem-cons_self x xs = ground (arith, text_eq_refl x)

-- Every entry that is equal to `x` goes.
unfoldable pub remove : Text → List Text → List Text
remove x [] = []
remove x (y ∷ ys) = let rest = remove x ys in if text_eq x y then rest else y ∷ rest

pub mem-remove :
    (x y : Text) (ys : List Text) → mem x (remove y ys) ≡ (not (text_eq x y) && mem x ys)
unfolding mem remove
mem-remove x y [] = ground arith
mem-remove x y (z ∷ zs) =
    ground (arith, mem-remove x y zs, text_eq_iff x y, text_eq_iff y z, text_eq_iff x z)

pub remove_absent : (x : Text) (xs : List Text) → mem x xs ≡ false → remove x xs ≡ xs
unfolding mem remove
remove_absent x [] h = refl
remove_absent x (y ∷ ys) h = ground (arith, remove_absent x ys)

-- `sort.Strings`: only the order of the result shows, so any sort that is right stands for it.
insert_sorted : Text → List Text → List Text
insert_sorted x [] = x ∷ []
insert_sorted x (y ∷ ys) =
    let rest = insert_sorted x ys in if text_le x y then x ∷ y ∷ ys else y ∷ rest

unfoldable pub sort_strings : List Text → List Text
unfolding insert_sorted
sort_strings [] = []
sort_strings (x ∷ xs) = insert_sorted x (sort_strings xs)

mem-insert_sorted :
    (a x : Text) (ys : List Text) → mem a (insert_sorted x ys) ≡ (text_eq a x || mem a ys)
unfolding mem insert_sorted
mem-insert_sorted a x [] = refl
mem-insert_sorted a x (y ∷ ys) = ground (arith, mem-insert_sorted a x ys)

pub mem-sort_strings : (a : Text) (xs : List Text) → mem a (sort_strings xs) ≡ mem a xs
unfolding mem sort_strings
mem-sort_strings a [] = refl
mem-sort_strings a (x ∷ xs) =
    ground (arith, mem-insert_sorted a x (sort_strings xs), mem-sort_strings a xs)

-- Each string is at most the next.
abbrev pub IsSorted : List Text → Type 0
IsSorted [] = Unit
IsSorted (x ∷ []) = Unit
IsSorted (x ∷ y ∷ ys) = (text_le x y ≡ true) × IsSorted (y ∷ ys)

insert_sorted-IsSorted : (x : Text) (ys : List Text) → IsSorted ys → IsSorted (insert_sorted x ys)
unfolding insert_sorted
insert_sorted-IsSorted x [] h = tt
insert_sorted-IsSorted x (y ∷ []) h = ground (arith, text_le_total x y)
insert_sorted-IsSorted x (y ∷ z ∷ zs) h =
    ground (arith, text_le_total x y, text_le_total x z, insert_sorted-IsSorted x (z ∷ zs))

pub sort_strings-IsSorted : (xs : List Text) → IsSorted (sort_strings xs)
unfolding sort_strings
sort_strings-IsSorted [] = tt
sort_strings-IsSorted (x ∷ xs) =
    insert_sorted-IsSorted x (sort_strings xs) (sort_strings-IsSorted xs)

insert_sorted-Nodup :
    (x : Text) (ys : List Text) → mem x ys ≡ false → Nodup ys → Nodup (insert_sorted x ys)
unfolding mem insert_sorted
insert_sorted-Nodup x [] a h = ground arith
insert_sorted-Nodup x (y ∷ ys) a h =
    ground
      (arith, mem-insert_sorted y x ys, text_eq_iff x y, text_eq_iff y x, insert_sorted-Nodup x ys)

pub sort_strings-Nodup : (xs : List Text) → Nodup xs → Nodup (sort_strings xs)
unfolding sort_strings
sort_strings-Nodup [] h = tt
sort_strings-Nodup (x ∷ xs) h =
    insert_sorted-Nodup x (sort_strings xs) (ground (arith, mem-sort_strings x xs))
      (sort_strings-Nodup xs h.1)

pub Nodup-concat : (x : Text) (xs : List Text) → mem x xs ≡ false → Nodup xs → Nodup (xs ++ x ∷ [])
unfolding mem
Nodup-concat x [] a h = ground arith
Nodup-concat x (y ∷ ys) a h =
    ground (arith, mem-append y ys (x ∷ []), text_eq_iff x y, text_eq_iff y x, Nodup-concat x ys)

-- `s == ""`
abbrev pub is_empty_text : Text → Bool
is_empty_text [] = true
is_empty_text (c ∷ cs) = false
