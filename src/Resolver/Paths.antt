-- ===== src/Resolver/Paths.antt =====
-- Reading back what was written at a path, and what a write leaves alone.
use kubernetes_resource_orch.Common.{
  ℕ, zero, suc, ◌≤◌, ◌<◌, ◌≡◌, ◌≢◌, refl, sym, ap, inl, inr, List, [], ◌∷◌, some, Option-cases,
  arith, Text, text_eq_refl, Result, ok, and_then, and_then-eq-ok, ℤ, pos, negsuc,
}
use kubernetes_resource_orch.Fieldpath.{Segment}
use kubernetes_resource_orch.Values.{
  Value, null, bool, integer, float, text, array, object, Items, nil, cons, Fields, get_field,
  set_field, get_field-set_field, item_count, get_item, set_item, nulls, resize,
}
use kubernetes_resource_orch.Resolver.{
  ResolveError, get_segment, get_path, handle_array_segment, get_or_create_next, set_segment,
  set_path,
}

pub get_item-set_item_self :
    (i : ℕ) (v : Value) (vs : Items) → i < item_count vs → get_item i (set_item i v vs) ≡ some v
unfolding get_item set_item item_count
get_item-set_item_self i v nil h = elim h [ ]
get_item-set_item_self zero v (cons w vs) h = refl
get_item-set_item_self (suc i) v (cons w vs) h = get_item-set_item_self i v vs (omega arith)

pub get_item-set_item_ne :
    (i j : ℕ) (v : Value) (vs : Items) → i ≢ j → get_item j (set_item i v vs) ≡ get_item j vs
unfolding get_item set_item
get_item-set_item_ne i j v nil h = refl
get_item-set_item_ne zero zero v (cons w vs) h = absurd (h refl)
get_item-set_item_ne zero (suc j) v (cons w vs) h = refl
get_item-set_item_ne (suc i) zero v (cons w vs) h = refl
get_item-set_item_ne (suc i) (suc j) v (cons w vs) h =
    get_item-set_item_ne i j v vs (λ e. h (ap suc e))

item_count-resize : (n : ℕ) (vs : Items) → item_count (resize n vs) ≡ n
unfolding item_count resize
item_count-resize zero vs = refl
item_count-resize (suc n) nil = ap suc (item_count-resize n nil)
item_count-resize (suc n) (cons v vs) = ap suc (item_count-resize n vs)

item_count-nulls : (n : ℕ) → item_count (nulls n) ≡ n
unfolding item_count nulls
item_count-nulls zero = refl
item_count-nulls (suc n) = ap suc (item_count-nulls n)

-- A longer array keeps its elements.
pub get_item-resize :
    (n j : ℕ) (vs : Items) {w : Value}
    → item_count vs ≤ n
    → get_item j vs ≡ some w
    → get_item j (resize n vs) ≡ some w
unfolding get_item resize item_count
get_item-resize zero j nil h e = e
get_item-resize zero j (cons v vs) h e = elim h [ ]
get_item-resize (suc n) j nil h e = cc
get_item-resize (suc n) zero (cons v vs) h e = e
get_item-resize (suc n) (suc j) (cons v vs) h e = get_item-resize n j vs (omega arith) e

pub handle_array_segment-lt :
    (i : ℕ) (current : Value) (vs : Items)
    → handle_array_segment i current ≡ ok vs
    → i < item_count vs
unfolding handle_array_segment
handle_array_segment-lt i null vs e = ground (arith, item_count-nulls (suc i), e)
handle_array_segment-lt i (array ws) vs e = ground (arith, item_count-resize (suc i) ws, e)
handle_array_segment-lt i _ vs e = ground (arith, e)

-- A segment that was written reads as the child that was put there.
set_segment-get :
    (below : Value → Result ResolveError Value) (next : List Segment) (name : Text) (i : ℤ)
    (current after : Value)
    → set_segment below next name i current ≡ ok after
    → (child : Value) × (v : Value) × (below child ≡ ok v) × (get_segment name i after ≡ ok v)
unfolding set_segment get_segment
set_segment-get below next name (negsuc n) (object fs) after e =
    let child = get_or_create_next next (get_field name fs) in
    let (v, e1, e2) = and_then-eq-ok (below child) (λ v. ok (object (set_field name v fs))) e in
    (child, v, e1, ground (arith, e2, get_field-set_field name name v fs, text_eq_refl name))
set_segment-get below next name (negsuc n) null after e = cc
set_segment-get below next name (negsuc n) (bool x) after e = cc
set_segment-get below next name (negsuc n) (integer x) after e = cc
set_segment-get below next name (negsuc n) (float x) after e = cc
set_segment-get below next name (negsuc n) (text x) after e = cc
set_segment-get below next name (negsuc n) (array x) after e = cc
set_segment-get below next name (pos n) current after e =
    let (ws, sized, e1) = and_then-eq-ok (handle_array_segment n current) _ e in
    let child = get_or_create_next next (get_item n ws) in
    let (v, e2, e3) = and_then-eq-ok (below child) (λ v. ok (array (set_item n v ws))) e1 in
    (
      child,
      v,
      e2,
      ground
          (arith, e3, get_item-set_item_self n v ws (handle_array_segment-lt n current ws sized)),
    )

-- The value that was written at a path is read there.
pub get_path-set_path :
    (ss : List Segment) (value current after : Value)
    → set_path ss value current ≡ ok after
    → get_path ss after ≡ ok value
unfolding set_path get_path
get_path-set_path [] value current after e = sym e
get_path-set_path (s ∷ ss) value current after e =
    let (child, v, below, here) =
      set_segment-get (set_path ss value) ss s.name s.index current after e in
    rw here (get_path-set_path ss value child v below)

-- A child on the way of a path that can be read is not replaced.
pub get_or_create_next_same :
    (s : Segment) (ss : List Segment) (c w : Value)
    → get_path (s ∷ ss) c ≡ ok w
    → get_or_create_next (s ∷ ss) (some c) ≡ c
unfolding get_path get_segment get_or_create_next
get_or_create_next_same s ss null w e = absurd (go s.index e)
  where
    go : (i : ℤ) → and_then (get_segment s.name i null) (get_path ss) ≡ ok w → ⊥
    go (pos n) h = cc
    go (negsuc n) h = cc
get_or_create_next_same s ss _ w e = refl

-- Two paths that part at some segment.
pub data Apart : List Segment → List Segment → Type 0 where
  names :
      {k j : Text} {m n : ℕ} {ss ts : List Segment}
      → k ≢ j
      → Apart
          (record { name = k; index = negsuc m } ∷ ss)
          (record { name = j; index = negsuc n } ∷ ts)
  indices :
      {k j : Text} {m n : ℕ} {ss ts : List Segment}
      → m ≢ n
      → Apart (record { name = k; index = pos m } ∷ ss) (record { name = j; index = pos n } ∷ ts)
  below_name :
      {k j : Text} {m n : ℕ} {ss ts : List Segment}
      → k ≡ j
      → Apart ss ts
      → Apart
          (record { name = k; index = negsuc m } ∷ ss)
          (record { name = j; index = negsuc n } ∷ ts)
  below_index :
      {k j : Text} {m n : ℕ} {ss ts : List Segment}
      → m ≡ n
      → Apart ss ts
      → Apart (record { name = k; index = pos m } ∷ ss) (record { name = j; index = pos n } ∷ ts)

-- What a read of a field or of an element says about the object.
pub get_name-inv :
    (k : Text) (n : ℕ) (ts : List Segment) (current w : Value)
    → get_path (record { name = k; index = negsuc n } ∷ ts) current ≡ ok w
    → (fs : Fields) × (c : Value) × (current ≡ object fs)
      × (get_field k fs ≡ some c)
      × (get_path ts c ≡ ok w)
unfolding get_path get_segment
get_name-inv k n ts (object fs) w e = elim (Option-cases (get_field k fs)) [
  | inl missing ↦ ground (arith, missing, e)
  | inr (c, here) ↦ (fs, c, refl, here, rw here at e)
]
get_name-inv k n ts null w e = cc
get_name-inv k n ts (bool x) w e = cc
get_name-inv k n ts (integer x) w e = cc
get_name-inv k n ts (float x) w e = cc
get_name-inv k n ts (text x) w e = cc
get_name-inv k n ts (array x) w e = cc

pub get_index-inv :
    (k : Text) (n : ℕ) (ts : List Segment) (current w : Value)
    → get_path (record { name = k; index = pos n } ∷ ts) current ≡ ok w
    → (vs : Items) × (c : Value) × (current ≡ array vs)
      × (get_item n vs ≡ some c)
      × (get_path ts c ≡ ok w)
unfolding get_path get_segment
get_index-inv k n ts (array vs) w e = elim (Option-cases (get_item n vs)) [
  | inl missing ↦ ground (arith, missing, e)
  | inr (c, here) ↦ (vs, c, refl, here, rw here at e)
]
get_index-inv k n ts null w e = cc
get_index-inv k n ts (bool x) w e = cc
get_index-inv k n ts (integer x) w e = cc
get_index-inv k n ts (float x) w e = cc
get_index-inv k n ts (text x) w e = cc
get_index-inv k n ts (object x) w e = cc

-- And back.
pub get_name-path :
    (k : Text) (n : ℕ) (ts : List Segment) (fs : Fields) (c w : Value)
    → get_field k fs ≡ some c
    → get_path ts c ≡ ok w
    → get_path (record { name = k; index = negsuc n } ∷ ts) (object fs) ≡ ok w
unfolding get_path get_segment
get_name-path k n ts fs c w here e = rw here e

pub get_index-path :
    (k : Text) (n : ℕ) (ts : List Segment) (vs : Items) (c w : Value)
    → get_item n vs ≡ some c
    → get_path ts c ≡ ok w
    → get_path (record { name = k; index = pos n } ∷ ts) (array vs) ≡ ok w
unfolding get_path get_segment
get_index-path k n ts vs c w here e = rw here e
