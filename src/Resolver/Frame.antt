-- ===== src/Resolver/Frame.antt =====
-- A write keeps the value at every path that parts from the written one, and does not fail where a
-- value can be read.
use kubernetes_resource_orch.Common.{
  ℕ, zero, suc, ◌≤◌, ◌<◌, ◌≡◌, refl, ap, subst, ◌∙◌, false, List, [], ◌∷◌, some, leb, arith, Text,
  text_eq_iff, ok, and_then-eq-ok, ℤ, pos, negsuc,
}
use kubernetes_resource_orch.Fieldpath.{Segment}
use kubernetes_resource_orch.Values.{
  get_field-set_field, Value, null, array, object, Items, nil, cons, Fields, get_field, set_field,
  item_count, get_item, set_item,
}
use kubernetes_resource_orch.Resolver.{
  get_segment, get_path, handle_array_segment, get_or_create_next, set_segment, set_path,
}
use kubernetes_resource_orch.Resolver.Paths.{
  get_item-set_item_self, get_item-set_item_ne, get_item-resize, get_name-inv, get_index-inv,
  get_name-path, get_index-path, get_or_create_next_same, handle_array_segment-lt, Apart, names,
  indices, below_name, below_index,
}

-- A write of a field of an object, taken apart.
set_name-inv :
    (k : Text) (m : ℕ) (ss : List Segment) (value : Value) (fs : Fields) (after : Value)
    → set_path (record { name = k; index = negsuc m } ∷ ss) value (object fs) ≡ ok after
    → (v : Value) × (after ≡ object (set_field k v fs))
      × (set_path ss value (get_or_create_next ss (get_field k fs)) ≡ ok v)
unfolding set_path set_segment
set_name-inv k m ss value fs after e =
    let (v, e1, e2) =
      and_then-eq-ok (set_path ss value (get_or_create_next ss (get_field k fs)))
        (λ v. ok (object (set_field k v fs))) e in
    (v, ground (arith, e2), e1)

-- A write of an element of an array: the array may get longer before.
set_index-inv :
    (k : Text) (m : ℕ) (ss : List Segment) (value : Value) (vs : Items) (after : Value)
    → set_path (record { name = k; index = pos m } ∷ ss) value (array vs) ≡ ok after
    → (ws : Items) × (v : Value) × (after ≡ array (set_item m v ws))
      × (set_path ss value (get_or_create_next ss (get_item m ws)) ≡ ok v)
      × (m < item_count ws)
      × ((j : ℕ) (w : Value) → get_item j vs ≡ some w → get_item j ws ≡ some w)
unfolding set_path set_segment
set_index-inv k m ss value vs after e =
    let (ws, sized, e1) = and_then-eq-ok (handle_array_segment m (array vs)) _ e in
    let (v, e2, e3) =
      and_then-eq-ok (set_path ss value (get_or_create_next ss (get_item m ws)))
        (λ v. ok (array (set_item m v ws))) e1 in
    (
      ws,
      v,
      ground (arith, e3),
      e2,
      handle_array_segment-lt m (array vs) ws sized,
      λ j w h. kept j w h ws sized,
    )
  where
    kept :
        (j : ℕ) (w : Value)
        → get_item j vs ≡ some w
        → (ws : Items) → handle_array_segment m (array vs) ≡ ok ws
        → get_item j ws ≡ some w
    kept j w h ws sized =
        unfold handle_array_segment in
        ground (arith, sized, h, λ (p : item_count vs ≤ suc m). get_item-resize (suc m) j vs p h)

-- Nothing can be read below a null.
null-unread : (ss ts : List Segment) (w : Value) → Apart ss ts → get_path ts null ≡ ok w → ⊥
unfolding get_path get_segment
null-unread ss ts w (names ne) e = cc
null-unread ss ts w (indices ne) e = cc
null-unread ss ts w (below_name same a) e = cc
null-unread ss ts w (below_index same a) e = cc

-- The child below which a path can be read is the one that the write goes on with.
same_child :
    (ss ts : List Segment) (c w : Value)
    → Apart ss ts
    → get_path ts c ≡ ok w
    → get_or_create_next ss (some c) ≡ c
unfolding get_or_create_next
same_child ss ts null w apart e = absurd (null-unread ss ts w apart e)
same_child ss ts _ w apart e = refl

pub get_path-set_path-Apart :
    {ss ts : List Segment} (value current after w : Value)
    → Apart ss ts
    → set_path ss value current ≡ ok after
    → get_path ts current ≡ ok w
    → get_path ts after ≡ ok w
get_path-set_path-Apart value current after w (names {k} {j} {m} {n} {ss} {ts} ne) written read =
    let (fs, c, is_object, here, below) = get_name-inv j n ts current w read in
    let (v, e, _) = set_name-inv k m ss value fs after (
      subst (λ x. set_path (record { name = k; index = negsuc m } ∷ ss) value x ≡ ok after)
        is_object written) in
    rw e (
      get_name-path j n ts (set_field k v fs) c w
        (ground (arith, get_field-set_field k j v fs, text_eq_iff j k, ne, here)) below)
get_path-set_path-Apart value current after w (indices {k} {j} {m} {n} {ss} {ts} ne) written read =
    let (vs, c, is_array, here, below) = get_index-inv j n ts current w read in
    let (ws, v, e, _, _, kept) = set_index-inv k m ss value vs after (
      subst (λ x. set_path (record { name = k; index = pos m } ∷ ss) value x ≡ ok after) is_array
        written) in
    rw e (
      get_index-path j n ts (set_item m v ws) c w (get_item-set_item_ne m n v ws ne ∙ kept n c here)
        below)
get_path-set_path-Apart value current after w (below_name {k} {j} {m} {n} {ss} {ts} same apart)
      written read =
    let (fs, c, is_object, here, below) = get_name-inv j n ts current w read in
    let (v, e, goes) = set_name-inv k m ss value fs after (
      subst (λ x. set_path (record { name = k; index = negsuc m } ∷ ss) value x ≡ ok after)
        is_object written) in
    let child : get_or_create_next ss (get_field k fs) ≡ c =
      ap (λ x. get_or_create_next ss (get_field x fs)) same
      ∙ ap (get_or_create_next ss) here
      ∙ same_child ss ts c w apart below in
    rw e (
      get_name-path j n ts (set_field k v fs) v w
        (ground (arith, get_field-set_field k j v fs, text_eq_iff j k, same))
        (get_path-set_path-Apart value c v w apart (rw child at goes) below))
get_path-set_path-Apart value current after w (below_index {k} {j} {m} {n} {ss} {ts} same apart)
      written read =
    let (vs, c, is_array, here, below) = get_index-inv j n ts current w read in
    let (ws, v, e, goes, inside, kept) = set_index-inv k m ss value vs after (
      subst (λ x. set_path (record { name = k; index = pos m } ∷ ss) value x ≡ ok after) is_array
        written) in
    let child : get_or_create_next ss (get_item m ws) ≡ c =
      ap (λ x. get_or_create_next ss (get_item x ws)) same
      ∙ ap (get_or_create_next ss) (kept n c here)
      ∙ same_child ss ts c w apart below in
    rw e (
      get_index-path j n ts (set_item m v ws) v w
        (subst (λ x. get_item x (set_item m v ws) ≡ some v) same
          (get_item-set_item_self m v ws inside))
        (get_path-set_path-Apart value c v w apart (rw child at goes) below))

get_item-short :
    (n : ℕ) (vs : Items) (c : Value) → get_item n vs ≡ some c → leb (item_count vs) n ≡ false
unfolding get_item item_count
get_item-short n nil c e = cc
get_item-short zero (cons v vs) c e = ground arith
get_item-short (suc n) (cons v vs) c e = ground (arith, get_item-short n vs c e)

-- The child that the write goes on with is the one that was read, unless the path ends here.
child_total :
    (ss : List Segment) (value c w : Value)
    → ((x : Value) → get_path ss x ≡ ok w → (after : Value) × (set_path ss value x ≡ ok after))
    → get_path ss c ≡ ok w
    → (after : Value) × (set_path ss value (get_or_create_next ss (some c)) ≡ ok after)
child_total [] value c w total e = (value, unfold set_path in refl)
child_total (s ∷ ss) value c w total e = rw (get_or_create_next_same s ss c w e) (total c e)

segment_total :
    (k : Text) (i : ℤ) (ss : List Segment) (value current w : Value)
    → ((x : Value) → get_path ss x ≡ ok w → (after : Value) × (set_path ss value x ≡ ok after))
    → get_path (record { name = k; index = i } ∷ ss) current ≡ ok w
    → (after : Value) × (set_path (record { name = k; index = i } ∷ ss) value current ≡ ok after)
segment_total k (negsuc n) ss value current w total e =
    let (fs, c, is_object, here, below) = get_name-inv k n ss current w e in
    let (v, written) = child_total ss value c w total below in
    (object (set_field k v fs), rw is_object (unfold set_path set_segment in rw here (rw written)))
segment_total k (pos n) ss value current w total e =
    let (vs, c, is_array, here, below) = get_index-inv k n ss current w e in
    let (v, written) = child_total ss value c w total below in
    (
      array (set_item n v vs),
      rw is_array (
          unfold set_path set_segment handle_array_segment in
          rw (get_item-short n vs c here) (rw here (rw written))),
    )

pub set_path_total :
    (ss : List Segment) (value current w : Value)
    → get_path ss current ≡ ok w
    → (after : Value) × (set_path ss value current ≡ ok after)
set_path_total [] value current w e = (value, unfold set_path in refl)
set_path_total (s ∷ ss) value current w e =
    segment_total s.name s.index ss value current w (λ x. set_path_total ss value x w) e
