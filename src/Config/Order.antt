-- ===== src/Config/Order.antt =====
-- internal/config/config.go: toConfig ranges over the map of the models, in an order that Go chooses anew
-- at each run. Whether it takes them, and what the names mean then, does not depend on that order.
use infer_swap.Common.{
  Bool, true, false, not, ◌≡◌, refl, sym, ap, ◌∙◌, inl, inr, Option, none, some, List, [], ◌∷◌,
  String, ok, ◌>>◌, >>=-eq-ok, guard-eq-ok, ok-inj, guard, arith, same_text, eq_iff, Bool-cases,
}
use infer_swap.Config.Types.{alias_taken}
use infer_swap.Config.Load.{find, has_key, add_aliases}

-- Two lists of names that mean the same.
abbrev pub SameNames : List (String × String) → List (String × String) → Type 0
SameNames ns ms = (k : String) → find k ns ≡ find k ms

abbrev is_found : Option String → Bool
is_found none = false
is_found (some v) = true

found-has_key : (k : String) (ns : List (String × String)) → is_found (find k ns) ≡ has_key k ns
found-has_key k [] = refl
found-has_key k ((j, v) ∷ ns) = ground (arith, found-has_key k ns)

has_key-SameNames :
    (k : String) (ns ms : List (String × String)) → SameNames ns ms → has_key k ms ≡ has_key k ns
has_key-SameNames k ns ms s =
    sym (found-has_key k ms) ∙ (ap is_found (sym (s k)) ∙ found-has_key k ns)

cons-SameNames :
    (k v : String) (ns ms : List (String × String))
    → SameNames ns ms
    → SameNames ((k, v) ∷ ns) ((k, v) ∷ ms)
cons-SameNames k v ns ms s j = ground (arith, s j)

apart : (k j i : String) → k ≡ i → same_text k j ≡ false → same_text j i ≡ false
apart k j i e other = elim (Bool-cases (same_text j i)) [
  | inl same ↦
      let both : same_text k j ≡ true = (eq_iff k j).1 (e ∙ sym ((eq_iff j i).0 same)) in
      absurd (ground (arith, both, other))
  | inr far ↦ far
]

-- Two names that differ may change places.
swap-SameNames :
    (k v j w : String) (ns : List (String × String))
    → same_text k j ≡ false
    → SameNames ((k, v) ∷ (j, w) ∷ ns) ((j, w) ∷ (k, v) ∷ ns)
swap-SameNames k v j w ns other i = elim (Bool-cases (same_text k i)) [
  | inl here ↦
      let e : k ≡ i = (eq_iff k i).0 here in
      let far : same_text j i ≡ false = apart k j i e other in ground (arith, here, far)
  | inr there ↦ ground (arith, there)
]

-- One name is added.
pub add_aliases-cons :
    (id x : String) (xs : List String) (ns out : List (String × String))
    → add_aliases id (x ∷ xs) ns ≡ ok out
    → (has_key x ns ≡ false) × (add_aliases id xs ((x, id) ∷ ns) ≡ ok out)
unfolding add_aliases
add_aliases-cons id x xs ns out h =
    let (_, g, step) = >>=-eq-ok (guard (not (has_key x ns)) _) _ h in
    (ground (arith, guard-eq-ok (not (has_key x ns)) _ g), step)

pub cons-add_aliases :
    (id x : String) (xs : List String) (ns out : List (String × String))
    → has_key x ns ≡ false
    → add_aliases id xs ((x, id) ∷ ns) ≡ ok out
    → add_aliases id (x ∷ xs) ns ≡ ok out
unfolding add_aliases
cons-add_aliases id x xs ns out free step =
    ap (λ b. guard (not b) alias_taken >> add_aliases id xs ((x, id) ∷ ns)) free ∙ step

-- What names are added to does not matter, beyond what it means.
pub add_aliases-cong :
    (id : String) (xs : List String) (ns ms out : List (String × String))
    → SameNames ns ms
    → add_aliases id xs ns ≡ ok out
    → (out' : List (String × String)) × (add_aliases id xs ms ≡ ok out') × SameNames out out'
unfolding add_aliases
add_aliases-cong id [] ns ms out s h = (ms, refl, λ k. ap (find k) (sym (ok-inj h)) ∙ s k)
add_aliases-cong id (x ∷ xs) ns ms out s h =
    let (free, step) = add_aliases-cons id x xs ns out h in
    let (out', step', same) =
      add_aliases-cong id xs ((x, id) ∷ ns) ((x, id) ∷ ms) out (cons-SameNames x id ns ms s) step in
    (out', cons-add_aliases id x xs ms out' (has_key-SameNames x ns ms s ∙ free) step', same)

-- A name that was there before may be added after the aliases instead.
add_aliases-later :
    (id x v : String) (xs : List String) (ns out : List (String × String))
    → has_key x ns ≡ false
    → add_aliases id xs ((x, v) ∷ ns) ≡ ok out
    → (out' : List (String × String)) × (add_aliases id xs ns ≡ ok out')
      × (has_key x out' ≡ false)
      × SameNames out ((x, v) ∷ out')
unfolding add_aliases
add_aliases-later id x v [] ns out free h = (ns, refl, free, λ k. ap (find k) (sym (ok-inj h)))
add_aliases-later id x v (y ∷ ys) ns out free h =
    let (new, step) = add_aliases-cons id y ys ((x, v) ∷ ns) out h in
    let other : same_text x y ≡ false = ground (arith, new) in
    let y_free : has_key y ns ≡ false = ground (arith, new) in
    let y_x : same_text y x ≡ false = apart x y x refl other in
    let (out₁, swapped, same₁) =
      add_aliases-cong id ys ((y, id) ∷ (x, v) ∷ ns) ((x, v) ∷ (y, id) ∷ ns) out
        (swap-SameNames y id x v ns y_x) step in
    let x_free : has_key x ((y, id) ∷ ns) ≡ false = ground (arith, free, y_x) in
    let (out₂, before, absent, same₂) =
      add_aliases-later id x v ys ((y, id) ∷ ns) out₁ x_free swapped in
    (out₂, cons-add_aliases id y ys ns out₂ y_free before, absent, λ k. same₁ k ∙ same₂ k)

-- The names of two models may be added in either order.
pub add_aliases-swap :
    (i j : String) (xs ys : List String) (ns a b : List (String × String))
    → add_aliases i xs ns ≡ ok a
    → add_aliases j ys a ≡ ok b
    → (a' : List (String × String)) × (b' : List (String × String)) × (add_aliases j ys ns ≡ ok a')
      × (add_aliases i xs a' ≡ ok b')
      × SameNames b b'
unfolding add_aliases
add_aliases-swap i j [] ys ns a b first second =
    (b, b, ap (add_aliases j ys) (ok-inj first) ∙ second, refl, λ k. refl)
add_aliases-swap i j (x ∷ xs) ys ns a b first second =
    let (free, step) = add_aliases-cons i x xs ns a first in
    let (a₁, b₁, one, two, same₁) = add_aliases-swap i j xs ys ((x, i) ∷ ns) a b step second in
    let (a₂, before, absent, same₂) = add_aliases-later j x i ys ns a₁ free one in
    let (b₂, after, same₃) = add_aliases-cong i xs a₁ ((x, i) ∷ a₂) b₁ same₂ two in
    (a₂, b₂, before, cons-add_aliases i x xs a₂ b₂ absent after, λ k. same₁ k ∙ same₃ k)
