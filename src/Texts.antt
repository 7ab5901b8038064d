-- ===== src/Texts.antt =====
-- std::string as a key: the order of bytes, and equality by it.
use open62541_nodeset_export.Prelude.{Ordering, Text, [], arith, compare, refl, ◌↔◌, ◌∷◌, ◌≡◌}

unfoldable pub compare_text : Text → Text → Ordering
compare_text [] [] = Ordering.eq
compare_text [] (y ∷ ys) = Ordering.lt
compare_text (x ∷ xs) [] = Ordering.gt
compare_text (x ∷ xs) (y ∷ ys) =
    let rest = compare_text xs ys in
    elim (compare x y) [
      | Ordering.lt ↦ Ordering.lt
      | Ordering.gt ↦ Ordering.gt
      | Ordering.eq ↦ rest
    ]

pub compare_text_refl : (t : Text) → compare_text t t ≡ Ordering.eq
unfolding compare_text
compare_text_refl [] = refl
compare_text_refl (x ∷ xs) = ground (arith, compare_text_refl xs)

pub compare_text→eq : (s t : Text) → compare_text s t ≡ Ordering.eq → s ≡ t
unfolding compare_text
compare_text→eq [] [] h = refl
compare_text→eq [] (y ∷ ys) h = cc
compare_text→eq (x ∷ xs) [] h = cc
compare_text→eq (x ∷ xs) (y ∷ ys) h = ground (arith, compare_text→eq xs ys)

pub compare_text-flip :
    (s t : Text) → (compare_text s t ≡ Ordering.gt) ↔ (compare_text t s ≡ Ordering.lt)
unfolding compare_text
compare_text-flip [] [] = (λ h. cc, λ h. cc)
compare_text-flip [] (y ∷ ys) = (λ h. cc, λ h. cc)
compare_text-flip (x ∷ xs) [] = (λ h. refl, λ h. refl)
compare_text-flip (x ∷ xs) (y ∷ ys) =
    ((λ h. ground (arith, compare_text-flip xs ys)), λ h. ground (arith, compare_text-flip xs ys))
