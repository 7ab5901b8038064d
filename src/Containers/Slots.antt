-- ===== src/Containers/Slots.antt =====
-- How many variables hold the object at an address.
use open62541_nodeset_export.Prelude.{
  All, Option, [], ap, arith, none, refl, some, subst, suc, zero, ℕ, ◌+◌, ◌∷◌, ◌≡◌, ◌≢◌,
}
use open62541_nodeset_export.Containers.{Slots, UaTypesContainer, set_slot, slot_at}
use open62541_nodeset_export.Containers.Heap.{hit}

abbrev pub holds : ℕ → Option UaTypesContainer → ℕ
holds q none = 0
holds q (some c) = elim c.object [ none ↦ 0 | some p ↦ hit p q ]

abbrev pub held : ℕ → Slots → ℕ
held q [] = 0
held q (d ∷ slots) = holds q d + held q slots

-- The variable is there, so that it can be written.
abbrev pub IsSlot : ℕ → Slots → Type 0
IsSlot i [] = ⊥
IsSlot zero (d ∷ slots) = Unit
IsSlot (suc i) (d ∷ slots) = IsSlot i slots

pub held-set_slot :
    (q i : ℕ) (c : Option UaTypesContainer) (slots : Slots)
    → IsSlot i slots
    → held q (set_slot i c slots) + holds q (slot_at slots i) ≡ held q slots + holds q c
held-set_slot q i c [] h = absurd h
held-set_slot q zero c (d ∷ slots) h = omega arith
held-set_slot q (suc i) c (d ∷ slots) h = let ih = held-set_slot q i c slots h in omega (arith, ih)

pub slot_at-set_slot :
    (i j : ℕ) (c : Option UaTypesContainer) (slots : Slots)
    → i ≢ j
    → slot_at (set_slot i c slots) j ≡ slot_at slots j
slot_at-set_slot i j c [] h = refl
slot_at-set_slot zero zero c (d ∷ slots) h = absurd (h refl)
slot_at-set_slot zero (suc j) c (d ∷ slots) h = refl
slot_at-set_slot (suc i) zero c (d ∷ slots) h = refl
slot_at-set_slot (suc i) (suc j) c (d ∷ slots) h = slot_at-set_slot i j c slots (λ e. h (ap suc e))

pub IsSlot-set_slot :
    (i j : ℕ) (c : Option UaTypesContainer) (slots : Slots)
    → IsSlot j slots
    → IsSlot j (set_slot i c slots)
IsSlot-set_slot i j c [] h = absurd h
IsSlot-set_slot zero zero c (d ∷ slots) h = tt
IsSlot-set_slot zero (suc j) c (d ∷ slots) h = h
IsSlot-set_slot (suc i) zero c (d ∷ slots) h = tt
IsSlot-set_slot (suc i) (suc j) c (d ∷ slots) h = IsSlot-set_slot i j c slots h

-- A variable that is a container is there.
pub slot_at-IsSlot :
    (i : ℕ) (slots : Slots) (c : UaTypesContainer) → slot_at slots i ≡ some c → IsSlot i slots
slot_at-IsSlot i [] c h = cc
slot_at-IsSlot zero (d ∷ slots) c h = tt
slot_at-IsSlot (suc i) (d ∷ slots) c h = slot_at-IsSlot i slots c h

pub slot_at-same :
    (i : ℕ) (c : Option UaTypesContainer) (slots : Slots)
    → IsSlot i slots
    → slot_at (set_slot i c slots) i ≡ c
slot_at-same i c [] h = absurd h
slot_at-same zero c (d ∷ slots) h = refl
slot_at-same (suc i) c (d ∷ slots) h = slot_at-same i c slots h

pub set_slot-set_slot :
    (i : ℕ) (c d : Option UaTypesContainer) (slots : Slots)
    → set_slot i c (set_slot i d slots) ≡ set_slot i c slots
set_slot-set_slot i c d [] = refl
set_slot-set_slot zero c d (e ∷ slots) = refl
set_slot-set_slot (suc i) c d (e ∷ slots) = ap (λ l. e ∷ l) (set_slot-set_slot i c d slots)

module _ (P : Option UaTypesContainer → Type 0) where
  pub All-set_slot :
      (i : ℕ) (c : Option UaTypesContainer) (slots : Slots)
      → P c
      → All P slots
      → All P (set_slot i c slots)
  All-set_slot i c [] h all = tt
  All-set_slot zero c (d ∷ slots) h (one, more) = (h, more)
  All-set_slot (suc i) c (d ∷ slots) h (one, more) = (one, All-set_slot i c slots h more)

  pub All-slot_at :
      (i : ℕ) (slots : Slots) (c : UaTypesContainer)
      → All P slots
      → slot_at slots i ≡ some c
      → P (some c)
  All-slot_at i [] c all h = cc
  All-slot_at zero (d ∷ slots) c (one, more) h = subst P h one
  All-slot_at (suc i) (d ∷ slots) c (one, more) h = All-slot_at i slots c more h
