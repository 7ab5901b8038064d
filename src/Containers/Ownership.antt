-- ===== src/Containers/Ownership.antt =====
-- Nothing is freed twice, read after it was freed, or lost.
use open62541_nodeset_export.Prelude.{
  All, Bool-cases, List, Option, Option-cases, ap, arith, false, inl, inr, none, refl, some, subst,
  suc, sym, ℕ, ◌+◌, ◌==◌, ◌∷◌, ◌≡◌, ◌≢◌, ◌≤◌,
}
use open62541_nodeset_export.Containers.{
  Memory, Operation, Slots, UaTypesContainer, World, copy_make, copy_write, destroy, emptied, make,
  move_make, move_write, remove_cell, set_slot, slot_at, ua_delete,
}
use open62541_nodeset_export.Containers.Heap.{
  find_cell-live, hit, hit-le, hit_refl, live, live-remove_cell,
}
use open62541_nodeset_export.Containers.Slots.{
  All-set_slot, All-slot_at, IsSlot, IsSlot-set_slot, held, held-set_slot, holds, slot_at-IsSlot,
  slot_at-set_slot,
}
use open62541_nodeset_export.Status.{ok}

-- A container that owns what it points to; a null pointer has the type of UA_TYPES_BOOLEAN.
abbrev pub IsStrong : Option UaTypesContainer → Type 0
IsStrong none = Unit
IsStrong (some c) = (c.is_weak_copy ≡ false) × ((c.object ≡ none) → c.ua_type ≡ 0)

abbrev pub IsHolding : Option UaTypesContainer → Type 0
IsHolding none = ⊥
IsHolding (some c) = (p : ℕ) × (c.object ≡ some p)

abbrev pub IsContainer : Option UaTypesContainer → Type 0
IsContainer none = ⊥
IsContainer (some c) = Unit

pub container_cases :
    (d : Option UaTypesContainer) → IsContainer d → (c : UaTypesContainer) × (d ≡ some c)
container_cases none h = absurd h
container_cases (some c) h = (c, refl)

pub holding_cases :
    (d : Option UaTypesContainer)
    → IsHolding d
    → (c : UaTypesContainer) × (d ≡ some c) × ((p : ℕ) × (c.object ≡ some p))
holding_cases none h = absurd h
holding_cases (some c) h = (c, refl, h)

-- What the container holds no longer counts.
dropped :
    (q i : ℕ) (slots : Slots) (c : UaTypesContainer)
    → slot_at slots i ≡ some c
    → held q (set_slot i none slots) + holds q (some c) ≡ held q slots
dropped q i slots c filled =
    let l = held-set_slot q i none slots (slot_at-IsSlot i slots c filled) in
    let f : holds q (slot_at slots i) ≡ holds q (some c) = ap (holds q) filled in
    omega (arith, l, f)

module _ {A : Type 0} where
  abbrev pub IsOwned : List (ℕ × A) → ℕ → Slots → Type 0
  IsOwned cells next slots =
      ((q : ℕ) → held q slots ≡ live q cells)
      × ((q : ℕ) → live q cells ≤ 1)
      × ((q : ℕ) → next ≤ q → live q cells ≡ 0)
      × All IsStrong slots

  -- Each object is held by exactly one container, and each container that is not empty holds an object.
  abbrev pub Owned : World A → Type 0
  Owned w = IsOwned w.memory.cells w.memory.next w.slots

  -- The variables are there as the operation needs them, and what is copied has not been moved from.
  abbrev pub IsAllowed : Operation A → Slots → Type 0
  IsAllowed (make i v t) slots = IsSlot i slots × (slot_at slots i ≡ none)
  IsAllowed (copy_make i j) slots =
      IsSlot i slots × (slot_at slots i ≡ none) × IsHolding (slot_at slots j)
  IsAllowed (move_make i j) slots =
      IsSlot i slots × (slot_at slots i ≡ none) × IsContainer (slot_at slots j)
  IsAllowed (copy_write i j) slots = IsContainer (slot_at slots i) × IsHolding (slot_at slots j)
  IsAllowed (move_write i j) slots = IsContainer (slot_at slots i) × IsContainer (slot_at slots j)
  IsAllowed (destroy i) slots = IsContainer (slot_at slots i)

  -- A new object in a variable that held nothing any more.
  pub fresh-IsOwned :
      (cells : List (ℕ × A)) (next i : ℕ) (v : A) (c : UaTypesContainer) (slots : Slots)
      → IsOwned cells next slots
      → IsSlot i slots
      → ((q : ℕ) → holds q (slot_at slots i) ≡ 0)
      → c.object ≡ some next
      → c.is_weak_copy ≡ false
      → IsOwned ((next, v) ∷ cells) (suc next) (set_slot i (some c) slots)
  fresh-IsOwned cells next i v c slots (same, single, old, strong) here free full owner = (
    (λ q.
        let k = held-set_slot q i (some c) slots here in
        let f = free q in
        let n : holds q (some c) ≡ hit next q = rw full refl in
        let s = same q in omega (arith, k, f, n, s)),
    (λ q. elim (Bool-cases (next == q)) [
      | inl b ↦
          let e : next ≡ q = ground arith in
          let o = old q (omega (arith, e)) in let l = hit-le next q in omega (arith, o, l)
      | inr b ↦ let o = single q in rw b (omega (arith, o))
    ]),
    (λ q le.
        let o = old q (omega (arith, le)) in
        let b : (next == q) ≡ false = ground arith in rw b (omega (arith, o))),
    All-set_slot IsStrong i (some c) slots (owner, (λ bad. cc)) strong,
  )

  pub nothing_there :
      (cells : List (ℕ × A)) (next i : ℕ) (slots : Slots)
      → IsOwned cells next slots
      → IsSlot i slots
      → slot_at slots i ≡ none
      → IsOwned cells next (set_slot i none slots)
  nothing_there cells next i slots (same, single, old, strong) here free = (
    (λ q.
        let k = held-set_slot q i none slots here in
        let f : holds q (slot_at slots i) ≡ 0 = ap (holds q) free in
        let s = same q in omega (arith, k, f, s)),
    single,
    old,
    All-set_slot IsStrong i none slots tt strong,
  )

  -- The object of a container is given back.
  abbrev pub Released : Memory A → ℕ → UaTypesContainer → Slots → Memory A → Type 0
  Released m i c slots m1 =
      (ua_delete c.object c.ua_type m ≡ ok m1)
      × (m1.next ≡ m.next)
      × IsOwned m1.cells m1.next (set_slot i none slots)

  release_null :
      (m : Memory A) (i : ℕ) (slots : Slots) (c : UaTypesContainer)
      → IsOwned m.cells m.next slots
      → slot_at slots i ≡ some c
      → c.object ≡ none
      → Released m i c slots m
  release_null m i slots c (same, single, old, strong) filled e =
      let t = (All-slot_at IsStrong i slots c strong filled).1 e in
      (
        rw (e, t) refl,
        refl,
        (
          (λ q.
              let l = dropped q i slots c filled in
              let z : holds q (some c) ≡ 0 = rw e refl in let s = same q in omega (arith, l, z, s)),
          single,
          old,
          All-set_slot IsStrong i none slots tt strong,
        ),
      )

  release_object :
      (m : Memory A) (i p : ℕ) (slots : Slots) (c : UaTypesContainer)
      → IsOwned m.cells m.next slots
      → slot_at slots i ≡ some c
      → c.object ≡ some p
      → Released m i c slots (record m { cells = remove_cell p m.cells })
  release_object m i p slots c (same, single, old, strong) filled e =
      let n : (q : ℕ) → holds q (some c) ≡ hit p q = λ q. rw e refl in
      let lives : 1 ≤ live p m.cells =
        (let l = dropped p i slots c filled in
          let z = n p in let o = hit_refl p in let s = same p in omega (arith, l, z, o, s)) in
      let r : (q : ℕ) → live q (remove_cell p m.cells) + hit p q ≡ live q m.cells =
        λ q. live-remove_cell p q m.cells lives in
      let (v, cell) = find_cell-live p m.cells lives in
      (
        rw (e, cell, ua_delete) refl,
        refl,
        (
          (λ q.
              let l = dropped q i slots c filled in
              let z = n q in let s = same q in let k = r q in omega (arith, l, z, s, k)),
          (λ q. let s = single q in let k = r q in omega (arith, s, k)),
          (λ q le. let s = old q le in let k = r q in omega (arith, s, k)),
          All-set_slot IsStrong i none slots tt strong,
        ),
      )

  pub release-IsOwned :
      (m : Memory A) (i : ℕ) (slots : Slots) (c : UaTypesContainer)
      → IsOwned m.cells m.next slots
      → slot_at slots i ≡ some c
      → (m1 : Memory A) × Released m i c slots m1
  release-IsOwned m i slots c owned filled = elim (Option-cases c.object) [
    | inl e ↦ (m, release_null m i slots c owned filled e)
    | inr (p, e) ↦
        (record m { cells = remove_cell p m.cells }, release_object m i p slots c owned filled e)
  ]

  pub moved-IsOwned :
      (cells : List (ℕ × A)) (next i j : ℕ) (slots : Slots) (self obj : UaTypesContainer)
      → i ≢ j
      → IsSlot i slots
      → slot_at slots j ≡ some obj
      → All IsStrong slots
      → IsOwned cells next (set_slot i none slots)
      → self ≡ record obj { is_weak_copy = false }
      → IsOwned cells next (set_slot i (some self) (set_slot j (some (emptied obj)) slots))
  moved-IsOwned cells next i j slots self obj apart here filled strong (same, single, old, _) e = (
    (λ q.
        let k0 = held-set_slot q i none slots here in
        let k1 = held-set_slot q j (some (emptied obj)) slots (slot_at-IsSlot j slots obj filled) in
        let k2 =
          held-set_slot q i (some self) (set_slot j (some (emptied obj)) slots)
            (IsSlot-set_slot j i (some (emptied obj)) slots here) in
        let f : holds q (slot_at slots j) ≡ holds q (some obj) = ap (holds q) filled in
        let g : holds q (slot_at (set_slot j (some (emptied obj)) slots) i)
            ≡ holds q (slot_at slots i) =
          ap (holds q) (slot_at-set_slot j i (some (emptied obj)) slots (λ b. apart (sym b))) in
        let h : holds q (some self) ≡ holds q (some obj) = ap (λ c. holds q (some c)) e in
        let s = same q in omega (arith, k0, k1, k2, f, g, h, s)),
    single,
    old,
    (let o = All-slot_at IsStrong j slots obj strong filled in
        All-set_slot IsStrong i (some self) _ (subst (λ c. IsStrong (some c)) (sym e) (refl, o.1))
          (All-set_slot IsStrong j (some (emptied obj)) slots (o.0, (λ b. refl)) strong)),
  )
