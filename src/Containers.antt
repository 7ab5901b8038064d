-- ===== src/Containers.antt =====
-- include/nodesetexporter/open62541/UATypesContainer.h: the lifetime of the objects that the containers hold.
-- A program is a sequence of the operations that the class offers on its variables.

pub mod Heap
pub mod Slots
pub mod Ownership
pub mod Operations
pub mod Programs
use open62541_nodeset_export.Prelude.{
  Bool, List, Option, [], false, if◌then◌else◌, none, some, suc, zero, ℕ, ◌==◌, ◌∷◌,
}
use open62541_nodeset_export.Status.{Outcome, ok, or_throw, throws, undefined, ◌>>=◌}

-- The objects that UA_new has made and UA_delete has not freed, each with its address and its contents.
pub record Memory (A : Type 0) : Type 0 where
  pub cells : List (ℕ × A)
  pub next : ℕ

-- `object` is none for a null pointer.
pub record UaTypesContainer : Type 0 where
  pub object : Option ℕ
  pub ua_type : ℕ
  pub is_weak_copy : Bool

abbrev pub find_cell : {A : Type 0} → ℕ → List (ℕ × A) → Option A
find_cell p [] = none
find_cell p ((r, v) ∷ cells) = if r == p then some v else find_cell p cells

abbrev pub remove_cell : {A : Type 0} → ℕ → List (ℕ × A) → List (ℕ × A)
remove_cell p [] = []
remove_cell p ((r, v) ∷ cells) = if r == p then cells else (r, v) ∷ remove_cell p cells

-- What a move leaves of the container that it moves from.
abbrev pub emptied : UaTypesContainer → UaTypesContainer
emptied obj = record obj { object = none; ua_type = 0 }

module _ {A : Type 0} where
  abbrev pub ua_new : A → Memory A → Memory A
  ua_new v m = record { cells = (m.next, v) ∷ m.cells; next = suc m.next }

  -- UA_delete. With a null pointer it is defined for the types that need no clearing; 0 is UA_TYPES_BOOLEAN.
  abbrev pub ua_delete : Option ℕ → ℕ → Memory A → Outcome (Memory A)
  ua_delete none t m = if t == 0 then ok m else throws undefined
  ua_delete (some p) t m = elim (find_cell p m.cells) [
    | none ↦ throws undefined
    | some v ↦ ok (record m { cells = remove_cell p m.cells })
  ]

  -- What UA_copy reads.
  abbrev pub read_object : Option ℕ → Memory A → Outcome A
  read_object none m = throws undefined
  read_object (some p) m = or_throw (find_cell p m.cells) undefined

  unfoldable pub construct_copy_of : A → ℕ → Memory A → UaTypesContainer × Memory A
  construct_copy_of v t m =
      (record { object = some m.next; ua_type = t; is_weak_copy = false }, ua_new v m)

  unfoldable pub destruct : UaTypesContainer → Memory A → Outcome (Memory A)
  destruct c m = elim c.object [
    | none ↦ ok m
    | some p ↦ if c.is_weak_copy then ok m else ua_delete (some p) c.ua_type m
  ]

  unfoldable pub copy_construct :
      UaTypesContainer → Memory A → Outcome (UaTypesContainer × Memory A)
  copy_construct obj m = read_object obj.object m >>= λ v.
      ok (record { object = some m.next; ua_type = obj.ua_type; is_weak_copy = false }, ua_new v m)

  -- Assignments between two different containers; the other one is left alone. The flag of the container is
  -- not touched.
  unfoldable pub copy_assign :
      UaTypesContainer → UaTypesContainer → Memory A → Outcome (UaTypesContainer × Memory A)
  copy_assign self obj m = ua_delete self.object self.ua_type m >>= λ m1.
      read_object obj.object m1 >>= λ v.
      ok (record self { object = some m1.next; ua_type = obj.ua_type }, ua_new v m1)

  unfoldable pub move_assign :
      UaTypesContainer → UaTypesContainer → Memory A → Outcome (UaTypesContainer × Memory A)
  move_assign self obj m = ua_delete self.object self.ua_type m >>= λ m1.
      ok (record self { object = obj.object; ua_type = obj.ua_type }, m1)

  unfoldable pub move_construct :
      UaTypesContainer → Memory A → Outcome (UaTypesContainer × Memory A)
  unfolding move_assign
  move_construct obj m =
      move_assign (record { object = none; ua_type = 0; is_weak_copy = false }) obj m

-- A variable that is not there, or a container.
abbrev pub Slots : Type 0
Slots = List (Option UaTypesContainer)

abbrev pub set_slot : ℕ → Option UaTypesContainer → Slots → Slots
set_slot i c [] = []
set_slot zero c (d ∷ slots) = c ∷ slots
set_slot (suc i) c (d ∷ slots) = d ∷ set_slot i c slots

abbrev pub slot_at : Slots → ℕ → Option UaTypesContainer
slot_at [] i = none
slot_at (d ∷ slots) zero = d
slot_at (d ∷ slots) (suc i) = slot_at slots i

pub record World (A : Type 0) : Type 0 where
  pub memory : Memory A
  pub slots : Slots

-- The first number is the variable that is made, put_container or destroyed.
pub data Operation (A : Type 0) : Type 0 where
  make : ℕ → A → ℕ → Operation A
  copy_make move_make copy_write move_write : ℕ → ℕ → Operation A
  destroy : ℕ → Operation A

module _ {A : Type 0} where
  abbrev pub put_container : ℕ → World A → Outcome (UaTypesContainer × Memory A) → Outcome (World A)
  put_container i w o =
      o >>= λ r. ok (record { memory = r.1; slots = set_slot i (some r.0) w.slots })

  abbrev pub container_at : World A → ℕ → Outcome UaTypesContainer
  container_at w i = or_throw (slot_at w.slots i) undefined

  abbrev pub emptied_at : ℕ → UaTypesContainer → World A → World A
  emptied_at j obj w = record w { slots = set_slot j (some (emptied obj)) w.slots }

  -- What a variable does that is not there is undefined. An assignment to itself does nothing.
  unfoldable pub run_operation : Operation A → World A → Outcome (World A)
  unfolding construct_copy_of destruct copy_construct copy_assign move_assign move_construct
  run_operation (make i v t) w = put_container i w (ok (construct_copy_of v t w.memory))
  run_operation (copy_make i j) w =
      container_at w j >>= λ obj. put_container i w (copy_construct obj w.memory)
  run_operation (move_make i j) w =
      container_at w j >>= λ obj. put_container i (emptied_at j obj w) (move_construct obj w.memory)
  run_operation (copy_write i j) w = container_at w i >>= λ self. container_at w j >>= λ obj.
      if i == j then ok w else put_container i w (copy_assign self obj w.memory)
  run_operation (move_write i j) w = container_at w i >>= λ self. container_at w j >>= λ obj.
      if i == j then ok w else put_container i (emptied_at j obj w) (move_assign self obj w.memory)
  run_operation (destroy i) w = container_at w i >>= λ self.
      destruct self w.memory >>= λ m. ok (record { memory = m; slots = set_slot i none w.slots })
